-- ===== src/SingleFile/Head.antt =====
-- singlefile-FS/file.c: what a write does to the blocks of the superblock and of the inode.
use aos_project.Base.{
  ℕ, zero, suc, ◌+◌, ◌-◌, ◌%◌, ◌≤◌, ◌<◌, min, ◌≡◌, refl, sym, ◌∙◌, false, not, arith, ltb, leb,
  ◌==◌, if-cases, ℤ, neg, eio, efault, efbig,
}
use aos_project.SingleFile.{
  Block, Disk, Device, FileState, Progress, Round, leaves, continues, write_round, write_loop,
  finish_write, onefilefs_write, add_u64, block_of, store, set_block,
}
use aos_project.SingleFile.Positions.{size_bound, block_of_small}
use aos_project.SingleFile.Outcome.{after, write_loop-nothing, write_loop-round}
use mathlib.Core.Path.{subst}
use native.Mathlib.Decide.{dec_le}

-- The two blocks before the contents of the file are the same.
abbrev pub SameHead : Disk → Disk → Type 0
SameHead disk disk' = (disk' 0 ≡ disk 0) × (disk' 1 ≡ disk 1)

SameHead-trans :
    (disk disk' disk'' : Disk) → SameHead disk disk' → SameHead disk' disk'' → SameHead disk disk''
SameHead-trans disk disk' disk'' (a, b) (a', b') = (a' ∙ a, b' ∙ b)

set_block-SameHead :
    (n : ℕ) (block : Block) (disk : Disk) → 2 ≤ n → SameHead disk (set_block n block disk)
unfolding set_block
set_block-SameHead n block disk h = (
  (let e : (0 == n) ≡ false = ground arith in rw (e) refl),
  (let e : (1 == n) ≡ false = ground arith in rw (e) refl),
)

abbrev disk_after : Round → Disk
disk_after (leaves disk res) = disk
disk_after (continues s) = s.disk

-- A round keeps the head, and the end of what is to be written.
abbrev Keeps : Progress → Round → Type 0
Keeps s (leaves disk res) = SameHead s.disk disk
Keeps s (continues s') = SameHead s.disk s'.disk × (s'.position + s'.to_write ≤ size_bound)

module _ (d : Device) where
  write_round-Keeps :
      (s : Progress)
      → s.position < size_bound
      → s.position + s.to_write ≤ size_bound
      → Keeps s (write_round d s)
  unfolding write_round
  write_round-Keeps s h l =
      let b = block_of s.position in
      let n = min s.to_write (4096 - s.position % 4096) in
      let (bytes, ret) = d.copy_from_user s.written n in
      let disk = set_block b (store (s.position % 4096) bytes (s.disk b)) s.disk in
      let s' : Progress = record {
        disk = disk;
        position = add_u64 s.position n;
        to_write = s.to_write - n;
        written = add_u64 s.written n;
      } in
      let b-lem = block_of_small s.position h in
      let k =
        set_block-SameHead b (store (s.position % 4096) bytes (s.disk b)) s.disk (omega arith) in
      if-cases (Keeps s) (not (d.sb_bread b)) (leaves s.disk (neg eio)) _ (λ e. (refl, refl))
        (λ e.
          if-cases (Keeps s) (ltb 0 ret) (leaves disk (neg efault)) (continues s') (λ e. k)
            (λ e. (k, omega arith)))

  after-SameHead :
      (fuel : ℕ) (s : Progress) (r : Round)
      → ((s' : Progress)
          → s'.position + s'.to_write ≤ size_bound
          → SameHead s'.disk (disk_after (write_loop d fuel s')))
      → Keeps s r
      → SameHead s.disk (disk_after (after d fuel r))
  unfolding after
  after-SameHead fuel s (leaves disk res) ih k = k
  after-SameHead fuel s (continues s') ih (k, l) =
      SameHead-trans s.disk s'.disk (disk_after (write_loop d fuel s')) k (ih s' l)

  write_loop-SameHead :
      (fuel : ℕ) (s : Progress)
      → s.position + s.to_write ≤ size_bound
      → SameHead s.disk (disk_after (write_loop d fuel s))
  unfolding write_loop
  write_loop-SameHead zero s l = (refl, refl)
  write_loop-SameHead (suc fuel) s l = elim (dec_le s.to_write 0) [
    | yes z ↦
        subst (λ r. SameHead s.disk (disk_after r))
          (sym (write_loop-nothing d (suc fuel) s (omega arith))) (refl, refl)
    | no z ↦
        subst (λ r. SameHead s.disk (disk_after r)) (sym (write_loop-round d fuel s (omega arith)))
          (after-SameHead fuel s (write_round d s) (write_loop-SameHead fuel)
            (write_round-Keeps s (omega arith) l))
  ]

  finish_write-disk :
      (f : FileState) (off : ℕ) (r : Round) → (finish_write d f off r).0.disk ≡ disk_after r
  unfolding finish_write
  finish_write-disk f off (leaves disk res) = refl
  finish_write-disk f off (continues s) = refl

  -- A write below 2 ^ 42 bytes leaves the superblock and the block of the inode as they are, on every
  -- outcome.
  pub onefilefs_write-SameHead :
      (f : FileState) (len off : ℕ)
      → f.i_size + len ≤ size_bound
      → SameHead f.disk (onefilefs_write d f len off).0.disk
  unfolding onefilefs_write
  onefilefs_write-SameHead f len off h =
      let s : Progress = record {
        disk = f.disk;
        position = f.i_size;
        to_write = len;
        written = 0;
      } in
      if-cases (λ (r : FileState × (ℕ × ℤ)). SameHead f.disk r.0.disk)
        (leb d.max_file_size (add_u64 f.i_size len)) (f, (off, neg efbig))
        (finish_write d f off (write_loop d len s)) (λ e. (refl, refl))
        (λ e.
          subst (SameHead f.disk) (sym (finish_write-disk f off (write_loop d len s)))
            (write_loop-SameHead len s h))
