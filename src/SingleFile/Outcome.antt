-- ===== src/SingleFile/Outcome.antt =====
-- singlefile-FS/file.c: every outcome of a write, on every device.
use aos_project.Base.{
  ℕ, max, zero, suc, ◌+◌, ◌-◌, ◌%◌, ◌≤◌, ◌<◌, min, ◌≡◌, refl, sym, ◌⊎◌, inl, inr, not, arith, ltb,
  leb, Bool-cases, if-cases, ℤ, pos, neg, eio, efault, efbig,
}
use aos_project.SingleFile.{
  Device, FileState, Progress, Round, leaves, continues, write_round, write_loop, finish_write,
  onefilefs_write, add_u64, block_of, store, set_block,
}
use mathlib.Core.Path.{subst}
use native.Mathlib.Decide.{dec_le}

-- Neither the position nor the count of a write that goes on from here wraps around.
abbrev Fits : Progress → Type 0
Fits s =
    (s.position + s.to_write < 18446744073709551616)
    × (s.written + s.to_write < 18446744073709551616)

-- Where the loop may end: with one of the errors, or with everything written.
abbrev Ended : Progress → Round → Type 0
Ended s (leaves disk res) = (res ≡ neg eio) ⊎ (res ≡ neg efault)
Ended s (continues s') =
    (s'.to_write ≡ 0)
    × (s'.position ≡ s.position + s.to_write)
    × (s'.written ≡ s.written + s.to_write)

-- One round: an error, or progress by at least one byte.
abbrev Advanced : Progress → Round → Type 0
Advanced s (leaves disk res) = (res ≡ neg eio) ⊎ (res ≡ neg efault)
Advanced s (continues s') =
    (s'.to_write < s.to_write)
    × (s'.position + s'.to_write ≡ s.position + s.to_write)
    × (s'.written + s'.to_write ≡ s.written + s.to_write)

module _ (d : Device) where
  write_round-Advanced : (s : Progress) → 0 < s.to_write → Fits s → Advanced s (write_round d s)
  unfolding write_round
  write_round-Advanced s h (f, g) =
      let b = block_of s.position in
      let n = min s.to_write (4096 - s.position % 4096) in
      let (bytes, ret) = d.copy_from_user s.written n in
      let disk = set_block b (store (s.position % 4096) bytes (s.disk b)) s.disk in
      let s' : Progress = record {
        disk = disk;
        position = add_u64 s.position n;
        to_write = s.to_write - n;
        written = add_u64 s.written n;
      } in
      if-cases (Advanced s) (not (d.sb_bread b)) (leaves s.disk (neg eio)) _ (λ e. inl refl)
        (λ e.
          if-cases (Advanced s) (ltb 0 ret) (leaves disk (neg efault)) (continues s')
            (λ e. inr refl) (λ e. (omega arith, omega arith, omega arith)))

  pub write_loop-nothing :
      (fuel : ℕ) (s : Progress) → s.to_write ≡ 0 → write_loop d fuel s ≡ continues s
  unfolding write_loop
  write_loop-nothing zero s h = refl
  write_loop-nothing (suc fuel) s h = ground arith

  unfoldable pub after : ℕ → Round → Round
  after fuel (leaves disk res) = leaves disk res
  after fuel (continues s) = write_loop d fuel s

  pub write_loop-round :
      (fuel : ℕ) (s : Progress)
      → 0 < s.to_write
      → write_loop d (suc fuel) s ≡ after fuel (write_round d s)
  unfolding write_loop after
  write_loop-round fuel s h = ground arith

  Ended-after :
      (fuel : ℕ) (s : Progress) (r : Round)
      → ((s' : Progress) → s'.to_write ≤ fuel → Fits s' → Ended s' (write_loop d fuel s'))
      → s.to_write ≤ suc fuel
      → Fits s
      → Advanced s r
      → Ended s (after fuel r)
  unfolding after
  Ended-after fuel s (leaves disk res) ih h f a = a
  Ended-after fuel s (continues s') ih h (f, g) (a, b, c) =
      shift (write_loop d fuel s') (ih s' (omega arith) (omega arith, omega arith))
    where
      shift : (r : Round) → Ended s' r → Ended s r
      shift (leaves disk res) e = e
      shift (continues s'') (z, p, w) = (z, omega arith, omega arith)

  -- The loop is through before the fuel is: it ends with an error, or with everything written.
  pub write_loop-Ended :
      (fuel : ℕ) (s : Progress) → s.to_write ≤ fuel → Fits s → Ended s (write_loop d fuel s)
  write_loop-Ended zero s h f =
      subst (Ended s) (sym (write_loop-nothing 0 s (omega arith)))
        (omega arith, omega arith, omega arith)
  write_loop-Ended (suc fuel) s h f = elim (dec_le s.to_write 0) [
    | yes z ↦
        subst (Ended s) (sym (write_loop-nothing (suc fuel) s (omega arith)))
          (omega arith, omega arith, omega arith)
    | no z ↦ subst (Ended s) (sym (write_loop-round fuel s (omega arith))) (
        Ended-after fuel s (write_round d s) (write_loop-Ended fuel) h f
          (write_round-Advanced s (omega arith) f))
  ]

  abbrev started : FileState → ℕ → Progress
  started f len = record { disk = f.disk; position = f.i_size; to_write = len; written = 0 }

  -- A write that has failed leaves the size and `*off`; one that has not has written it all.
  abbrev pub IsOutcome : FileState → ℕ → ℕ → FileState × (ℕ × ℤ) → Type 0
  IsOutcome f len off r =
      ((r.1.1 ≡ pos len) × (r.1.0 ≡ f.i_size + len) × (r.0.i_size ≡ f.i_size + len))
      ⊎ (((r.1.1 ≡ neg efbig) ⊎ (r.1.1 ≡ neg eio) ⊎ (r.1.1 ≡ neg efault))
          × (r.1.0 ≡ off)
          × (r.0.i_size ≡ f.i_size))

  finish_write-IsOutcome :
      (f : FileState) (len off : ℕ) (r : Round)
      → f.i_size + len < 9223372036854775808
      → Ended (started f len) r
      → IsOutcome f len off (finish_write d f off r)
  unfolding finish_write
  finish_write-IsOutcome f len off (leaves disk res) b e = inr (inr e, refl, refl)
  finish_write-IsOutcome f len off (continues s) b (z, p, w) = inl (ground arith, p, ground arith)

  -- On every device, whatever it answers, a write whose end is a position of 63 bits comes to an
  -- end: either all of the buffer is written, the result is its length, and the size and `*off`
  -- are the old size and the length; or the result is -EFBIG, -EIO or -EFAULT, and the size and
  -- `*off` are as before.
  pub onefilefs_write-IsOutcome :
      (f : FileState) (len off : ℕ)
      → f.i_size + len < 9223372036854775808
      → IsOutcome f len off (onefilefs_write d f len off)
  unfolding onefilefs_write
  onefilefs_write-IsOutcome f len off b =
      if-cases (IsOutcome f len off) (leb d.max_file_size (add_u64 f.i_size len))
        (f, (off, neg efbig)) (finish_write d f off (write_loop d len (started f len)))
        (λ e. inr (inl refl, refl, refl))
        (λ e.
          finish_write-IsOutcome f len off (write_loop d len (started f len)) b
            (write_loop-Ended len (started f len) (omega arith) (omega arith, omega arith)))

  -- The file stays below the limit: a write that does not wrap the size around leaves a size below
  -- `max_file_size`, if it was below it before, on every outcome.
  pub onefilefs_write-bounded :
      (f : FileState) (len off : ℕ)
      → f.i_size < d.max_file_size
      → f.i_size + len < 18446744073709551616
      → (onefilefs_write d f len off).0.i_size < d.max_file_size
  unfolding onefilefs_write finish_write
  onefilefs_write-bounded f len off h l =
      if-cases (λ (r : FileState × (ℕ × ℤ)). r.0.i_size < d.max_file_size)
        (leb d.max_file_size (add_u64 f.i_size len)) (f, (off, neg efbig))
        (finish_write d f off (write_loop d len (started f len))) (λ e. h)
        (λ e.
          small (ground arith) (write_loop d len (started f len))
            (write_loop-Ended len (started f len) (omega arith) (omega arith, omega arith)))
    where
      small :
          f.i_size + len < d.max_file_size
          → (r : Round) → Ended (started f len) r
          → (finish_write d f off r).0.i_size < d.max_file_size
      small b (leaves disk res) e = h
      small b (continues s) (z, p, w) =
          if-cases (λ n. n < d.max_file_size) (ltb s.position 9223372036854775808)
            (max s.position f.i_size) f.i_size (λ e. omega arith) (λ e. h)

  finish_write-offset :
      (f : FileState) (n m : ℕ) (r : Round) → (finish_write d f n r).0 ≡ (finish_write d f m r).0
  unfolding finish_write
  finish_write-offset f n m (leaves disk res) = refl
  finish_write-offset f n m (continues s) = refl

  -- What a write leaves of the file does not depend on `*off`.
  pub onefilefs_write-offset :
      (f : FileState) (len n m : ℕ) → (onefilefs_write d f len n).0 ≡ (onefilefs_write d f len m).0
  unfolding onefilefs_write
  onefilefs_write-offset f len n m =
      elim (Bool-cases (leb d.max_file_size (add_u64 f.i_size len))) [
        | inl e ↦ rw (e) refl
        | inr e ↦ rw (e) (finish_write-offset f n m (write_loop d len (started f len)))
      ]
