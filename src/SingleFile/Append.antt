-- ===== src/SingleFile/Append.antt =====
-- singlefile-FS/file.c: what a write adds to the log, and what it keeps.
use aos_project.Base.{
  ℕ, zero, suc, ◌+◌, ◌-◌, ◌/◌, ◌%◌, ◌≤◌, ◌<◌, min, ◌≡◌, refl, ap, ◌∙◌, arith, length, get_or, take,
  drop, length-take, length-drop, pos, neg, efbig,
}
use aos_project.CString.{Bytes}
use native.Mathlib.Decide.{dec_le}
use aos_project.SingleFile.{
  Disk, Device, FileState, Progress, Round, continues, block_of, store, set_block, write_round,
  write_loop, finish_write, onefilefs_write, add_u64,
}
use aos_project.SingleFile.Positions.{
  file_byte, size_bound, Copies, Readable, IsWritten, block_of_small, get_or-drop, get_or-take,
  min_left, stored-byte, same_place, moved,
}

module _ (d : Device) (buf : Bytes) (copies : Copies d buf) (readable : Readable d) where
  -- The state after one round.
  abbrev after_round : Progress → Progress
  after_round s =
      let n = min s.to_write (4096 - s.position % 4096) in
      record {
        disk =
            set_block (block_of s.position)
              (store (s.position % 4096) (take n (drop s.written buf))
                (s.disk (block_of s.position)))
              s.disk;
        position = s.position + n;
        to_write = s.to_write - n;
        written = s.written + n;
      }

  write_round_lem :
      (s : Progress)
      → length buf ≤ size_bound
      → s.position + s.to_write ≤ size_bound
      → s.written + s.to_write ≤ length buf
      → write_round d s ≡ continues (after_round s)
  unfolding write_round
  write_round_lem s lb b h =
      let n = min s.to_write (4096 - s.position % 4096) in
      let p : add_u64 s.position n ≡ s.position + n = omega arith in
      let w : add_u64 s.written n ≡ s.written + n = omega arith in
      let e = copies s.written n (omega arith) in
      let e' = readable (block_of s.position) in ground arith

  after_round-IsWritten :
      (s : Progress)
      → s.position < size_bound
      → s.written + s.to_write ≤ length buf
      → IsWritten buf s.written s.position
          (min s.to_write (4096 - s.position % 4096))
          s.disk
          (after_round s).disk
  unfolding file_byte store set_block
  after_round-IsWritten s h l p hp =
      let n = min s.to_write (4096 - s.position % 4096) in
      let b = take n (drop s.written buf) in
      let e : length b ≡ n =
        length-take n (drop s.written buf)
        ∙ ap (min n) (length-drop s.written buf)
        ∙ min_left n (length buf - s.written) (omega arith) in
      let g1 = get_or-take n (p % 4096 - s.position % 4096) (drop s.written buf) in
      let g2 = get_or-drop s.written (p % 4096 - s.position % 4096) buf in
      let g3 =
        stored-byte (block_of s.position) (s.position % 4096) b s.disk (p / 4096 + 2) (p % 4096) in
      let e' = block_of_small s.position h in
      let r = same_place s.position p n (omega arith) in
      g3
      ∙ moved s.position p n (length b) (block_of s.position)
          (get_or b (p % 4096 - s.position % 4096) 0) (get_or buf (s.written + (p - s.position)) 0)
          (file_byte s.disk p) (omega arith) e' e
          (λ h1 h2.
            g1 (omega (arith, r.0 (h1, h2)))
            ∙ g2
            ∙ ap (λ j. get_or buf (s.written + j) 0) (omega (arith, r.0 (h1, h2))))

  -- What the loop ends in: everything is written, and the file's other bytes are kept.
  abbrev IsWrittenOut : Progress → Round → Type 0
  IsWrittenOut s r =
      (s' : Progress) × ((r ≡ continues s')
        × ((s'.position ≡ s.position + s.to_write)
            × ((s'.written ≡ s.written + s.to_write)
                × IsWritten buf s.written s.position s.to_write s.disk s'.disk)))

  write_loop-round :
      (fuel : ℕ) (s s' : Progress)
      → 0 < s.to_write
      → write_round d s ≡ continues s'
      → write_loop d (suc fuel) s ≡ write_loop d fuel s'
  unfolding write_loop
  write_loop-round fuel s s' h e = ground arith

  write_loop-nothing :
      (fuel : ℕ) (s : Progress) → s.to_write ≡ 0 → write_loop d fuel s ≡ continues s
  unfolding write_loop
  write_loop-nothing zero s h = refl
  write_loop-nothing (suc fuel) s h = ground arith

  IsWritten-nothing : (o a n : ℕ) (disk : Disk) → n ≡ 0 → IsWritten buf o a n disk disk
  IsWritten-nothing o a n disk h p hp = ground arith

  IsWritten-append :
      (o a n n' total : ℕ) (disk disk' disk'' : Disk)
      → n + n' ≡ total
      → IsWritten buf o a n disk disk'
      → IsWritten buf (o + n) (a + n) n' disk' disk''
      → IsWritten buf o a total disk disk''
  IsWritten-append o a n n' total disk disk' disk'' t w w' p hp =
      let e = w p hp in
      let e' = w' p hp in
      let v : a + n ≤ p → get_or buf (o + n + (p - (a + n))) 0 ≡ get_or buf (o + (p - a)) 0 =
        λ h. ap (λ j. get_or buf j 0) (omega arith) in
      elim (dec_le (a + n) p) [ yes h ↦ let v' = v h in ground arith | no h ↦ ground arith ]

  write_loop_lem :
      (fuel : ℕ) (s : Progress)
      → s.to_write ≤ fuel
      → length buf ≤ size_bound
      → s.position + s.to_write ≤ size_bound
      → s.written + s.to_write ≤ length buf
      → IsWrittenOut s (write_loop d fuel s)
  write_loop_lem zero s f lb h l = (
    s,
    (
      write_loop-nothing 0 s (omega arith),
      (
        omega arith,
        (omega arith, IsWritten-nothing s.written s.position s.to_write s.disk (omega arith)),
      ),
    ),
  )
  write_loop_lem (suc fuel) s f lb h l = elim (dec_le s.to_write 0) [
    | yes z ↦ (
      s,
      (
        write_loop-nothing (suc fuel) s (omega arith),
        (
          omega arith,
          (omega arith, IsWritten-nothing s.written s.position s.to_write s.disk (omega arith)),
        ),
      ),
    )
    | no z ↦
        let n = min s.to_write (4096 - s.position % 4096) in
        let e = write_loop-round fuel s (after_round s) (omega arith) (write_round_lem s lb h l) in
        let (s', (e', (e1, (e2, w)))) =
          write_loop_lem fuel (after_round s) (ground arith) lb (ground arith) (ground arith) in
        let w' =
          IsWritten-append s.written s.position n (s.to_write - n) s.to_write s.disk
            (after_round s).disk s'.disk (omega arith) (after_round-IsWritten s (omega arith) l)
            w in
        (s', (e ∙ e', (omega arith, (omega arith, w'))))
  ]

  -- A write of the whole buffer below the limit: the result is its length, the file grows by it, `*off`
  -- is the new end, the file's bytes from the old end on are the buffer's, and every other byte
  -- of the file is as before. The blocks can be read, the user's buffer too, and the limit is at most
  -- 2 ^ 42.
  pub onefilefs_write_lem :
      (f : FileState) (off : ℕ)
      → f.i_size + length buf < d.max_file_size
      → d.max_file_size ≤ size_bound
      → let r = onefilefs_write d f (length buf) off in
        (r.1.1 ≡ pos (length buf))
        × (r.0.i_size ≡ f.i_size + length buf)
        × (r.1.0 ≡ r.0.i_size)
        × IsWritten buf 0 f.i_size (length buf) f.disk r.0.disk
  unfolding onefilefs_write finish_write
  onefilefs_write_lem f off h l =
      let s : Progress = record {
        disk = f.disk;
        position = f.i_size;
        to_write = length buf;
        written = 0;
      } in
      let (s', (e, (e1, (e2, w)))) =
        write_loop_lem (length buf) s (omega arith) (omega arith) (omega arith) (omega arith) in
      ground arith

-- At the limit nothing is written: the result is -EFBIG, the file and `*off` are as before. The
-- addition does not wrap around.
pub onefilefs_write_full :
    (d : Device) (f : FileState) (len off : ℕ)
    → f.i_size + len < 18446744073709551616
    → d.max_file_size ≤ f.i_size + len
    → onefilefs_write d f len off ≡ (f, (off, neg efbig))
unfolding onefilefs_write
onefilefs_write_full d f len off h l = ground arith
