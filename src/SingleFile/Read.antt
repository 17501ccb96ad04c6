-- ===== src/SingleFile/Read.antt =====
-- singlefile-FS/file.c: what a read gives, and that it gives back what was written.
use aos_project.Base.{
  ℕ, zero, suc, ◌+◌, ◌-◌, ◌/◌, ◌%◌, ◌≤◌, ◌<◌, min, ◌≡◌, refl, sym, ap, ◌∙◌, true, false, [], ◌∷◌,
  arith, leb, ◌==◌, if◌then◌else◌, length, get_or, take, drop, pos,
}
use aos_project.CString.{Bytes}
use native.Mathlib.Decide.{dec_le}
use aos_project.SingleFile.{
  Disk, Device, FileState, block_of, block_bytes, cut_len, read_block, onefilefs_read,
  onefilefs_write,
}
use aos_project.SingleFile.Append.{onefilefs_write_lem}
use aos_project.SingleFile.Positions.{
  file_byte, size_bound, block_of_small, IsWritten, Copies, Readable,
}

-- `n` bytes of a file from a position on.
unfoldable pub file_slice : Disk → ℕ → ℕ → Bytes
unfolding file_byte
file_slice disk p zero = []
file_slice disk p (suc n) = file_byte disk p ∷ file_slice disk (suc p) n

-- How many bytes one read gives: it stops at the end of the file and at the end of the block.
unfoldable pub read_count : ℕ → ℕ → ℕ → ℕ
read_count i_size off len =
    if leb i_size off then 0 else min len (min (i_size - off) (4096 - off % 4096))

block_bytes-file_slice :
    (disk : Disk) (p n b o : ℕ)
    → p / 4096 + 2 ≡ b
    → p % 4096 ≡ o
    → n ≤ 4096 - o
    → block_bytes (disk b) o n ≡ file_slice disk p n
unfolding block_bytes file_slice file_byte
block_bytes-file_slice disk p zero b o e e' h = refl
block_bytes-file_slice disk p (suc zero) b o e e' h = (λ i. disk (sym e i) (sym e' i) ∷ [])
block_bytes-file_slice disk p (suc (suc n)) b o e e' h =
    let r =
      block_bytes-file_slice disk (suc p) (suc n) b (suc o) (omega arith) (omega arith)
        (omega arith) in
    (λ i. disk (sym e i) (sym e' i) ∷ r i)

cut_len-read_count :
    (size len off : ℕ)
    → off < size
    → size ≤ size_bound
    → off + len < 18446744073709551616
    → cut_len size len off ≡ min len (min (size - off) (4096 - off % 4096))
unfolding cut_len
cut_len-read_count size len off h b l = ground arith

read_end :
    (d : Device) (f : FileState) (len off : ℕ)
    → f.i_size ≤ off
    → onefilefs_read d f len off ≡ ([], (off, pos 0))
unfolding onefilefs_read
read_end d f len off h = ground arith

read_block_lem :
    (d : Device) (f : FileState) (off n b : ℕ)
    → d.sb_bread b ≡ true
    → d.copy_to_user n ≡ 0
    → read_block d f off n b ≡ (block_bytes (f.disk b) (off % 4096) n, (off + n, pos n))
unfolding read_block
read_block_lem d f off n b r c = rw (r, c) refl

read_inside :
    (d : Device) (f : FileState) (len off n b : ℕ)
    → off < f.i_size
    → cut_len f.i_size len off ≡ n
    → block_of off ≡ b
    → onefilefs_read d f len off ≡ read_block d f off n b
unfolding onefilefs_read
read_inside d f len off n b h e e' =
    let z : f.i_size == 0 ≡ false = ground arith in
    let z' : leb f.i_size off ≡ false = ground arith in rw (z, z', e, e') refl

-- A read gives the file's bytes from `*off` on, as many as asked for, up to the end of the file and of
-- the block; `*off` and the result say how many. At or behind the end, and on an empty file,
-- it gives none. The block can be read and everything is copied.
pub onefilefs_read_lem :
    (d : Device) (f : FileState) (len off : ℕ)
    → Readable d
    → ((n : ℕ) → d.copy_to_user n ≡ 0)
    → f.i_size ≤ size_bound
    → off + len < 18446744073709551616
    → let n = read_count f.i_size off len in
      onefilefs_read d f len off ≡ (file_slice f.disk off n, (off + n, pos n))
unfolding read_count file_slice
onefilefs_read_lem d f len off rd cp b h = elim (dec_le f.i_size off) [
  | yes z ↦
      let e : read_count f.i_size off len ≡ 0 = ground arith in
      let a : off ≡ off + read_count f.i_size off len = omega (arith, e) in
      read_end d f len off z ∙ (λ i. (file_slice f.disk off (sym e i), (a i, pos (sym e i))))
  | no z ↦
      let n = min len (min (f.i_size - off) (4096 - off % 4096)) in
      let v : read_count f.i_size off len ≡ n = ground arith in
      let e =
        block_bytes-file_slice f.disk off n (off / 4096 + 2) (off % 4096) refl refl (omega arith) in
      let g = cut_len-read_count f.i_size len off (omega arith) b h in
      let e' = block_of_small off (omega arith) in
      read_inside d f len off n (off / 4096 + 2) (omega arith) g e'
      ∙ read_block_lem d f off n (off / 4096 + 2) (rd (off / 4096 + 2)) (cp n)
      ∙ (λ i. ((e ∙ ap (file_slice f.disk off) (sym v)) i, (off + sym v i, pos (sym v i))))
]

take-drop-suc :
    (m o : ℕ) (s : Bytes)
    → o < length s
    → take (suc m) (drop o s) ≡ get_or s o 0 ∷ take m (drop (suc o) s)
take-drop-suc m o [] h = absurd (omega arith)
take-drop-suc m zero (x ∷ s) h = refl
take-drop-suc m (suc o) (x ∷ s) h = take-drop-suc m o s (omega arith)

pub file_slice-IsWritten :
    (buf : Bytes) (o a n m : ℕ) (disk disk' : Disk)
    → IsWritten buf 0 a n disk disk'
    → a + n ≤ size_bound
    → n ≡ length buf
    → o + m ≤ n
    → file_slice disk' (a + o) m ≡ take m (drop o buf)
unfolding file_slice
file_slice-IsWritten buf o a n zero disk disk' w b e h = refl
file_slice-IsWritten buf o a n (suc m) disk disk' w b e h =
    let c : get_or buf (0 + (a + o - a)) 0 ≡ get_or buf o 0 =
      ap (λ j. get_or buf j 0) (omega arith) in
    let x = w (a + o) (omega arith) in
    let x' : file_byte disk' (a + o) ≡ get_or buf o 0 = ground arith in
    let r = file_slice-IsWritten buf (suc o) a n m disk disk' w b e (omega arith) in
    let p : suc (a + o) ≡ a + suc o = omega arith in
    (λ i. x' i ∷ (ap (λ j. file_slice disk' j m) p ∙ r) i)
    ∙ sym (take-drop-suc m o buf (omega arith))

-- What has been appended is read back: after a write of the whole buffer, a read at the old end of the
-- file gives the buffer's first bytes, up to the end of the block.
pub onefilefs_read-onefilefs_write :
    (d : Device) (buf : Bytes) (f : FileState) (off len : ℕ)
    → Copies d buf
    → Readable d
    → ((n : ℕ) → d.copy_to_user n ≡ 0)
    → f.i_size + length buf < d.max_file_size
    → d.max_file_size ≤ size_bound
    → len ≤ length buf
    → let f' = (onefilefs_write d f (length buf) off).0 in
      let n = min len (4096 - f.i_size % 4096) in
      onefilefs_read d f' len f.i_size ≡ (take n buf, (f.i_size + n, pos n))
unfolding read_count
onefilefs_read-onefilefs_write d buf f off len cp rd ct h b l =
    let (e, e1, e2, w) = onefilefs_write_lem d buf cp rd f off h b in
    let f' = (onefilefs_write d f (length buf) off).0 in
    let r = onefilefs_read_lem d f' len f.i_size rd ct (omega arith) (omega arith) in
    let n = min len (4096 - f.i_size % 4096) in
    let c : read_count f'.i_size f.i_size len ≡ n = ground arith in
    let g =
      file_slice-IsWritten buf 0 f.i_size (length buf) n f.disk f'.disk w (omega arith) refl
        (omega arith) in
    let z : f.i_size ≡ f.i_size + 0 = omega arith in
    r
    ∙ (λ i. (file_slice f'.disk (z i) (c i), (f.i_size + c i, pos (c i))))
    ∙ (λ i. (g i, (f.i_size + n, pos n)))
