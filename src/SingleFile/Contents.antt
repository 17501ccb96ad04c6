-- ===== src/SingleFile/Contents.antt =====
-- singlefile-FS/file.c as what it promises: a string of bytes that writes append to and reads take from.
use aos_project.Base.{
  ℕ, zero, suc, ◌+◌, ◌-◌, ◌≤◌, ◌<◌, ◌≡◌, refl, sym, ap, ◌∙◌, ◌∷◌, ◌++◌, arith, length,
  take_of_length-le,
}
use aos_project.CString.{Bytes}
use aos_project.SingleFile.{Disk, Device, FileState, onefilefs_write}
use aos_project.SingleFile.Append.{onefilefs_write_lem}
use aos_project.SingleFile.Positions.{file_byte, size_bound, Copies, Readable, IsWritten}
use aos_project.SingleFile.Read.{file_slice, file_slice-IsWritten}
use aos_project.SingleFile.ReadAll.{read_all, read_all_lem, file_slice-append}

-- The string that a file holds.
abbrev pub contents : FileState → Bytes
contents f = file_slice f.disk 0 f.i_size

file_slice-same :
    (disk disk' : Disk) (p n : ℕ)
    → ((q : ℕ) → p ≤ q → q < p + n → file_byte disk' q ≡ file_byte disk q)
    → file_slice disk' p n ≡ file_slice disk p n
unfolding file_slice
file_slice-same disk disk' p zero h = refl
file_slice-same disk disk' p (suc n) h =
    let e = h p (omega arith) (omega arith) in
    let r = file_slice-same disk disk' (suc p) n (λ q a b. h q (omega arith) (omega arith)) in
    (λ i. e i ∷ r i)

length-file_slice : (disk : Disk) (p n : ℕ) → length (file_slice disk p n) ≡ n
unfolding file_slice
length-file_slice disk p zero = refl
length-file_slice disk p (suc n) = ap suc (length-file_slice disk (suc p) n)

-- What has been written, as a string.
contents-IsWritten :
    (buf : Bytes) (f f' : FileState)
    → f'.i_size ≡ f.i_size + length buf
    → f.i_size + length buf ≤ size_bound
    → IsWritten buf 0 f.i_size (length buf) f.disk f'.disk
    → contents f' ≡ contents f ++ buf
contents-IsWritten buf f f' e b w =
    let n = f.i_size in
    let old =
      file_slice-same f.disk f'.disk 0 n (λ q a l. let x = w q (omega arith) in ground arith) in
    let new : file_slice f'.disk (0 + n) (length buf) ≡ buf =
      ap (λ q. file_slice f'.disk q (length buf)) {x = 0 + n} {y = n + 0} (omega arith)
      ∙ file_slice-IsWritten buf 0 n (length buf) (length buf) f.disk f'.disk w b refl (omega arith)
      ∙ take_of_length-le (length buf) buf (omega arith) in
    ap (file_slice f'.disk 0) e
    ∙ sym (file_slice-append f'.disk 0 n (length buf))
    ∙ (λ i. old i ++ new i)

-- A write of the whole buffer below the limit appends it to the string that the file holds. The blocks
-- and the user's buffer can be read, and the limit is at most 2 ^ 42.
pub contents-onefilefs_write :
    (d : Device) (buf : Bytes) (f : FileState) (off : ℕ)
    → Copies d buf
    → Readable d
    → f.i_size + length buf < d.max_file_size
    → d.max_file_size ≤ size_bound
    → contents (onefilefs_write d f (length buf) off).0 ≡ contents f ++ buf
contents-onefilefs_write d buf f off cp rd h l =
    let (x, size, y, w) = onefilefs_write_lem d buf cp rd f off h l in
    contents-IsWritten buf f (onefilefs_write d f (length buf) off).0 size (omega arith) w

-- What has been written is read again: after a write of the whole buffer below the limit, a reader with
-- a buffer of at least one byte that starts at 0 gets what the file has held and then the buffer's
-- bytes. The blocks and the user's buffer can be read, everything is copied, and the limit is at
-- most 2 ^ 42.
pub read_all-onefilefs_write :
    (d : Device) (buf : Bytes) (f : FileState) (off len fuel : ℕ)
    → Copies d buf
    → Readable d
    → ((n : ℕ) → d.copy_to_user n ≡ 0)
    → f.i_size + length buf < d.max_file_size
    → d.max_file_size ≤ size_bound
    → 0 < len
    → len < 9223372036854775808
    → f.i_size + length buf < fuel
    → read_all d (onefilefs_write d f (length buf) off).0 len fuel 0 ≡ contents f ++ buf
read_all-onefilefs_write d buf f off len fuel cp rd ct h b l l' m =
    let f' = (onefilefs_write d f (length buf) off).0 in
    let (x, size, y, w) = onefilefs_write_lem d buf cp rd f off h b in
    read_all_lem d f' len fuel 0 rd ct (omega (arith, size)) (omega arith) l l'
      (omega (arith, size, m))
    ∙ ap (file_slice f'.disk 0) {x = f'.i_size - 0} {y = f'.i_size} (omega arith)
    ∙ contents-onefilefs_write d buf f off cp rd h b
