-- ===== src/SingleFile/ReadAll.antt =====
-- singlefile-FS/file.c: reading the file to its end.
use aos_project.Base.{
  ℕ, zero, suc, ◌+◌, ◌-◌, ◌%◌, ◌≤◌, ◌<◌, min, ◌≡◌, refl, ap, ◌∙◌, [], ◌∷◌, ◌++◌, arith, pos, negsuc,
}
use aos_project.CString.{Bytes}
use aos_project.SingleFile.{Disk, Device, FileState, onefilefs_read}
use aos_project.SingleFile.Positions.{file_byte, size_bound, Readable}
use aos_project.SingleFile.Read.{file_slice, read_count, onefilefs_read_lem}
use native.Mathlib.Decide.{dec_le}

-- A reader that asks for `len` bytes again and again until a read gives 0 or an error.
unfoldable pub read_all : Device → FileState → ℕ → ℕ → ℕ → Bytes
read_all d f len zero off = []
read_all d f len (suc fuel) off =
    let r = onefilefs_read d f len off in
    elim r.1.1 [ pos zero ↦ [] | pos (suc n) ↦ r.0 ++ read_all d f len fuel r.1.0 | negsuc n ↦ [] ]

pub file_slice-append :
    (disk : Disk) (p n m : ℕ)
    → file_slice disk p n ++ file_slice disk (p + n) m ≡ file_slice disk p (n + m)
unfolding file_slice file_byte
file_slice-append disk p zero m =
    let e : p + 0 ≡ p = omega arith in
    let e' : m ≡ 0 + m = omega arith in ap (λ q. file_slice disk q m) e ∙ ap (file_slice disk p) e'
file_slice-append disk p (suc n) m =
    let e : p + suc n ≡ suc p + n = omega arith in
    let e' : suc (n + m) ≡ suc n + m = omega arith in
    ap (λ q. file_byte disk p ∷ (file_slice disk (suc p) n ++ file_slice disk q m)) e
    ∙ ap (λ l. file_byte disk p ∷ l) (file_slice-append disk (suc p) n m)
    ∙ ap (file_slice disk p) e'

read_all-end :
    (d : Device) (f : FileState) (len fuel off off' n : ℕ) (bytes : Bytes)
    → onefilefs_read d f len off ≡ (bytes, (off', pos n))
    → n ≡ 0
    → read_all d f len (suc fuel) off ≡ []
unfolding read_all
read_all-end d f len fuel off off' zero bytes e z = rw (read_all, e) refl
read_all-end d f len fuel off off' (suc n) bytes e z = absurd (omega arith)

read_all-more :
    (d : Device) (f : FileState) (len fuel off off' n : ℕ) (bytes : Bytes)
    → onefilefs_read d f len off ≡ (bytes, (off', pos n))
    → 0 < n
    → read_all d f len (suc fuel) off ≡ bytes ++ read_all d f len fuel off'
unfolding read_all
read_all-more d f len fuel off off' zero bytes e z = absurd (omega arith)
read_all-more d f len fuel off off' (suc n) bytes e z =
    rw (read_all, e) (λ i. (e i).0 ++ read_all d f len fuel (e i).1.0)

-- A reader with a buffer of at least one byte comes to the end of the file, in at most as many reads as
-- there are bytes, and has then all bytes from `*off` on. The blocks can be read, everything is copied
-- and the size is at most 2 ^ 42.
pub read_all_lem :
    (d : Device) (f : FileState) (len fuel off : ℕ)
    → Readable d
    → ((n : ℕ) → d.copy_to_user n ≡ 0)
    → f.i_size ≤ size_bound
    → off ≤ f.i_size
    → 0 < len
    → len < 9223372036854775808
    → f.i_size - off < fuel
    → read_all d f len fuel off ≡ file_slice f.disk off (f.i_size - off)
unfolding read_count file_slice
read_all_lem d f len zero off rd cp b o l l' h = absurd (omega arith)
read_all_lem d f len (suc fuel) off rd cp b o l l' h =
    let n = read_count f.i_size off len in
    let e = onefilefs_read_lem d f len off rd cp b (omega arith) in
    elim (dec_le f.i_size off) [
      | yes z ↦
          read_all-end d f len fuel off (off + n) n (file_slice f.disk off n) e (ground arith)
          ∙ ap (file_slice f.disk off) {x = 0} {y = f.i_size - off} (omega arith)
      | no z ↦
          let c : n ≡ min len (min (f.i_size - off) (4096 - off % 4096)) = ground arith in
          read_all-more d f len fuel off (off + n) n (file_slice f.disk off n) e (omega arith)
          ∙ ap (◌++◌ (file_slice f.disk off n))
              (read_all_lem d f len fuel (off + n) rd cp b (omega arith) l l' (omega arith))
          ∙ file_slice-append f.disk off n (f.i_size - (off + n))
          ∙ ap (file_slice f.disk off) {x = n + (f.i_size - (off + n))} {y = f.i_size - off}
              (omega arith)
    ]
