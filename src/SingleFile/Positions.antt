-- ===== src/SingleFile/Positions.antt =====
-- singlefile-FS/file.c: the bytes of a file on the blocks of the device.
use aos_project.Base.{
  ℕ, zero, suc, ◌+◌, ◌-◌, ◌/◌, ◌%◌, ◌≤◌, ◌<◌, min, ◌≡◌, refl, ◌↔◌, true, ◌&&◌, [], ◌∷◌, arith, ltb,
  leb, ◌==◌, if◌then◌else◌, length, get_or, take, drop,
}
use aos_project.CString.{Bytes}
use native.Mathlib.Decide.{dec_le}
use aos_project.SingleFile.{Disk, Device, block_of, default_block_size, store, set_block}

-- The byte of a file at a position.
unfoldable pub file_byte : Disk → ℕ → ℕ
file_byte disk p = disk (p / default_block_size + 2) (p % default_block_size)

-- The block numbers of a file below this size are not cut by the conversion to an int.
abbrev pub size_bound : ℕ
size_bound = 4398046511104

-- The user's buffer can be read: all bytes asked for are copied.
abbrev pub Copies : Device → Bytes → Type 0
Copies d buf = (o n : ℕ) → o + n ≤ length buf → d.copy_from_user o n ≡ (take n (drop o buf), 0)

abbrev pub Readable : Device → Type 0
Readable d = (n : ℕ) → d.sb_bread n ≡ true

-- The disk after a write of `n` bytes of the buffer, from its offset `o` on, at a position.
abbrev pub IsWritten : Bytes → ℕ → ℕ → ℕ → Disk → Disk → Type 0
IsWritten buf o position n disk disk' =
    (p : ℕ)
    → p < size_bound
    → file_byte disk' p ≡ (
        if leb position p && ltb p (position + n)
        then get_or buf (o + (p - position)) 0
        else file_byte disk p)

pub block_of_small : (p : ℕ) → p < size_bound → block_of p ≡ p / 4096 + 2
block_of_small p h = ground arith

pub get_or-drop : (o i : ℕ) (s : Bytes) → get_or (drop o s) i 0 ≡ get_or s (o + i) 0
get_or-drop zero i s = ground arith
get_or-drop (suc o) i [] = refl
get_or-drop (suc o) i (x ∷ s) = ground (arith, get_or-drop o i s)

pub get_or-take : (n i : ℕ) (s : Bytes) → i < n → get_or (take n s) i 0 ≡ get_or s i 0
get_or-take zero i s h = absurd (omega arith)
get_or-take (suc n) i [] h = refl
get_or-take (suc n) zero (x ∷ s) h = refl
get_or-take (suc n) (suc i) (x ∷ s) h = get_or-take n i s (omega arith)

pub min_left : (a b : ℕ) → a ≤ b → min a b ≡ a
min_left a b h = omega arith

pub stored-byte :
    (b o : ℕ) (bytes : Bytes) (disk : Disk) (c p : ℕ)
    → set_block b (store o bytes (disk b)) disk c p ≡ (
        if c == b && (leb o p && ltb p (o + length bytes))
        then get_or bytes (p - o) 0
        else disk c p)
unfolding set_block store
stored-byte b o bytes disk c p = ground arith

-- Within one block, positions and offsets are ordered in the same way.
pub same_place :
    (a p n : ℕ)
    → n ≤ 4096 - a % 4096
    → (a ≤ p × p < a + n)
      ↔ ((p / 4096 ≡ a / 4096) × ((a % 4096 ≤ p % 4096) × (p % 4096 < a % 4096 + n)))
same_place a p n h =
    (λ r. (omega arith, (omega arith, omega arith)), λ r. (omega arith, omega arith))

pub moved :
    (a p n l b x x' y : ℕ)
    → n ≤ 4096 - a % 4096
    → b ≡ a / 4096 + 2
    → l ≡ n
    → (a ≤ p → p < a + n → x ≡ x')
    → (if p / 4096 + 2 == b && (leb (a % 4096) (p % 4096) && ltb (p % 4096) (a % 4096 + l))
        then x
        else y)
      ≡ (if leb a p && ltb p (a + n) then x' else y)
moved a p n l b x x' y h e e' v =
    let r = same_place a p n h in
    elim (dec_le a p) [
      | yes h1 ↦ elim (dec_le (suc p) (a + n)) [
        | yes h2 ↦ let v' = v h1 h2 in let r' = r.0 (h1, h2) in ground arith
        | no h2 ↦ ground arith
      ]
      | no h1 ↦ ground arith
    ]
