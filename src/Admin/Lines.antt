-- ===== src/Admin/Lines.antt =====
-- user/admin.c: what `read_line` takes from the input.
use aos_project.Base.{
  ℕ, zero, suc, ◌+◌, ◌-◌, ◌<◌, ◌≡◌, refl, ap, ◌∙◌, ◌≢◌, false, some, [], ◌∷◌, ◌++◌, arith, ◌==◌,
  length, All,
}
use aos_project.CString.{Bytes, c_string, NoNul, c_string_of_NoNul}
use aos_project.Admin.{take_line, fgets, strip_newline, read_line}

-- A line that an array of `size` bytes can hold with its newline and NUL.
abbrev pub IsLine : ℕ → Bytes → Type 0
IsLine size s = All (λ c. (c ≢ b'\n') × (c ≢ 0)) s × (length s + 1 < size)

take_line-line :
    (n : ℕ) (s rest : Bytes)
    → All (λ c. (c ≢ b'\n') × (c ≢ 0)) s
    → length s < n
    → take_line n (s ++ b'\n' ∷ rest) ≡ (s ++ b'\n' ∷ [], rest)
unfolding take_line
take_line-line zero s rest h l = absurd (omega arith)
take_line-line (suc n) [] rest h l = refl
take_line-line (suc n) (c ∷ s) rest ((p, q), hs) l =
    let z : (c == b'\n') ≡ false = ground arith in
    rw (z, take_line-line n s rest hs (omega arith)) refl

fgets-line :
    (size : ℕ) (s rest : Bytes)
    → IsLine size s
    → fgets size (s ++ b'\n' ∷ rest) ≡ some (s ++ b'\n' ∷ [], rest)
unfolding fgets
fgets-line size [] rest (h, l) = ap some (take_line-line (size - 1) [] rest h (omega arith))
fgets-line size (c ∷ s) rest (h, l) =
    ap some (take_line-line (size - 1) (c ∷ s) rest h (omega arith))

strip_newline-line : (s : Bytes) → strip_newline (s ++ b'\n' ∷ []) ≡ s
unfolding strip_newline
strip_newline-line [] = refl
strip_newline-line (c ∷ []) = refl
strip_newline-line (c ∷ d ∷ s) = ap (◌∷◌ c) (strip_newline-line (d ∷ s))

line-NoNul : (s : Bytes) → All (λ c. (c ≢ b'\n') × (c ≢ 0)) s → NoNul (s ++ b'\n' ∷ [])
line-NoNul [] h = (λ e. ground arith, tt)
line-NoNul (c ∷ s) ((p, q), hs) = (q, line-NoNul s hs)

-- A line that fits is read whole, without its newline, whatever the buffer held.
pub read_line-line :
    (buffer : Bytes) (size : ℕ) (s rest : Bytes)
    → IsLine size s
    → read_line buffer size (s ++ b'\n' ∷ rest) ≡ (s, rest)
unfolding read_line
read_line-line buffer size s rest (h, l) =
    let e : strip_newline (c_string (s ++ b'\n' ∷ [])) ≡ s =
      ap strip_newline (c_string_of_NoNul (s ++ b'\n' ∷ []) (line-NoNul s h))
      ∙ strip_newline-line s in
    rw (read_line, fgets-line size s rest (h, l)) (λ i. (e i, rest))

-- At the end of the input the buffer stays as it is.
pub read_line-nil : (buffer : Bytes) (size : ℕ) → read_line buffer size [] ≡ (buffer, [])
unfolding read_line fgets
read_line-nil buffer size = refl
