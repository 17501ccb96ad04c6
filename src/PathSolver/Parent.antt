-- ===== src/PathSolver/Parent.antt =====
-- `get_parent_path` cuts the last component.
use aos_project.Base.{
  ℕ, zero, suc, ◌+◌, ◌-◌, ◌≤◌, ◌<◌, ◌≡◌, refl, ap, ◌∙◌, ◌≢◌, inl, inr, true, false, [], ◌∷◌, ◌++◌,
  arith, ◌==◌, Bool-cases, length, All, length-append, set_at, get_or_at,
}
use aos_project.CString.{Bytes, c_string, NoNul, c_string-append, c_string-zero}
use aos_project.PathSolver.{byte_at, parent_index, get_parent_path}

abbrev pub NoSlash : Bytes → Type 0
NoSlash = All (λ c. c ≢ b'/')

pub byte_at-NoSlash :
    (s rest : Bytes) (i : ℕ) → NoSlash s → i ≤ length s → byte_at (s ++ 0 ∷ rest) i ≢ b'/'
byte_at-NoSlash [] rest zero h k = λ e. omega arith
byte_at-NoSlash [] rest (suc i) h k = absurd (omega arith)
byte_at-NoSlash (c ∷ s) rest zero h k = h.0
byte_at-NoSlash (c ∷ s) rest (suc i) h k = byte_at-NoSlash s rest i h.1 (omega arith)

-- The index walks down to the slash.
parent_index_lem :
    (b : Bytes) (m n : ℕ)
    → suc m ≤ n
    → byte_at b (suc m) ≡ b'/'
    → ((i : ℕ) → suc m < i → i ≤ n → byte_at b i ≢ b'/')
    → parent_index b n ≡ suc m
unfolding parent_index
parent_index_lem b m zero l h k = absurd (omega arith)
parent_index_lem b m (suc n) l h k = elim (Bool-cases (byte_at b (suc n) == b'/')) [
  | inl slash ↦ rw slash (last slash)
  | inr other ↦ rw other (parent_index_lem b m n (before other) h (λ i p q. k i p (omega arith)))
]
  where
    last : (byte_at b (suc n) == b'/') ≡ true → suc n ≡ suc m
    last slash = grind (arith, k (suc n))

    before : (byte_at b (suc n) == b'/') ≡ false → suc m ≤ n
    before other = elim (Bool-cases (m == n)) [
      | inl e ↦ absurd (ground arith)
      | inr e ↦ ground arith
    ]

-- The string in the buffer becomes all that stands before the last slash, if something does; the
-- rest of the buffer is as before.
pub get_parent_path_lem :
    (dir base rest : Bytes)
    → NoNul dir
    → dir ≢ []
    → NoNul base
    → NoSlash base
    → get_parent_path (dir ++ b'/' ∷ (base ++ 0 ∷ rest)) ≡ dir ++ 0 ∷ (base ++ 0 ∷ rest)
unfolding get_parent_path
get_parent_path_lem [] base rest nd ne nb ns = absurd (ne refl)
get_parent_path_lem (c ∷ dir) base rest nd ne nb ns =
    rw index (ground (arith, set_at (suc (length dir)) (c ∷ dir) (base ++ 0 ∷ rest) b'/' 0 refl))
  where
    buffer : Bytes
    buffer = (c ∷ dir) ++ b'/' ∷ (base ++ 0 ∷ rest)

    slash_at : byte_at buffer (suc (length dir)) ≡ b'/'
    slash_at = get_or_at (suc (length dir)) (c ∷ dir) (b'/' ∷ (base ++ 0 ∷ rest)) 0 0 (omega arith)

    string : c_string buffer ≡ (c ∷ dir) ++ b'/' ∷ base
    string =
        c_string-append (c ∷ dir) _ nd
        ∙ ap (◌++◌ (c ∷ dir)) (c_string-zero (b'/' ∷ base) rest (omega arith, nb))

    size : length (c_string buffer) ≡ suc (suc (length dir + length base))
    size = ap length string ∙ omega (arith, length-append dir (b'/' ∷ base))

    no_slash :
        (i : ℕ) → suc (length dir) < i → i ≤ length (c_string buffer) → byte_at buffer i ≢ b'/'
    no_slash i p q =
        let j : ℕ = i - suc (suc (length dir)) in
        rw (get_or_at i (c ∷ dir) (b'/' ∷ (base ++ 0 ∷ rest)) 0 (suc j) (omega arith))
          (byte_at-NoSlash base rest j ns (omega (arith, size)))

    index : parent_index buffer (length (c_string buffer)) ≡ suc (length dir)
    index = parent_index_lem buffer (length dir) _ (omega (arith, size)) slash_at no_slash
