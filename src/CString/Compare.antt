-- ===== src/CString/Compare.antt =====
-- `strcmp` and `strncmp`, and what they decide.
use aos_project.Base.{
  ℕ, zero, suc, ◌≡◌, refl, ◌↔◌, ◌++◌, Bool, true, false, List, [], ◌∷◌, arith, ltb, ◌==◌,
  if◌then◌else◌, ℤ, pos, negsuc, length, take,
}

abbrev pub Bytes : Type 0
Bytes = List ℕ

-- The sign of the first difference.
abbrev byte_order : ℕ → ℕ → ℤ
byte_order a b = if ltb a b then negsuc 0 else pos 1

unfoldable pub strncmp : ℕ → Bytes → Bytes → ℤ
strncmp zero s t = pos 0
strncmp (suc n) [] [] = pos 0
strncmp (suc n) [] (y ∷ t) = negsuc 0
strncmp (suc n) (x ∷ s) [] = pos 1
strncmp (suc n) (x ∷ s) (y ∷ t) = if x == y then strncmp n s t else byte_order x y

unfoldable pub strcmp : Bytes → Bytes → ℤ
strcmp [] [] = pos 0
strcmp [] (y ∷ t) = negsuc 0
strcmp (x ∷ s) [] = pos 1
strcmp (x ∷ s) (y ∷ t) = if x == y then strcmp s t else byte_order x y

-- `!strcmp(s, t)`, `!strncmp(s, t, n)`
abbrev pub is_zero : ℤ → Bool
is_zero (pos zero) = true
is_zero _ = false

unfoldable pub same : Bytes → Bytes → Bool
unfolding strcmp
same s t = is_zero (strcmp s t)

unfoldable pub same_n : ℕ → Bytes → Bytes → Bool
unfolding strncmp
same_n n s t = is_zero (strncmp n s t)

pub same_iff : (s t : Bytes) → (same s t ≡ true) ↔ (s ≡ t)
unfolding same
same_iff [] [] = ground arith
same_iff [] (y ∷ t) = ground arith
same_iff (x ∷ s) [] = ground arith
same_iff (x ∷ s) (y ∷ t) = ground (arith, same_iff s t)

pub same_n_iff : (n : ℕ) (s t : Bytes) → (same_n n s t ≡ true) ↔ (take n s ≡ take n t)
unfolding same_n
same_n_iff zero s t = ground arith
same_n_iff (suc n) [] [] = ground arith
same_n_iff (suc n) [] (y ∷ t) = ground arith
same_n_iff (suc n) (x ∷ s) [] = ground arith
same_n_iff (suc n) (x ∷ s) (y ∷ t) = ground (arith, same_n_iff n s t)

pub same_self : (s : Bytes) → same s s ≡ true
same_self s = (same_iff s s).1 refl

pub same_n_self : (n : ℕ) (s : Bytes) → same_n n s s ≡ true
same_n_self n s = (same_n_iff n s s).1 refl

-- `strncmp(s, t, strlen(s))` decides whether `s` is a prefix of `t`.
pub same_n-length-append : (s t : Bytes) → same_n (length s) s (s ++ t) ≡ true
unfolding same_n
same_n-length-append [] t = refl
same_n-length-append (x ∷ s) t = ground (arith, same_n-length-append s t)

pub same_n-length-prefix : (s t : Bytes) → same_n (length s) s t ≡ true → (r : Bytes) × (t ≡ s ++ r)
unfolding same_n
same_n-length-prefix [] t h = (t, refl)
same_n-length-prefix (x ∷ s) [] h = absurd (ground arith)
same_n-length-prefix (x ∷ s) (y ∷ t) h =
    let (r, e) = same_n-length-prefix s t (ground arith) in (r, ground arith)

pub is_zero_iff : (v : ℤ) → (is_zero v ≡ true) ↔ (v ≡ pos 0)
is_zero_iff (pos zero) = ground arith
is_zero_iff (pos (suc n)) = ground arith
is_zero_iff (negsuc n) = ground arith

pub strncmp_iff : (n : ℕ) (s t : Bytes) → (strncmp n s t ≡ pos 0) ↔ (take n s ≡ take n t)
unfolding same_n
strncmp_iff n s t = ground (arith, same_n_iff n s t, is_zero_iff (strncmp n s t))
