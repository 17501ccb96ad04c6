-- ===== src/CString/Buffers.antt =====
-- Buffers: the string in a buffer, and writes at its start.
use aos_project.Base.{
  ℕ, zero, suc, ◌+◌, ◌≤◌, ◌≡◌, refl, ap, ◌++◌, [], ◌∷◌, arith, ◌==◌, if◌then◌else◌, length, drop,
  replicate, All, ◌≢◌,
}
use aos_project.CString.Compare.{Bytes}
use native.Mathlib.Nat.{zero-add, suc-add}

-- The string that stands in a buffer: its bytes before the first NUL.
unfoldable pub c_string : Bytes → Bytes
c_string [] = []
c_string (c ∷ b) = if c == 0 then [] else c ∷ c_string b

abbrev pub NoNul : Bytes → Type 0
NoNul = All (λ c. c ≢ 0)

abbrev pub zeros : ℕ → Bytes
zeros n = replicate n 0

-- `memcpy(b, s, strlen(s))`: the bytes of `s` over the start of `b`, with no NUL behind them.
abbrev pub overwrite : Bytes → Bytes → Bytes
overwrite s b = s ++ drop (length s) b

pub c_string-append : (s b : Bytes) → NoNul s → c_string (s ++ b) ≡ s ++ c_string b
unfolding c_string
c_string-append [] b h = refl
c_string-append (c ∷ s) b h = ground (arith, c_string-append s b h.1)

pub c_string-zeros : (n : ℕ) → c_string (zeros n) ≡ []
unfolding c_string
c_string-zeros zero = refl
c_string-zeros (suc n) = refl

pub c_string-NoNul : (b : Bytes) → NoNul (c_string b)
unfolding c_string
c_string-NoNul [] = tt
c_string-NoNul (c ∷ b) = ground (arith, c_string-NoNul b)

pub c_string_of_NoNul : (s : Bytes) → NoNul s → c_string s ≡ s
unfolding c_string
c_string_of_NoNul [] h = refl
c_string_of_NoNul (c ∷ s) h = ground (arith, c_string_of_NoNul s h.1)

pub c_string-zero : (s b : Bytes) → NoNul s → c_string (s ++ 0 ∷ b) ≡ s
unfolding c_string
c_string-zero [] b h = refl
c_string-zero (c ∷ s) b h = ground (arith, c_string-zero s b h.1)

pub c_string-drop-zeros : (m n : ℕ) → c_string (drop m (zeros n)) ≡ []
unfolding c_string
c_string-drop-zeros zero zero = refl
c_string-drop-zeros zero (suc n) = refl
c_string-drop-zeros (suc m) zero = refl
c_string-drop-zeros (suc m) (suc n) = c_string-drop-zeros m n

-- What is read behind `m` bytes of a row of zeros and a rest.
pub drop-zeros-append : (m n : ℕ) (b : Bytes) → m ≤ n → c_string (drop m (zeros n ++ 0 ∷ b)) ≡ []
unfolding c_string
drop-zeros-append zero zero b h = refl
drop-zeros-append zero (suc n) b h = refl
drop-zeros-append (suc m) zero b h = absurd (omega arith)
drop-zeros-append (suc m) (suc n) b h = drop-zeros-append m n b (omega arith)

pub zeros-append : (m n : ℕ) → zeros m ++ zeros n ≡ zeros (m + n)
zeros-append zero n = rw zero-add
zeros-append (suc m) n = rw suc-add (ap (◌∷◌ 0) (zeros-append m n))

pub NoNul-append : (s t : Bytes) → NoNul s → NoNul t → NoNul (s ++ t)
NoNul-append [] t h k = k
NoNul-append (c ∷ s) t h k = (h.0, NoNul-append s t h.1 k)
