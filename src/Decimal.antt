-- ===== src/Decimal.antt =====
-- `%d` of sprintf.
use aos_project.Base.{
  All-append, All-map, ℕ, zero, suc, ◌+◌, ◌-◌, ◌*◌, ◌/◌, ◌%◌, ◌≤◌, ◌<◌, ◌≡◌, refl, sym, ap, ◌∙◌,
  ◌≢◌, [], ◌∷◌, ◌++◌, arith, ltb, if◌then◌else◌, ltb→lt, if-cases, length, drop, All, length-append,
  ℤ, pos, negsuc,
}
use aos_project.CString.{Bytes}

abbrev digit : ℕ → ℕ
digit n = b'0' + n

-- The digits of a number; an int has ten at most.
unfoldable digits : ℕ → ℕ → Bytes
digits zero n = []
digits (suc fuel) n =
    let rest = digits fuel (n / 10) in
    if ltb n 10 then digit n ∷ [] else rest ++ digit (n % 10) ∷ []

-- An int in decimal.
unfoldable pub decimal : ℤ → Bytes
unfolding digits
decimal (pos n) = digits 10 n
decimal (negsuc n) = b'-' ∷ digits 10 (suc n)

abbrev pub IsInt : ℤ → Type 0
IsInt (pos n) = n < 2147483648
IsInt (negsuc n) = n < 2147483648

-- A digit, and a byte that a number in decimal can have.
abbrev pub IsDigit : ℕ → Type 0
IsDigit c = (48 ≤ c) × (c < 58)

abbrev pub IsDecimal : ℕ → Type 0
IsDecimal c = (45 ≤ c) × (c < 58)

digits-IsDigit : (fuel n : ℕ) → All IsDigit (digits fuel n)
unfolding digits
digits-IsDigit zero n = tt
digits-IsDigit (suc fuel) n =
    if-cases (All IsDigit) (ltb n 10) (digit n ∷ []) (digits fuel (n / 10) ++ digit (n % 10) ∷ [])
      (λ e. ((omega arith, omega (arith, ltb→lt n 10 e)), tt))
      (λ e.
        All-append IsDigit (digits fuel (n / 10)) (digit (n % 10) ∷ [])
          (digits-IsDigit fuel (n / 10)) ((omega arith, omega arith), tt))

length-digits : (fuel n : ℕ) → length (digits fuel n) ≤ fuel
unfolding digits
length-digits zero n = omega arith
length-digits (suc fuel) n =
    let ih = length-digits fuel (n / 10) in
    let e = length-append (digits fuel (n / 10)) (digit (n % 10) ∷ []) in
    if-cases (λ s. length s ≤ suc fuel) (ltb n 10) (digit n ∷ [])
      (digits fuel (n / 10) ++ digit (n % 10) ∷ []) (λ z. omega arith) (λ z. omega (arith, ih, e))

-- A string of digits as a number.
unfoldable pub value : ℕ → Bytes → ℕ
value acc [] = acc
value acc (c ∷ cs) = value (10 * acc + (c - 48)) cs

value-append : (s : Bytes) (acc c : ℕ) → value acc (s ++ c ∷ []) ≡ 10 * value acc s + (c - 48)
unfolding value
value-append [] acc c = refl
value-append (x ∷ s) acc c = value-append s (10 * acc + (x - 48)) c

pow10 : ℕ → ℕ
pow10 zero = 1
pow10 (suc n) = 10 * pow10 n

value-digits : (fuel n : ℕ) → n < pow10 fuel → value 0 (digits fuel n) ≡ n
unfolding digits value pow10
value-digits zero n h = omega arith
value-digits (suc fuel) n h =
    let ih = value-digits fuel (n / 10) (omega arith) in
    let e = value-append (digits fuel (n / 10)) 0 (digit (n % 10)) in
    if-cases (λ s. value 0 s ≡ n) (ltb n 10) (digit n ∷ [])
      (digits fuel (n / 10) ++ digit (n % 10) ∷ []) (λ e. omega arith) (λ e'. omega arith)

digits-injective : (n m : ℕ) → n < 10000000000 → m < 10000000000 → digits 10 n ≡ digits 10 m → n ≡ m
unfolding pow10
digits-injective n m h k e = sym (value-digits 10 n h) ∙ ap (value 0) e ∙ value-digits 10 m k

pub decimal-IsDecimal : (x : ℤ) → All IsDecimal (decimal x)
unfolding decimal
decimal-IsDecimal (pos n) =
    All-map IsDigit IsDecimal (λ c h. (omega arith, omega arith)) (digits 10 n)
      (digits-IsDigit 10 n)
decimal-IsDecimal (negsuc n) = (
  (omega arith, omega arith),
  All-map IsDigit IsDecimal (λ c h. (omega arith, omega arith)) (digits 10 (suc n))
      (digits-IsDigit 10 (suc n)),
)

pub length-decimal : (x : ℤ) → length (decimal x) ≤ 11
unfolding decimal
length-decimal (pos n) = omega (arith, length-digits 10 n)
length-decimal (negsuc n) = omega (arith, length-digits 10 (suc n))

not_minus : (s : Bytes) (t : Bytes) → All IsDigit s → s ≢ b'-' ∷ t
not_minus [] t a e = ground arith
not_minus (c ∷ s) t ((a, b), c') e = ground arith

pub decimal-injective : (x y : ℤ) → IsInt x → IsInt y → decimal x ≡ decimal y → x ≡ y
unfolding decimal
decimal-injective (pos n) (pos m) h k e =
    ap pos (digits-injective n m (omega arith) (omega arith) e)
decimal-injective (pos n) (negsuc m) h k e =
    absurd (not_minus (digits 10 n) (digits 10 (suc m)) (digits-IsDigit 10 n) e)
decimal-injective (negsuc n) (pos m) h k e =
    absurd (not_minus (digits 10 m) (digits 10 (suc n)) (digits-IsDigit 10 m) (sym e))
decimal-injective (negsuc n) (negsuc m) h k e =
    let z : suc n ≡ suc m =
      digits-injective (suc n) (suc m) (omega arith) (omega arith) (ap (drop 1) e) in
    ap negsuc (omega arith)

pub decimal-IsDigit : (n : ℕ) → All IsDigit (decimal (pos n))
unfolding decimal
decimal-IsDigit n = digits-IsDigit 10 n

-- The digits of a number have it as their value.
pub value-decimal : (n : ℕ) → n < 10000000000 → value 0 (decimal (pos n)) ≡ n
unfolding decimal pow10
value-decimal n h = value-digits 10 n h

append-cons-ne-nil : (s : Bytes) (c : ℕ) → s ++ c ∷ [] ≢ []
append-cons-ne-nil [] c e = ground arith
append-cons-ne-nil (x ∷ s) c e = ground arith

digits-ne-nil : (fuel n : ℕ) → digits (suc fuel) n ≢ []
unfolding digits
digits-ne-nil fuel n =
    if-cases (λ s. s ≢ []) (ltb n 10) (digit n ∷ []) (digits fuel (n / 10) ++ digit (n % 10) ∷ [])
      (λ z e. ground arith) (λ z. append-cons-ne-nil (digits fuel (n / 10)) (digit (n % 10)))

pub decimal-ne-nil : (n : ℕ) → decimal (pos n) ≢ []
unfolding decimal
decimal-ne-nil n = digits-ne-nil 9 n
