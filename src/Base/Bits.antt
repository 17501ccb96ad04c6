-- ===== src/Base/Bits.antt =====
-- Masks of native numbers: the laws of `&` and `|` that the mode and flag updates rest on.
use Prim.Native.Nat.{
  ℕ, zero, suc, ◌+◌, ◌*◌, ◌/◌, ◌%◌, ◌≤◌, min, max, bit_and, bit_or, digits, bitwise,
  bit_and-bitwise, bit_or-bitwise,
}
use mathlib.Core.Path.{◌≡◌, refl, ap, ◌∙◌, sym}
use mathlib.Core.Bool.{Bool, not}
use native.Mathlib.Omega.{arith}
use aos_project.Base.Tests.{◌==◌}

-- `x & mask` as a condition.
abbrev pub has : ℕ → ℕ → Bool
has x mask = not (bit_and x mask == 0)

-- A count of digits that covers the first number gives the same result as any other.
digits-enough :
    (z : ℕ → ℕ) (f : ℕ → ℕ → ℕ) (n m a b : ℕ) → a ≤ n → a ≤ m → digits z f n a b ≡ digits z f m a b
digits-enough z f (suc n) (suc m) (suc a) b h k =
    omega (arith, digits-enough z f n m (suc a / 2) (b / 2) (omega arith) (omega arith))
digits-enough z f zero zero zero b h k = refl
digits-enough z f zero (suc m) zero b h k = refl
digits-enough z f (suc n) zero zero b h k = refl
digits-enough z f (suc n) (suc m) zero b h k = refl
digits-enough z f zero m (suc a) b h k = absurd (omega arith)
digits-enough z f (suc n) zero (suc a) b h k = absurd (omega arith)

bitwise-halves :
    (z : ℕ → ℕ) (f : ℕ → ℕ → ℕ) (a b : ℕ)
    → z b ≡ z (b / 2) * 2 + f 0 (b % 2)
    → bitwise z f a b ≡ bitwise z f (a / 2) (b / 2) * 2 + f (a % 2) (b % 2)
bitwise-halves z f zero b h = h
bitwise-halves z f (suc a) b h =
    omega (arith, digits-enough z f a (suc a / 2) (suc a / 2) (b / 2) (omega arith) (omega arith))

and-halves : (a b : ℕ) → bit_and a b ≡ bit_and (a / 2) (b / 2) * 2 + min (a % 2) (b % 2)
and-halves a b =
    bit_and-bitwise a b
    ∙ bitwise-halves (λ _. 0) min a b (omega arith)
    ∙ omega (arith, bit_and-bitwise (a / 2) (b / 2))

or-halves : (a b : ℕ) → bit_or a b ≡ bit_or (a / 2) (b / 2) * 2 + max (a % 2) (b % 2)
or-halves a b =
    bit_or-bitwise a b
    ∙ bitwise-halves (λ x. x) max a b (omega arith)
    ∙ omega (arith, bit_or-bitwise (a / 2) (b / 2))

zero-and : (b : ℕ) → bit_and 0 b ≡ 0
zero-and b = bit_and-bitwise 0 b

zero-or : (b : ℕ) → bit_or 0 b ≡ b
zero-or b = bit_or-bitwise 0 b

-- Each law by recursion on a bound for the first number.
and_zero_below : (n a : ℕ) → a ≤ n → bit_and a 0 ≡ 0
and_zero_below n zero h = refl
and_zero_below zero (suc a) h = absurd (omega arith)
and_zero_below (suc n) (suc a) h =
    omega (arith, and-halves (suc a) 0, and_zero_below n (suc a / 2) (omega arith))

pub and_zero : (a : ℕ) → bit_and a 0 ≡ 0
and_zero a = and_zero_below a a (omega arith)

and_half : (a b : ℕ) → bit_and a b / 2 ≡ bit_and (a / 2) (b / 2)
and_half a b = omega (arith, and-halves a b)

and_digit : (a b : ℕ) → bit_and a b % 2 ≡ min (a % 2) (b % 2)
and_digit a b = omega (arith, and-halves a b)

and_assoc_below : (n a b c : ℕ) → a ≤ n → bit_and (bit_and a b) c ≡ bit_and a (bit_and b c)
and_assoc_below n zero b c h =
    ap (λ x. bit_and x c) (zero-and b) ∙ zero-and c ∙ sym (zero-and (bit_and b c))
and_assoc_below zero (suc a) b c h = absurd (omega arith)
and_assoc_below (suc n) (suc a) b c h =
    and-halves (bit_and (suc a) b) c
    ∙ (rw (and_half (suc a) b, and_digit (suc a) b)
        (rw (and_assoc_below n (suc a / 2) (b / 2) (c / 2) (omega arith)) (
          sym (and-halves (suc a) (bit_and b c) ∙ rw (and_half b c, and_digit b c) (omega arith)))))

pub and_assoc : (a b c : ℕ) → bit_and (bit_and a b) c ≡ bit_and a (bit_and b c)
and_assoc a b c = and_assoc_below a a b c (omega arith)

or_half : (a b : ℕ) → bit_or a b / 2 ≡ bit_or (a / 2) (b / 2)
or_half a b = omega (arith, or-halves a b)

or_digit : (a b : ℕ) → bit_or a b % 2 ≡ max (a % 2) (b % 2)
or_digit a b = omega (arith, or-halves a b)

and_self_below : (n a : ℕ) → a ≤ n → bit_and a a ≡ a
and_self_below n zero h = refl
and_self_below zero (suc a) h = absurd (omega arith)
and_self_below (suc n) (suc a) h =
    omega (arith, and-halves (suc a) (suc a), and_self_below n (suc a / 2) (omega arith))

pub and_self : (a : ℕ) → bit_and a a ≡ a
and_self a = and_self_below a a (omega arith)

-- The bits that `|` sets are set.
or-and_below : (n a b : ℕ) → a ≤ n → bit_and (bit_or a b) b ≡ b
or-and_below n zero b h = rw (zero-or b) (and_self b)
or-and_below zero (suc a) b h = absurd (omega arith)
or-and_below (suc n) (suc a) b h =
    and-halves (bit_or (suc a) b) b
    ∙ rw (or_half (suc a) b, or_digit (suc a) b)
        (rw (or-and_below n (suc a / 2) (b / 2) (omega arith)) (omega arith))

pub or-and : (a b : ℕ) → bit_and (bit_or a b) b ≡ b
or-and a b = or-and_below a a b (omega arith)
