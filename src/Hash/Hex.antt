-- ===== src/Hash/Hex.antt =====
-- The hexadecimal text of a digest.
use aos_project.Base.{ℕ, ◌*◌, ◌/◌, ◌%◌, ◌<◌, ◌≡◌, refl, [], ◌∷◌, arith, length, All}
use aos_project.CString.{Bytes, NoNul}
use aos_project.Hash.Digest.{hex, hex_digit}

abbrev pub IsByte : ℕ → Type 0
IsByte b = b < 256

pub length-hex : (bs : Bytes) → length (hex bs) ≡ 2 * length bs
unfolding hex
length-hex [] = refl
length-hex (b ∷ bs) = omega (arith, length-hex bs)

pub hex-NoNul : (bs : Bytes) → NoNul (hex bs)
unfolding hex
hex-NoNul [] = tt
hex-NoNul (b ∷ bs) = ground (arith, hex-NoNul bs)

digits-eq : (a b : ℕ) → a < 16 → b < 16 → hex_digit a ≡ hex_digit b → a ≡ b
digits-eq a b h k e = ground arith

byte-eq :
    (a b : ℕ)
    → a < 256
    → b < 256
    → hex_digit (a / 16 % 16) ≡ hex_digit (b / 16 % 16)
    → hex_digit (a % 16) ≡ hex_digit (b % 16)
    → a ≡ b
byte-eq a b h k e f = omega (
  arith,
  digits-eq (a / 16 % 16) (b / 16 % 16) (omega arith) (omega arith) e,
  digits-eq (a % 16) (b % 16) (omega arith) (omega arith) f,
)

-- Two strings of bytes with the same text are the same.
pub hex-injective : (a b : Bytes) → All IsByte a → All IsByte b → hex a ≡ hex b → a ≡ b
unfolding hex
hex-injective [] [] h k e = refl
hex-injective [] (y ∷ b) h k e = cc
hex-injective (x ∷ a) [] h k e = cc
hex-injective (x ∷ a) (y ∷ b) h k e = ground (arith, byte-eq x y h.0 k.0, hex-injective a b h.1 k.1)
