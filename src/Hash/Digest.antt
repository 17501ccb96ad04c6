-- ===== src/Hash/Digest.antt =====
-- reference-monitor/lib/reference_hash.c.
use aos_project.Base.{
  ℕ, ◌+◌, ◌-◌, ◌*◌, ◌/◌, ◌%◌, ◌≡◌, true, not, Option, none, some, [], ◌∷◌, ◌++◌, ltb, if◌then◌else◌,
  take, drop, ℤ, pos, negsuc, neg, is_nonzero, is_negative, enomem, einval,
}
use aos_project.CString.{Bytes, c_string, overwrite}
use aos_project.Kernel.{Kernel, salted_text, shash_desc}

-- reference_types.h
abbrev pub sha512_length : ℕ
sha512_length = 64

abbrev pub salt_length : ℕ
salt_length = 16

abbrev pub digest_size : ℕ
digest_size = sha512_length * 2 + 1

-- `strncat(s, salt, SALT_LENGTH)` appends this to `s`.
abbrev pub salt_suffix : Bytes → Bytes
salt_suffix salt = take salt_length (c_string salt)

-- `strncpy` copies the bytes of the text and no NUL; `strncat` goes on at the first NUL of the block.
salted_block : Bytes → Bytes → Bytes → Bytes
salted_block salt plaintext block = c_string (overwrite plaintext block) ++ salt_suffix salt

-- The result, and the string in the new block.
unfoldable pub salt_text : Kernel → Bytes → Option Bytes → ℤ × Bytes
unfolding salted_block
salt_text k salt none = (neg einval, [])
salt_text k salt (some plaintext) =
    if k.allocates salted_text
    then (pos 0, salted_block salt plaintext (k.stale salted_text))
    else (neg enomem, [])

-- One digit of `%02x`.
abbrev pub hex_digit : ℕ → ℕ
hex_digit n = if ltb n 10 then b'0' + n else b'a' + (n - 10)

-- The loop that prints the digest.
unfoldable pub hex : Bytes → Bytes
hex [] = []
hex (b ∷ bs) = hex_digit (b / 16 % 16) ∷ hex_digit (b % 16) ∷ hex bs

-- What is in `ciphertext` stays where the call fails.
digest : Kernel → Bytes → Bytes → ℤ × Option Bytes
digest k salted ciphertext =
    if not k.crypto_alloc_shash
    then (negsuc 0, some ciphertext)
    else if not (k.allocates shash_desc)
    then (neg enomem, some ciphertext)
    else if is_nonzero k.crypto_shash_init
    then (negsuc 0, some ciphertext)
    else if is_nonzero (k.crypto_shash_update salted)
    then (negsuc 0, some ciphertext)
    else if is_nonzero k.crypto_shash_final
    then (negsuc 0, some ciphertext)
    else (pos 0, some (hex (take sha512_length (k.sha512 salted))))

after_salt : Kernel → ℤ × Bytes → Option Bytes → ℤ × Option Bytes
unfolding digest
after_salt k (ret, salted) none = (neg einval, none)
after_salt k (ret, salted) (some ciphertext) =
    if is_negative ret then (neg einval, some ciphertext) else digest k salted ciphertext

-- The result, and the string in `ciphertext`; `none` is a NULL pointer.
unfoldable pub hash_plaintext : Kernel → Bytes → Option Bytes → Option Bytes → ℤ × Option Bytes
unfolding salt_text after_salt
hash_plaintext k salt ciphertext plaintext = after_salt k (salt_text k salt plaintext) ciphertext

-- Bytes of random numbers; the last byte of the array stays NUL.
unfoldable pub generate_salt : Bytes → ℤ × Bytes
generate_salt random = (pos 0, take salt_length random)

-- The services that a digest needs answer.
pub record HashReady (k : Kernel) : Type 0 where
  pub salted : k.allocates salted_text ≡ true
  pub desc : k.allocates shash_desc ≡ true
  pub alloc : k.crypto_alloc_shash ≡ true
  pub init : k.crypto_shash_init ≡ pos 0
  pub update : (s : Bytes) → k.crypto_shash_update s ≡ pos 0
  pub final : k.crypto_shash_final ≡ pos 0

-- The first byte behind a text of this length in the block of the salted text is a NUL.
abbrev pub NulBehind : Kernel → ℕ → Type 0
NulBehind k n = c_string (drop n (k.stale salted_text)) ≡ []
