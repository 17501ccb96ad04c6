-- ===== src/Hash/Salted.antt =====
-- What a digest depends on.
use aos_project.Base.{
  ◌≡◌, sym, ap, ◌∙◌, ◌≢◌, ◌↔◌, Option, none, some, ◌++◌, append-nil, arith, length, take, drop, All,
  take_of_length-le, pos,
}
use aos_project.CString.{Bytes, NoNul, c_string-append}
use aos_project.Kernel.{Kernel, salted_text}
use aos_project.Hash.Digest.{sha512_length, salt_suffix, hex, hash_plaintext, HashReady, NulBehind}
use aos_project.Hash.Hex.{IsByte, hex-injective}

-- The digest of a text with the salt behind it.
abbrev pub salted_digest : Kernel → Bytes → Bytes → Bytes
salted_digest k salt p = hex (take sha512_length (k.sha512 (p ++ salt_suffix salt)))

-- With all services answering and a NUL behind the copied text, the digest is that of the text and
-- the salt.
pub hash_plaintext_lem :
    (k : Kernel) (salt ciphertext p : Bytes)
    → HashReady k
    → NoNul p
    → NulBehind k (length p)
    → hash_plaintext k salt (some ciphertext) (some p) ≡ (pos 0, some (salted_digest k salt p))
unfolding hash_plaintext
hash_plaintext_lem k salt ciphertext p r h n = ground (
  arith,
  r.update (p ++ salt_suffix salt),
  c_string-append p (drop (length p) (k.stale salted_text)) h,
  append-nil p,
)

-- On every path that does not return 0 the output is left alone, and a NULL argument gives -EINVAL.
pub hash_plaintext_error :
    (k : Kernel) (salt ciphertext : Bytes) (p : Option Bytes)
    → (hash_plaintext k salt (some ciphertext) p).0 ≢ pos 0
    → (hash_plaintext k salt (some ciphertext) p).1 ≡ some ciphertext
unfolding hash_plaintext
hash_plaintext_error k salt ciphertext none h = ground arith
hash_plaintext_error k salt ciphertext (some p) h = ground arith

-- The bytes that `sha512` gives.
pub record IsSha512 (f : Bytes → Bytes) : Type 0 where
  pub size : (s : Bytes) → length (f s) ≡ sha512_length
  pub bytes : (s : Bytes) → All IsByte (f s)

-- Equal printed digests are equal digests.
pub salted_digest_iff :
    (k : Kernel) (salt p q : Bytes)
    → IsSha512 k.sha512
    → (salted_digest k salt p ≡ salted_digest k salt q)
      ↔ (k.sha512 (p ++ salt_suffix salt) ≡ k.sha512 (q ++ salt_suffix salt))
salted_digest_iff k salt p q s = (
  λ e. sym (full_digest p) ∙ hex-injective _ _ (full_bytes p) (full_bytes q) e ∙ full_digest q,
  ap (λ d. hex (take sha512_length d)),
)
  where
    full_digest :
        (r : Bytes)
        → take sha512_length (k.sha512 (r ++ salt_suffix salt)) ≡ k.sha512 (r ++ salt_suffix salt)
    full_digest r =
        take_of_length-le sha512_length _ (omega (arith, s.size (r ++ salt_suffix salt)))

    full_bytes : (r : Bytes) → All IsByte (take sha512_length (k.sha512 (r ++ salt_suffix salt)))
    full_bytes r = rw (full_digest r) (s.bytes _)
