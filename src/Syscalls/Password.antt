-- ===== src/Syscalls/Password.antt =====
-- Which passwords `check_pwd` accepts, and what `do_change_password` does.
use aos_project.Base.{
  ◌≤◌, ◌<◌, ◌≡◌, ◌≢◌, ◌↔◌, Option, none, some, [], ◌++◌, arith, length, take, length-take,
  take_of_length-le, ℤ, pos,
}
use aos_project.CString.{Bytes, strncmp, same_iff, NoNul, strncmp_iff}
use aos_project.Kernel.{Kernel}
use aos_project.Hash.{
  sha512_length, salt_suffix, HashReady, NulBehind, IsSha512, salted_digest, salted_digest_iff,
  hash_plaintext_lem, length-hex,
}
use aos_project.Syscalls.{Monitor, check_pwd, do_change_password}

-- A kernel that can hash the text in a clean block.
pub record CanHash (k : Kernel) (p : Bytes) : Type 0 where
  pub ready : HashReady k
  pub no_nul : NoNul p
  pub clean : NulBehind k (length p)

-- The monitor keeps the digest of the password.
abbrev pub Keeps : {P : Type 0} → Kernel → Monitor P → Bytes → Type 0
Keeps k m p = m.pwd ≡ salted_digest k m.salt p

module _ {P : Type 0} (k : Kernel) (m : Monitor P) where
  digest_fits : (p : Bytes) → IsSha512 k.sha512 → length (salted_digest k m.salt p) ≤ 129
  digest_fits p s = omega (
    arith,
    length-hex (take sha512_length (k.sha512 (p ++ salt_suffix m.salt))),
    length-take sha512_length (k.sha512 (p ++ salt_suffix m.salt)),
  )

  check_pwd-strncmp :
      (q : Bytes)
      → CanHash k q
      → check_pwd k m (some q) ≡ strncmp 129 (salted_digest k m.salt q) m.pwd
  unfolding check_pwd
  check_pwd-strncmp q c = ground (arith, hash_plaintext_lem k m.salt [] q c.ready c.no_nul c.clean)

  -- With crypto services that answer, 64 bytes from sha512, and a NUL behind the copied text in
  -- the block of the salted text, a password without NULs is accepted exactly when it and the
  -- password whose digest the monitor keeps have the same sha512 with the salt behind them.
  pub check_pwd_iff :
      (p q : Bytes)
      → IsSha512 k.sha512
      → Keeps k m p
      → CanHash k q
      → (check_pwd k m (some q) ≡ pos 0)
        ↔ (k.sha512 (q ++ salt_suffix m.salt) ≡ k.sha512 (p ++ salt_suffix m.salt))
  check_pwd_iff p q s kept c = ground (
    arith,
    check_pwd-strncmp q c,
    strncmp_iff 129 (salted_digest k m.salt q) m.pwd,
    take_of_length-le 129 (salted_digest k m.salt q) (digest_fits q s),
    take_of_length-le 129 (salted_digest k m.salt p) (digest_fits p s),
    salted_digest_iff k m.salt q p s,
  )

module _ {P : Type 0} (k k' : Kernel) (m : Monitor P) where
  abbrev changed : Option Bytes → Option Bytes → Monitor P × ℤ
  changed = do_change_password k k' m

  -- A call that does not return 0 leaves the monitor as it is.
  pub do_change_password-atomic :
      (old new : Option Bytes) → (changed old new).1 ≢ pos 0 → (changed old new).0 ≡ m
  unfolding do_change_password
  do_change_password-atomic none new h = ground arith
  do_change_password-atomic (some old) none h = ground arith
  do_change_password-atomic (some old) (some new) h = ground arith

  -- A call on two strings, of which the new one has no NUL and can be hashed, returns 0 only for the
  -- administrator, who knows the old password and gives a new one that differs and has more than
  -- eight bytes; the digest of the new one is kept then.
  pub do_change_password_lem :
      (old new : Bytes)
      → CanHash k' new
      → (changed (some old) (some new)).1 ≡ pos 0
      → (k.euid ≡ m.admin)
        × (check_pwd k m (some old) ≡ pos 0)
        × (8 < length new)
        × (old ≢ new)
        × Keeps k' (changed (some old) (some new)).0 new
  unfolding do_change_password
  do_change_password_lem old new c h =
      ground (arith, same_iff old new, hash_plaintext_lem k' m.salt [] new c.ready c.no_nul c.clean)
