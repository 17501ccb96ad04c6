-- ===== src/Syscalls/Results.antt =====
-- reference-monitor/lib/reference_syscalls.c: the results that the header documents.
use aos_project.Base.{
  ◌≡◌, ◌↔◌, ◌⊎◌, true, false, Option, none, some, [], arith, if-cases, ℤ, pos, neg, is_nonzero,
  eperm, enomem, eacces, einval, ecanceled,
}
use aos_project.CString.{Bytes}
use aos_project.Kernel.{Kernel}
use aos_project.Hash.{hash_plaintext}
use aos_project.Syscalls.{
  Monitor, Kprobes, do_change_state, do_change_password, store_digest, is_state, check_pwd, is_null,
  to_ulong,
}

-- The tests of a change of state, in their order, and the result where each fails.
abbrev pub StateResults : {P : Type 0} → Kernel → Monitor P → Option Bytes → ℤ → ℤ → Type 0
StateResults k m the_pwd s r =
    let admin = k.euid ≡ m.admin in
    let valid = (is_null the_pwd ≡ false) × (is_state s ≡ true) in
    let knows = check_pwd k m the_pwd ≡ pos 0 in
    let same_state = m.current_state ≡ to_ulong s in
    ((r ≡ pos 0) ⊎ (r ≡ neg eperm) ⊎ (r ≡ neg einval) ⊎ (r ≡ neg eacces) ⊎ (r ≡ neg ecanceled))
    × ((r ≡ neg eperm) ↔ (¬ admin))
    × ((r ≡ neg einval) ↔ (admin × (¬ valid)))
    × ((r ≡ neg eacces) ↔ (admin × valid × (¬ knows)))
    × ((r ≡ neg ecanceled) ↔ (admin × valid × knows × same_state))
    × ((r ≡ pos 0) ↔ (admin × valid × knows × (¬ same_state)))

module _ {P : Type 0} (kp : Kprobes P) (k : Kernel) (m : Monitor P) (the_pwd : Option Bytes)
    (s : ℤ) where
  -- A change of state answers with 0 or one of the four documented errors: -EPERM exactly to a
  -- caller who is not the administrator, then -EINVAL exactly for a missing password or no state,
  -- then -EACCES exactly for a wrong password, then -ECANCELED exactly for the present state.
  pub do_change_state-Results : StateResults k m the_pwd s (do_change_state kp k m the_pwd s).1
  unfolding do_change_state
  do_change_state-Results =
      (ground arith, ground arith, ground arith, ground arith, ground arith, ground arith)

-- The results of `hash_plaintext` and of a change of the password.
abbrev pub IsHashResult : ℤ → Type 0
IsHashResult r = (r ≡ pos 0) ⊎ (r ≡ neg eperm) ⊎ (r ≡ neg einval) ⊎ (r ≡ neg enomem)

hash_plaintext-Result :
    (k : Kernel) (salt : Bytes) (c p : Option Bytes) → IsHashResult (hash_plaintext k salt c p).0
unfolding hash_plaintext
hash_plaintext-Result k salt c p = ground arith

store_digest-Result :
    {P : Type 0} (m : Monitor P) (h : ℤ × Option Bytes)
    → IsHashResult h.0
    → IsHashResult (store_digest m h).1
unfolding store_digest
store_digest-Result m (r, none) h = h
store_digest-Result {P = P} m (r, some tmp) h =
    if-cases (λ (x : Monitor P × ℤ). IsHashResult x.1) (is_nonzero r) (m, r)
      (record m { pwd = tmp }, r) (λ e. h) (λ e. h)

-- A change of the password answers with 0, -EPERM, -EINVAL or -ENOMEM.
pub do_change_password-Result :
    {P : Type 0} (k k' : Kernel) (m : Monitor P) (old new : Option Bytes)
    → IsHashResult (do_change_password k k' m old new).1
unfolding do_change_password
do_change_password-Result k k' m none new = ground arith
do_change_password-Result k k' m (some old) none = ground arith
do_change_password-Result k k' m (some old) (some new) = ground (
  arith,
  store_digest-Result m (hash_plaintext k' m.salt (some []) (some new))
      (hash_plaintext-Result k' m.salt (some []) (some new)),
)
