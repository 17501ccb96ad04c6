-- ===== src/Vfs/Given.antt =====
-- reference-monitor/lib/reference_path_based_syscall.c: the passwords that the parsers give are words
-- of the text.
use aos_project.Base.{
  All, AnyOf, ◌≡◌, refl, inl, inr, Option, none, some, List, [], ◌∷◌, if-cases, ℤ, negsuc,
}
use aos_project.CString.{Bytes, same_n}
use aos_project.Hooks.Audit.{Holds, Holds->>=, anything}
use aos_project.CommandLine.{pwd_key, old_key, take_value, take_options, last_options, words_of}
use aos_project.Vfs.{
  state_args, path_args, take_path, all_state_args, PathArgs, all_path_args, password_args, Written,
}

-- The bytes are one of the words of a text that is written.
abbrev pub IsWord : Written → Bytes → Type 0
IsWord w p = AnyOf (λ q. p ≡ q) (words_of w.text)

All-map : (F G : Bytes → Type 0) (l : List Bytes) → ((x : Bytes) → F x → G x) → All F l → All G l
All-map F G [] f h = tt
All-map F G (x ∷ l) f (h, hs) = (f x h, All-map F G l f hs)

pub all-AnyOf : (l : List Bytes) → All (λ p. AnyOf (λ q. p ≡ q) l) l
all-AnyOf [] = tt
all-AnyOf (x ∷ l) = (
  inl refl,
  All-map (λ p. AnyOf (λ q. p ≡ q) l) (λ p. AnyOf (λ q. p ≡ q) (x ∷ l)) l (λ p h. inr h)
      (all-AnyOf l),
)

module _ (Given : Bytes → Type 0) where
  -- A password, if there is one, is given.
  abbrev pub IsGiven : Option Bytes → Type 0
  IsGiven none = Unit
  IsGiven (some p) = Given p

  take_value-IsGiven :
      (key arg : Bytes) (next v : Option Bytes)
      → IsGiven next
      → IsGiven v
      → IsGiven (take_value key arg next v)
  take_value-IsGiven key arg next v g h =
      if-cases IsGiven (same_n 4 arg key) next v (λ e. g) (λ e. h)

  state_args-IsGiven :
      (arg : Bytes) (rest : List Bytes) (pwd : Option Bytes) (op : ℤ)
      → All Given rest
      → IsGiven pwd
      → Holds (λ r. IsGiven r.0) (state_args arg rest pwd op)
  unfolding state_args
  state_args-IsGiven arg [] pwd op g h =
      Holds->>= (λ r. Unit) (λ r. IsGiven r.0) (last_options arg op) _ (anything _)
        (λ r u. take_value-IsGiven pwd_key arg none pwd tt h)
  state_args-IsGiven arg (next ∷ rest) pwd op (n, g) h =
      Holds->>= (λ r. Unit) (λ r. IsGiven r.0) (take_options arg next op) _ (anything _)
        (λ r u.
          state_args-IsGiven r.1 rest (take_value pwd_key arg (some next) pwd) r.0 g
            (take_value-IsGiven pwd_key arg (some next) pwd n h))

  pub all_state_args-IsGiven :
      (argv : List Bytes) → All Given argv → Holds (λ r. IsGiven r.0) (all_state_args argv)
  unfolding all_state_args
  all_state_args-IsGiven [] g = tt
  all_state_args-IsGiven (arg ∷ rest) (n, g) = state_args-IsGiven arg rest none (negsuc 0) g tt

  abbrev pub PathIsGiven : Option PathArgs → Type 0
  PathIsGiven none = Unit
  PathIsGiven (some a) = IsGiven a.pwd

  path_args-IsGiven :
      (arg : Bytes) (rest : List Bytes) (a : PathArgs)
      → All Given rest
      → IsGiven a.pwd
      → Holds PathIsGiven (path_args arg rest a)
  unfolding path_args
  path_args-IsGiven arg [] a g h =
      Holds->>= (λ r. Unit) PathIsGiven (take_path arg none a.pathname) _ (anything _)
        (elim [
          | none ↦ λ u. tt
          | some b ↦ λ u.
              Holds->>= (λ r. Unit) PathIsGiven (last_options arg a.op) _ (anything _)
                (λ r u. take_value-IsGiven pwd_key arg none a.pwd tt h)
        ])
  path_args-IsGiven arg (next ∷ rest) a (n, g) h =
      Holds->>= (λ r. Unit) PathIsGiven (take_path arg (some next) a.pathname) _ (anything _)
        (elim [
          | none ↦ λ u. tt
          | some b ↦ λ u.
              Holds->>= (λ r. Unit) PathIsGiven (take_options arg next a.op) _ (anything _)
                (λ r u.
                  path_args-IsGiven r.1 rest _ g
                    (take_value-IsGiven pwd_key arg (some next) a.pwd n h))
        ])

  pub all_path_args-IsGiven :
      (argv : List Bytes) → All Given argv → Holds PathIsGiven (all_path_args argv)
  unfolding all_path_args
  all_path_args-IsGiven [] g = tt
  all_path_args-IsGiven (arg ∷ rest) (n, g) = path_args-IsGiven arg rest _ g tt

  pub password_args-IsGiven :
      (argv : List Bytes) (old new : Option Bytes)
      → All Given argv
      → IsGiven old
      → IsGiven (password_args argv old new).0
  unfolding password_args
  password_args-IsGiven [] old new g h = h
  password_args-IsGiven (arg ∷ []) old new g h = take_value-IsGiven old_key arg none old tt h
  password_args-IsGiven (arg ∷ next ∷ rest) old new (n, g) h =
      password_args-IsGiven (next ∷ rest) _ _ g
        (take_value-IsGiven old_key arg (some next) old g.0 h)
