-- ===== src/RestrictList/Forbidden.antt =====
-- Which paths `forbitten_path` refuses.
use aos_project.Base.{◌≡◌, ◌↔◌, ◌⊎◌, true, some, List, [], ◌∷◌, arith, length, take, AnyOf}
use aos_project.CString.{Bytes, same_iff, same_n_iff}
use aos_project.RestrictList.{proc, sys, run, var, tmp, bin, etc, lib, forbitten_path}

abbrev pub system_folders : List Bytes
system_folders = proc ∷ sys ∷ run ∷ var ∷ tmp ∷ bin ∷ etc ∷ lib ∷ []

abbrev pub StartsWith : Bytes → Bytes → Type 0
StartsWith p d = take (length d) p ≡ d

-- A path is forbidden exactly when it is the root, starts with the bytes of one of the eight
-- system folders (with no regard to where a path component ends), or is the log file.
pub forbitten_path_iff :
    (log p : Bytes)
    → (forbitten_path log (some p) ≡ true)
      ↔ ((p ≡ (b'/' ∷ [])) ⊎ AnyOf (StartsWith p) system_folders ⊎ (log ≡ p))
unfolding forbitten_path
forbitten_path_iff log [] = ground (
  arith,
  same_iff log [],
  same_n_iff 5 [] proc,
  same_n_iff 4 [] sys,
  same_n_iff 4 [] run,
  same_n_iff 4 [] var,
  same_n_iff 4 [] tmp,
  same_n_iff 4 [] bin,
  same_n_iff 4 [] etc,
  same_n_iff 4 [] lib,
)
forbitten_path_iff log (c ∷ []) = ground (
  arith,
  same_iff log (c ∷ []),
  same_n_iff 5 (c ∷ []) proc,
  same_n_iff 4 (c ∷ []) sys,
  same_n_iff 4 (c ∷ []) run,
  same_n_iff 4 (c ∷ []) var,
  same_n_iff 4 (c ∷ []) tmp,
  same_n_iff 4 (c ∷ []) bin,
  same_n_iff 4 (c ∷ []) etc,
  same_n_iff 4 (c ∷ []) lib,
)
forbitten_path_iff log (c ∷ d ∷ p) = ground (
  arith,
  same_iff log (c ∷ d ∷ p),
  same_n_iff 5 (c ∷ d ∷ p) proc,
  same_n_iff 4 (c ∷ d ∷ p) sys,
  same_n_iff 4 (c ∷ d ∷ p) run,
  same_n_iff 4 (c ∷ d ∷ p) var,
  same_n_iff 4 (c ∷ d ∷ p) tmp,
  same_n_iff 4 (c ∷ d ∷ p) bin,
  same_n_iff 4 (c ∷ d ∷ p) etc,
  same_n_iff 4 (c ∷ d ∷ p) lib,
)
