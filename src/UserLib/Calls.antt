-- ===== src/UserLib/Calls.antt =====
-- user/lib/ref_syscall.c: the calls by number and the calls through the access point.
use aos_project.Base.{Option, ℤ, pos}
use aos_project.CString.{Bytes}
use aos_project.Kernel.{Run, ran, ◌>>=◌}
use aos_project.UserLib.Numbers.{Cache, get_syscal_number}

-- The arguments of the three system calls; `none` is a NULL path.
pub data Arguments : Type 0 where
  state_arguments : Bytes → ℤ → Arguments
  path_arguments : Bytes → Option Bytes → ℤ → Arguments
  password_arguments : Bytes → Bytes → Arguments

-- CHANGE_STATE, CHANGE_PATH, CHANGE_PASSWORD
abbrev pub change_state_call : ℤ
change_state_call = pos 0

abbrev pub change_path_call : ℤ
change_path_call = pos 1

abbrev pub change_password_call : ℤ
change_password_call = pos 2

-- `syscall` of the C library: what a call by number with these arguments makes of the world, and its
-- result. The first argument of the calls is the text of free_entries.
module _ {W : Type 0} (syscall : W → ℤ → Arguments → W × ℤ) where
  abbrev pub through : W → Arguments → Cache × ℤ → Run (Cache × (W × ℤ))
  through w args (c, n) = ran (c, syscall w n args)

module _ {W : Type 0} (syscall : W → ℤ → Arguments → W × ℤ) (free_entries : Option Bytes) where
  abbrev by_number : Cache → W → ℤ → Arguments → Run (Cache × (W × ℤ))
  by_number c w call args = get_syscal_number free_entries c call >>= through syscall w args

  unfoldable pub change_state : Cache → W → Bytes → ℤ → Run (Cache × (W × ℤ))
  change_state c w pwd state = by_number c w change_state_call (state_arguments pwd state)

  unfoldable pub change_path : Cache → W → Bytes → Option Bytes → ℤ → Run (Cache × (W × ℤ))
  change_path c w pwd path op = by_number c w change_path_call (path_arguments pwd path op)

  unfoldable pub change_password : Cache → W → Bytes → Bytes → Run (Cache × (W × ℤ))
  change_password c w old_pwd new_pwd =
      by_number c w change_password_call (password_arguments old_pwd new_pwd)
