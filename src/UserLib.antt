-- ===== src/UserLib.antt =====
-- user/lib/ref_syscall.c (and its copy test/lib/ref_syscall.c): the text that the user's library
-- writes to the access point.
use aos_project.Base.{ℕ, [], ◌∷◌, ◌++◌, ◌==◌, if◌then◌else◌}
use aos_project.CString.{Bytes}
use aos_project.CommandLine.{
  cngst, cngpth, cngpwd, pwd_key, opt_key, pth_key, old_key, new_key, word_on, word_off,
  word_rec_on, word_rec_off, word_add_path, word_remove_path,
}
pub mod Numbers
pub mod Printed
pub mod Calls
pub mod Installed
pub mod Send
use aos_project.Syscalls.{on, off, rec_on, rec_off, add_path_op, remove_path_op}

-- `einval`
abbrev pub minus_one : Bytes
minus_one = b'-' ∷ b'1' ∷ []

unfoldable pub get_str_state : ℕ → Bytes
get_str_state state =
    if state == on
    then word_on
    else if state == off
    then word_off
    else if state == rec_on
    then word_rec_on
    else if state == rec_off
    then word_rec_off
    else minus_one

unfoldable pub get_str_path : ℕ → Bytes
get_str_path add_or_remove =
    if add_or_remove == add_path_op
    then word_add_path
    else if add_or_remove == remove_path_op
    then word_remove_path
    else minus_one

abbrev space : Bytes → Bytes
space s = b' ' ∷ s

-- "cngst -pwd %s -opt %s"
unfoldable pub path_change_state : Bytes → ℕ → Bytes
unfolding get_str_state
path_change_state password state =
    cngst ++ space (pwd_key ++ space (password ++ space (opt_key ++ space (get_str_state state))))

-- "cngpth -pwd %s -pth %s -opt %s"
unfoldable pub path_change_path : Bytes → Bytes → ℕ → Bytes
unfolding get_str_path
path_change_path password the_path op =
    cngpth
    ++ space (
        pwd_key
        ++ space (
            password
            ++ space (pth_key ++ space (the_path ++ space (opt_key ++ space (get_str_path op))))))

-- "cngpwd -old %s -new %s"
unfoldable pub path_change_password : Bytes → Bytes → Bytes
path_change_password old_password new_password =
    cngpwd ++ space (old_key ++ space (old_password ++ space (new_key ++ space new_password)))
