-- ===== src/Vfs.antt =====
-- reference-monitor/lib/reference_path_based_syscall.c: the calls of the monitor as text written to
-- /proc/ref_syscall/access_point.
use aos_project.Base.{
  ℕ, zero, suc, ◌+◌, ◌-◌, ◌*◌, ◌/◌, ◌%◌, ◌^◌, ◌≤◌, ◌<◌, min, max, bit_and, bit_or, ◌≡◌, refl, sym,
  ap, ◌∙◌, fun_ext, ◌≢◌, ◌↔◌, ◌⊎◌, inl, inr, Bool, true, false, not, ◌&&◌, ◌||◌, Option, none, some,
  List, [], ◌∷◌, ◌++◌, map, append-nil, append_assoc, arith, ltb, leb, ◌==◌, if◌then◌else◌, ltb→lt,
  ltb→le, ==→eq, ==_iff, ==-self, Bool-cases, Option-cases, length, get_elem?, get_or, set, take,
  drop, replicate, All, AnyOf, length-append, length-take, length-drop, length-replicate,
  take-append, drop-append, take_at, drop_at, take_split, drop_split, set_at, get_or_at,
  take_of_length-le, drop_of_length-le, take-append-drop, drop-nil, drop-replicate, ℤ, pos, negsuc,
  neg, is_nonzero, is_negative, eperm, enoent, eio, ebadf, enomem, eacces, efault, eexist, einval,
  efbig, ebadmsg, ecanceled,
}
use aos_project.Base.Bits.{has, and_zero, and_assoc, and_self, or-and}
use aos_project.CString.{
  Bytes, strncmp, strcmp, is_zero, same, same_n, same_iff, same_n_iff, same_self, same_n_self,
  same_n-length-append, same_n-length-prefix, c_string, NoNul, zeros, overwrite, c_string-append,
  c_string-zeros, c_string-NoNul, c_string_of_NoNul, strncmp_iff, c_string-zero,
  c_string-drop-zeros, drop-zeros-append, zeros-append, NoNul-append,
}
pub mod Command
pub mod PathCommand
pub mod ProcRead
pub mod Given
pub mod Writes
use aos_project.Kernel.{Kernel, wrapper_path, proc_buffer, Run, ran, oops, ◌>>=◌}
use aos_project.PathSolver.{path_max}
use aos_project.Syscalls.{Monitor, Kprobes, do_change_state, do_change_path, do_change_password}
use aos_project.CommandLine.{
  cngst, cngpth, cngpwd, pwd_key, opt_key, pth_key, old_key, new_key, null_text,
  check_avilable_sys_list, take_value, take_options, last_options, words_of, is_null_text,
}

-- The loop of `change_state_vfs_sys_wrapper`, from one word on: the password and the options.
unfoldable pub state_args : Bytes → List Bytes → Option Bytes → ℤ → Run (Option Bytes × ℤ)
unfolding take_options last_options
state_args arg [] pwd op = last_options arg op >>= (λ r. ran (take_value pwd_key arg none pwd, r.0))
state_args arg (next ∷ rest) pwd op =
    take_options arg next op
    >>= (λ r. state_args r.1 rest (take_value pwd_key arg (some next) pwd) r.0)

unfoldable pub all_state_args : List Bytes → Run (Option Bytes × ℤ)
unfolding state_args
all_state_args [] = ran (none, negsuc 0)
all_state_args (arg ∷ rest) = state_args arg rest none (negsuc 0)

module _ {P : Type 0} (kp : Kprobes P) (k : Kernel) where
  unfoldable pub change_state_vfs_sys_wrapper : Monitor P → List Bytes → ℕ → Run (Monitor P × ℤ)
  unfolding all_state_args
  change_state_vfs_sys_wrapper m argv format =
      if not (format == 4)
      then ran (m, neg einval)
      else all_state_args argv >>= (λ r.
        if is_null_text r.0 then ran (m, neg einval) else ran (do_change_state kp k m r.0 r.1))

-- The variables of `change_path_vfs_sys_wrapper`.
pub record PathArgs : Type 0 where
  pub pwd : Option Bytes
  pub pathname : Bytes
  pub op : ℤ

-- The `-pth` branch of a round: the buffer with the path, or the return of -EINVAL, `none`. A path
-- that leaves no room for a NUL is written past the end of the buffer.
unfoldable pub take_path : Bytes → Option Bytes → Bytes → Run (Option Bytes)
take_path arg none b = if same_n 4 arg pth_key then ran none else ran (some b)
take_path arg (some next) b =
    if same_n 4 arg pth_key
    then if same next null_text
      then ran none
      else if leb path_max (length next)
      then oops
      else ran (some (overwrite next b))
    else ran (some b)

unfoldable pub path_args : Bytes → List Bytes → PathArgs → Run (Option PathArgs)
unfolding take_path take_options last_options
path_args arg [] a = take_path arg none a.pathname >>= elim [
  | none ↦ ran none
  | some b ↦ last_options arg a.op >>= (λ r.
      ran (some (record { pwd = take_value pwd_key arg none a.pwd; pathname = b; op = r.0 })))
]
path_args arg (next ∷ rest) a = take_path arg (some next) a.pathname >>= elim [
  | none ↦ ran none
  | some b ↦ take_options arg next a.op >>= (λ r.
      path_args r.1 rest
        (record { pwd = take_value pwd_key arg (some next) a.pwd; pathname = b; op = r.0 }))
]

abbrev pub no_path_args : PathArgs
no_path_args = record { pwd = none; pathname = zeros path_max; op = negsuc 0 }

unfoldable pub all_path_args : List Bytes → Run (Option PathArgs)
unfolding path_args
all_path_args [] = ran (some no_path_args)
all_path_args (arg ∷ rest) = path_args arg rest no_path_args

module _ {P : Type 0} (k : Kernel) where
  unfoldable pub call_change_path : Monitor P → Option PathArgs → Run (Monitor P × ℤ)
  call_change_path m none = ran (m, neg einval)
  call_change_path m (some a) =
      if is_null_text a.pwd
      then ran (m, neg einval)
      else do_change_path k m a.pwd (some a.pathname) a.op

  unfoldable pub change_path_vfs_sys_wrapper : Monitor P → List Bytes → ℕ → Run (Monitor P × ℤ)
  unfolding all_path_args call_change_path
  change_path_vfs_sys_wrapper m argv format =
      if not (format == 6)
      then ran (m, neg einval)
      else if not (k.allocates wrapper_path)
      then ran (m, neg enomem)
      else all_path_args argv >>= call_change_path m

-- The loop of `change_password_vfs_sys_wrapper`: the old and the new password.
unfoldable pub password_args :
    List Bytes → Option Bytes → Option Bytes → Option Bytes × Option Bytes
password_args [] old new = (old, new)
password_args (arg ∷ []) old new =
    (take_value old_key arg none old, take_value new_key arg none new)
password_args (arg ∷ next ∷ rest) old new =
    password_args (next ∷ rest) (take_value old_key arg (some next) old)
      (take_value new_key arg (some next) new)

module _ {P : Type 0} (k k' : Kernel) where
  unfoldable pub call_change_password : Monitor P → Option Bytes × Option Bytes → Monitor P × ℤ
  call_change_password m (old, new) =
      if is_null_text old || is_null_text new
      then (m, neg einval)
      else do_change_password k k' m old new

  unfoldable pub change_password_vfs_sys_wrapper : Monitor P → List Bytes → ℕ → Run (Monitor P × ℤ)
  unfolding password_args call_change_password
  change_password_vfs_sys_wrapper m argv format =
      if not (format == 4)
      then ran (m, neg einval)
      else ran (call_change_password m (password_args argv none none))

-- What is written: the user's bytes, and what `copy_from_user` returns for them.
pub record Written : Type 0 where
  pub text : Bytes
  pub copy_ret : ℕ

abbrev pub max_written : ℕ
max_written = path_max + 255 + 1

unfoldable pub written_result : {P : Type 0} → ℕ → Monitor P × ℤ → Monitor P × ℤ
written_result len (m, ret) = if is_negative ret then (m, ret) else (m, pos len)

module _ {P : Type 0} (kp : Kprobes P) (k k' : Kernel) where
  unfoldable pub dispatch : Monitor P → Bytes → List Bytes → Run (Monitor P × ℤ)
  dispatch m name args =
      let i = check_avilable_sys_list name in
      if is_zero i then change_state_vfs_sys_wrapper kp k m args (length args) else elim i [
        | pos (suc zero) ↦ change_path_vfs_sys_wrapper k m args (length args)
        | pos (suc (suc zero)) ↦ change_password_vfs_sys_wrapper k k' m args (length args)
        | _ ↦ ran (m, neg ebadmsg)
      ]

  -- `argv` has room for fifteen words and a NULL.
  unfoldable pub run_words : Monitor P → List Bytes → Run (Monitor P × ℤ)
  unfolding dispatch
  run_words m [] = oops
  run_words m (name ∷ args) = if leb 15 (length args) then oops else dispatch m name args

  unfoldable pub syscall_proc_write : Monitor P → Written → Run (Monitor P × ℤ)
  unfolding run_words words_of written_result
  syscall_proc_write m w =
      let len = length w.text in
      if leb max_written len
      then ran (m, negsuc 0)
      else if not (k.allocates proc_buffer)
      then ran (m, neg enomem)
      else if ltb 0 w.copy_ret
      then ran (m, negsuc 0)
      else run_words m (words_of w.text) >>= (λ r. ran (written_result len r))
