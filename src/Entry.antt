-- ===== src/Entry.antt =====
-- reference-monitor/reference_monitor.c: the system calls, which copy their arguments from the user
-- and call the operations of lib/reference_syscalls.c.
use aos_project.Base.{ℕ, ◌++◌, not, ◌||◌, some, ◌==◌, if◌then◌else◌, ℤ, neg, enomem, einval}
use aos_project.CString.{Bytes, c_string, zeros}
use aos_project.Kernel.{Kernel, user_path, Run, ran}
use aos_project.PathSolver.{path_max}
use aos_project.Syscalls.{Monitor, Kprobes, do_change_state, do_change_path, do_change_password}

-- MAX_FROM_USER
abbrev pub max_from_user : ℕ
max_from_user = 256

-- `copy_from_user(buffer, p, MAX_FROM_USER)` into a zeroed buffer: what the buffer holds then. The
-- result is the number of bytes that were not copied, so the test `ret < 0` never holds.
abbrev pub from_user : (ℕ → ℕ → Bytes → Bytes) → ℕ → ℕ → Bytes
from_user copy_from_user size p = copy_from_user p max_from_user (zeros size)

-- The password in the n-th array of the call, as the string that it is used as: up to the first NUL,
-- which stands behind the array where no byte of it is one.
abbrev pub password_of : Kernel → (ℕ → ℕ → Bytes → Bytes) → ℕ → ℕ → Bytes
password_of k copy_from_user n p =
    c_string (from_user copy_from_user max_from_user p ++ k.stack_behind n)

module _ {P : Type 0} (kp : Kprobes P) (k k' : Kernel)
    (copy_from_user : ℕ → ℕ → Bytes → Bytes) where
  -- The address 0 is NULL.
  unfoldable pub sys_change_state : Monitor P → ℕ → ℤ → Monitor P × ℤ
  sys_change_state m pwd state =
      if pwd == 0
      then (m, neg einval)
      else do_change_state kp k m (some (password_of k copy_from_user 0 pwd)) state

  unfoldable pub sys_change_paths : Monitor P → ℕ → ℕ → ℤ → Run (Monitor P × ℤ)
  sys_change_paths m pwd path op =
      if pwd == 0 || path == 0
      then ran (m, neg einval)
      else if not (k.allocates user_path)
      then ran (m, neg enomem)
      else do_change_path k m (some (password_of k copy_from_user 0 pwd))
          (some (from_user copy_from_user path_max path)) op

  unfoldable pub sys_change_password : Monitor P → ℕ → ℕ → Monitor P × ℤ
  sys_change_password m old_password new_password =
      do_change_password k k' m (some (password_of k copy_from_user 0 old_password))
        (some (password_of k copy_from_user 1 new_password))
