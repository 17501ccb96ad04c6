-- ===== src/Syscalls.antt =====
-- reference-monitor/lib/reference_syscalls.c: the state of the monitor, and the three calls of its
-- administrator. The build does not set NO_LOCK: a call that changes the state does so in one
-- section under `state_lock` or `password_lock`, and is one step here.
use aos_project.Base.{
  ℕ, zero, suc, ◌+◌, ◌-◌, ◌*◌, ◌/◌, ◌%◌, ◌^◌, ◌≤◌, ◌<◌, min, max, bit_and, bit_or, ◌≡◌, refl, sym,
  ap, ◌∙◌, fun_ext, ◌≢◌, ◌↔◌, ◌⊎◌, inl, inr, Bool, true, false, not, ◌&&◌, ◌||◌, Option, none, some,
  List, [], ◌∷◌, ◌++◌, map, append-nil, append_assoc, arith, ltb, leb, ◌==◌, if◌then◌else◌, ltb→lt,
  ltb→le, ==→eq, ==_iff, ==-self, Bool-cases, Option-cases, length, get_elem?, get_or, set, take,
  drop, replicate, All, AnyOf, length-append, length-take, length-drop, length-replicate,
  take-append, drop-append, take_at, drop_at, take_split, drop_split, set_at, get_or_at,
  take_of_length-le, drop_of_length-le, take-append-drop, drop-nil, drop-replicate, ℤ, pos, negsuc,
  neg, is_nonzero, is_negative, eperm, enoent, eio, ebadf, enomem, eacces, efault, eexist, einval,
  efbig, ebadmsg, ecanceled,
}
use aos_project.Base.Bits.{has, and_zero, and_assoc, and_self, or-and}
use aos_project.CString.{
  Bytes, strncmp, strcmp, is_zero, same, same_n, same_iff, same_n_iff, same_self, same_n_self,
  same_n-length-append, same_n-length-prefix, c_string, NoNul, zeros, overwrite, c_string-append,
  c_string-zeros, c_string-NoNul, c_string_of_NoNul, c_string-zero, c_string-drop-zeros,
  drop-zeros-append, zeros-append, NoNul-append,
}
pub mod Password
pub mod State
pub mod Path
pub mod Edits
pub mod Results
pub mod Effect
use aos_project.Kernel.{Inodes, Lookup, failed, found, Kernel, Run, ran, oops, ◌>>=◌}
use aos_project.Hash.{digest_size, hash_plaintext}
use aos_project.RestrictList.{Table, add_path, del_path, forbitten_path, restore_black_list_entries}
use aos_project.PathSolver.{fill_absolute_path}

-- The states and operations of reference_types.h.
abbrev pub on : ℕ
on = 0x01

abbrev pub off : ℕ
off = 0x02

abbrev pub rec_on : ℕ
rec_on = 0x04

abbrev pub rec_off : ℕ
rec_off = 0x08

abbrev pub add_path_op : ℕ
add_path_op = 0x10

abbrev pub remove_path_op : ℕ
remove_path_op = 0x20

-- What the module relies on of kretprobes: enabling and disabling take effect.
pub record Kprobes (P : Type 0) : Type 0 where
  pub enable_kretprobe : P → P
  pub disable_kretprobe : P → P
  pub armed : P → Bool
  pub armed-enable : (p : P) → armed (enable_kretprobe p) ≡ true
  pub armed-disable : (p : P) → armed (disable_kretprobe p) ≡ false

-- The globals of the module. `pwd` is the string of the stored digest.
pub record Monitor (P : Type 0) : Type 0 where
  pub current_state : ℕ
  pub pwd : Bytes
  pub salt : Bytes
  pub admin : ℕ
  pub single_file_name : Bytes
  pub table : Table
  pub probes : List P

compare_digest : Bytes → ℤ × Option Bytes → ℤ
compare_digest pwd (ret, none) = ret
compare_digest pwd (ret, some tmp) = if is_nonzero ret then ret else strncmp digest_size tmp pwd

-- `tmp` is an array that holds anything before the call of `hash_plaintext`.
unfoldable pub check_pwd : {P : Type 0} → Kernel → Monitor P → Option Bytes → ℤ
unfolding compare_digest hash_plaintext
check_pwd k m try_password = compare_digest m.pwd (hash_plaintext k m.salt (some []) try_password)

abbrev pub is_null : Option Bytes → Bool
is_null none = true
is_null (some s) = false

-- `s == ON || s == OFF || s == REC_ON || s == REC_OFF`
abbrev pub is_state : ℤ → Bool
is_state (pos s) = s == on || (s == off || (s == rec_on || s == rec_off))
is_state (negsuc n) = false

abbrev pub to_ulong : ℤ → ℕ
to_ulong (pos n) = n
to_ulong (negsuc n) = 2 ^ 64 - suc n

-- `(current_state & REC_ON) || (current_state & ON)`
abbrev pub hooks_on : ℕ → Bool
hooks_on s = has s rec_on || has s on

module _ {P : Type 0} (kp : Kprobes P) (k : Kernel) where
  unfoldable pub switch_hooks : Monitor P → Monitor P
  switch_hooks m =
      if hooks_on m.current_state
      then record m { probes = map kp.enable_kretprobe m.probes }
      else record m {
        probes = map kp.disable_kretprobe m.probes;
        table = (restore_black_list_entries k m.table).0;
      }

  -- The section under `state_lock`.
  enter_state : Monitor P → ℕ → Monitor P × ℤ
  enter_state m s =
      if m.current_state == s
      then (m, neg ecanceled)
      else (switch_hooks (record m { current_state = s }), pos 0)

  unfoldable pub do_change_state : Monitor P → Option Bytes → ℤ → Monitor P × ℤ
  unfolding enter_state
  do_change_state m the_pwd the_state =
      if not (k.euid == m.admin)
      then (m, neg eperm)
      else if is_null the_pwd || not (is_state the_state)
      then (m, neg einval)
      else if is_nonzero (check_pwd k m the_pwd)
      then (m, neg eacces)
      else enter_state m (to_ulong the_state)

-- `op != ADD_PATH && op != REMOVE_PATH`, negated
abbrev pub is_op : ℤ → Bool
is_op (pos n) = n == add_path_op || n == remove_path_op
is_op (negsuc n) = false

add_step : Kernel → Table → Bytes → ℕ → ℕ → Table × ℤ
add_step k t p dentry op = if has op add_path_op then add_path k t (some p) dentry else (t, pos 0)

del_step : Kernel → Bytes → ℕ → Table × ℤ → Table × ℤ
del_step k p op (t, ret) = if has op remove_path_op then del_path k t (some p) else (t, ret)

module _ {P : Type 0} (k : Kernel) where
  pub change_entry : Monitor P → Bytes → ℕ → Lookup → Monitor P × ℤ
  unfolding add_step del_step
  change_entry m p op (failed n) = (m, negsuc n)
  change_entry m p op (found dentry) =
      let (t, ret) = del_step k p op (add_step k m.table p dentry op) in
      (record m { table = t }, ret)

  change_path_at : Monitor P → ℕ → Bytes × ℤ → Run (Monitor P × ℤ)
  change_path_at m op (b, ret) =
      if is_nonzero ret
      then ran (m, ret)
      else if forbitten_path m.single_file_name (some (c_string b))
      then ran (m, neg einval)
      else ran (change_entry m (c_string b) op (k.kern_path (c_string b)))

  -- The path stands in a buffer of PATH_MAX bytes.
  unfoldable pub do_change_path : Monitor P → Option Bytes → Option Bytes → ℤ → Run (Monitor P × ℤ)
  unfolding change_path_at
  do_change_path m the_pwd none op =
      if not (k.euid == m.admin) then ran (m, neg eperm) else ran (m, neg einval)
  do_change_path m the_pwd (some b) op =
      if not (k.euid == m.admin)
      then ran (m, neg eperm)
      else if not (is_op op)
      then ran (m, neg einval)
      else if is_nonzero (check_pwd k m the_pwd)
      then ran (m, neg eacces)
      else if not (m.current_state == rec_off || m.current_state == rec_on)
      then ran (m, neg ecanceled)
      else fill_absolute_path k b >>= change_path_at m (to_ulong op)

module _ {P : Type 0} where
  unfoldable pub store_digest : Monitor P → ℤ × Option Bytes → Monitor P × ℤ
  store_digest m (ret, none) = (m, ret)
  store_digest m (ret, some tmp) =
      if is_nonzero ret then (m, ret) else (record m { pwd = tmp }, ret)

  -- The second kernel answers the hash of the new password.
  unfoldable pub do_change_password :
      Kernel → Kernel → Monitor P → Option Bytes → Option Bytes → Monitor P × ℤ
  unfolding store_digest hash_plaintext
  do_change_password k k' m none new =
      if not (k.euid == m.admin) then (m, neg eperm) else (m, neg einval)
  do_change_password k k' m (some old) none =
      if not (k.euid == m.admin) then (m, neg eperm) else (m, neg einval)
  do_change_password k k' m (some old) (some new) =
      if not (k.euid == m.admin)
      then (m, neg eperm)
      else if leb (length new) 8
      then (m, neg einval)
      else if same old new
      then (m, neg einval)
      else if is_nonzero (check_pwd k m (some old))
      then (m, neg einval)
      else store_digest m (hash_plaintext k' m.salt (some []) (some new))
