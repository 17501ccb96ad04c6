-- ===== src/Hooks.antt =====
-- reference-monitor/lib/reference_hooks.c: the handlers at the entry and the return of do_filp_open,
-- vfs_mkdir, vfs_rmdir and vfs_unlink.
use aos_project.Base.{
  ℕ, zero, suc, ◌+◌, ◌-◌, ◌*◌, ◌/◌, ◌%◌, ◌^◌, ◌≤◌, ◌<◌, min, max, bit_and, bit_or, ◌≡◌, refl, sym,
  ap, ◌∙◌, fun_ext, ◌≢◌, ◌↔◌, ◌⊎◌, inl, inr, Bool, true, false, not, ◌&&◌, ◌||◌, Option, none, some,
  List, [], ◌∷◌, ◌++◌, map, append-nil, append_assoc, arith, ltb, leb, ◌==◌, if◌then◌else◌, ltb→lt,
  ltb→le, ==→eq, ==_iff, ==-self, Bool-cases, Option-cases, length, get_elem?, get_or, set, take,
  drop, replicate, All, AnyOf, length-append, length-take, length-drop, length-replicate,
  take-append, drop-append, take_at, drop_at, take_split, drop_split, set_at, get_or_at,
  take_of_length-le, drop_of_length-le, take-append-drop, drop-nil, drop-replicate, ℤ, pos, negsuc,
  neg, is_nonzero, is_negative, eperm, enoent, eio, ebadf, enomem, eacces, efault, eexist, einval,
  efbig, ebadmsg, ecanceled,
}
use aos_project.Base.Bits.{has, and_zero, and_assoc, and_self, or-and}
use aos_project.CString.{
  Bytes, strncmp, strcmp, is_zero, same, same_n, same_iff, same_n_iff, same_self, same_n_self,
  same_n-length-append, same_n-length-prefix, c_string, NoNul, zeros, overwrite, c_string-append,
  c_string-zeros, c_string-NoNul, c_string_of_NoNul, strncmp_iff, c_string-zero,
  c_string-drop-zeros, drop-zeros-append, zeros-append, NoNul-append,
}
pub mod Open
pub mod Copied
pub mod Absolute
pub mod Dirs
pub mod Audit
pub mod DirAudit
use aos_project.Kernel.{
  Inode, Inodes, set_inode, Kernel, open_buffer, mkdir_buffer, unlink_buffer, Run, ran, oops, ◌>>=◌,
}
use aos_project.Defer.{WorkData, defer_top_half}
use aos_project.RestrictList.{Table, forbitten_path, check_black_list}
use aos_project.PathSolver.{
  path_max, s_immutable, get_parent_path, fill_absolute_path, fill_with_swap_filter,
  fill_path_by_dentry, mark_inode_read_only, mark_inode_read_only_by_pathname,
}

-- `asm-generic/fcntl.h`
abbrev pub o_creat : ℕ
o_creat = 0o100

-- O_RDWR | O_WRONLY | O_TRUNC | O_APPEND
abbrev pub write_mask : ℕ
write_mask = 0o2 + 0o1 + 0o1000 + 0o2000

-- What a handler leaves: the inodes, `hook_error`, the work that was queued, and whether the first
-- argument of the probed call was overwritten by -1.
pub record Hook : Type 0 where
  pub inodes : Inodes
  pub hook_error : ℤ
  pub deferred : Option WorkData
  pub poisoned : Bool

abbrev pub pass : Inodes → ℤ → Hook
pass inodes e = record { inodes = inodes; hook_error = e; deferred = none; poisoned = false }

-- What is left once `defer_top_half` has come to its end, with what it has queued.
abbrev pub denied : Inodes → Bool → Option WorkData → Hook
denied inodes poisoned work = record {
  inodes = inodes;
  hook_error = neg eacces;
  deferred = work;
  poisoned = poisoned;
}

-- `do_filp_open_defer_work`
unfoldable pub deny_open : Kernel → Inodes → Run Hook
deny_open k inodes = defer_top_half k k.current >>= (λ work. ran (denied inodes true work))

-- `store_thread_info_mkrmdir_unlink`, with `hook_error` set before it
unfoldable pub deny_dir : Kernel → Inodes → Run Hook
deny_dir k inodes = defer_top_half k k.current >>= (λ work. ran (denied inodes false work))

-- The arguments of do_filp_open. `user` is what PATH_MAX bytes of the buffer hold after the copy.
pub record OpenCall : Type 0 where
  pub name : Option Bytes
  pub has_uptr : Bool
  pub copy_ret : ℤ
  pub user : Bytes
  pub open_flag : ℕ

-- How the path of an open is resolved: give up with this `hook_error`, or go on with a buffer and the
-- flags `is_dir` and `is_swap`.
pub data Resolution : Type 0 where
  stop : ℤ → Resolution
  go : Bytes → Bool → Bool → Resolution

after_parent : Bytes × ℤ → Resolution
after_parent (b, pos zero) = go b true false
after_parent (b, pos (suc n)) = stop (pos 0)
after_parent (b, negsuc n) = stop (if suc n == enomem then neg enomem else pos 0)

after_fill : Kernel → Bytes × ℤ → Run Resolution
unfolding after_parent
after_fill k (b, pos n) = ran (go b false (n == 1))
after_fill k (b, negsuc n) =
    if suc n == enomem
    then ran (stop (neg enomem))
    else if suc n == enoent
    then fill_absolute_path k (get_parent_path b) >>= (λ r. ran (after_parent r))
    else ran (go b false false)

unfoldable pub resolve_open : Kernel → Bytes → Run Resolution
unfolding after_fill
resolve_open k buffer = fill_with_swap_filter k buffer >>= after_fill k

mark_and_deny : Kernel → Inodes × ℤ → Run Hook
mark_and_deny k (inodes, ret) =
    if is_nonzero ret then ran (pass inodes (pos 0)) else deny_open k inodes

judge_open : Kernel → Table → ℕ → Bytes → Bool → Bool → ℤ → Run Hook
unfolding mark_and_deny
judge_open k t flags p is_dir is_swap ret =
    let marked : Run Hook = mark_inode_read_only_by_pathname k t.inodes p >>= mark_and_deny k in
    if is_nonzero ret
    then ran (pass t.inodes (pos 0))
    else if is_dir && has flags o_creat
    then marked
    else if is_swap
    then deny_open k t.inodes
    else if has flags write_mask
    then marked
    else ran (pass t.inodes (pos 0))

unfoldable pub finish_open : Kernel → Table → ℕ → Resolution → Run Hook
unfolding judge_open
finish_open k t flags (stop e) = ran (pass t.inodes e)
finish_open k t flags (go b is_dir is_swap) =
    check_black_list k t (some (c_string b)) true
    >>= judge_open k t flags (c_string b) is_dir is_swap

-- The buffer: the user's bytes, or the kernel's copy of the name.
abbrev pub open_buffer_of : Bytes → OpenCall → Bytes
open_buffer_of name c = if is_negative c.copy_ret then overwrite name (zeros path_max) else c.user

-- The second argument is `single_file_name`. The handler returns 0 on every path.
unfoldable pub pre_do_filp_open_handler : Kernel → Bytes → Table → OpenCall → Run Hook
pre_do_filp_open_handler k log t c = elim c.name [
  | none ↦ ran (pass t.inodes (pos 0))
  | some name ↦
      if forbitten_path log (some name)
      then ran (pass t.inodes (pos 0))
      else if not c.has_uptr
      then ran (pass t.inodes (pos 0))
      else if not (k.allocates open_buffer)
      then ran (pass t.inodes (neg enomem))
      else resolve_open k (open_buffer_of name c) >>= finish_open k t c.open_flag
]

-- `i_flags |= S_IMMUTABLE` before the call of `mark_inode_read_only`
abbrev pub mark_immutable : Inode → Inode
mark_immutable i = mark_inode_read_only (record i { i_flags = bit_or i.i_flags s_immutable })

-- The inode of a dentry is marked through its pointer.
mark_dentry : Kernel → (Inode → Inode) → Inodes → Option ℕ → Run Hook
mark_dentry k mark inodes none = oops
mark_dentry k mark inodes (some i) = deny_dir k (set_inode inodes i (mark (inodes i)))

-- The path that `fill_path_by_dentry` leaves in a zeroed buffer.
unfoldable pub path_of : Kernel → ℕ → Bytes
unfolding fill_path_by_dentry
path_of k d = c_string (fill_path_by_dentry k (some d) (zeros path_max)).0

judge_dentry : Kernel → (Inode → Inode) → Table → ℕ → Run Hook → ℤ → Run Hook
unfolding mark_dentry
judge_dentry k mark t d rest ret =
    if is_nonzero ret then rest else mark_dentry k mark t.inodes (k.d_inode d)

-- The test of a dentry against the list; the last argument is what follows where it is not listed.
check_dentry : Kernel → (Inode → Inode) → Table → ℕ → Run Hook → Run Hook
unfolding judge_dentry
check_dentry k mark t d rest =
    check_black_list k t (some (path_of k d)) false >>= judge_dentry k mark t d rest

check_parent : Kernel → (Inode → Inode) → Table → Option ℕ → Run Hook
unfolding check_dentry
check_parent k mark t none = ran (pass t.inodes (pos 0))
check_parent k mark t (some parent) = check_dentry k mark t parent (ran (pass t.inodes (pos 0)))

-- The hook, and the value that the handler returns.
abbrev pub returning : ℤ → Run Hook → Run (Hook × ℤ)
returning v r = r >>= (λ h. ran (h, v))

unfoldable pub pre_vfs_mk_rmdir_handler : Kernel → Table → Option ℕ → Run (Hook × ℤ)
unfolding check_parent
pre_vfs_mk_rmdir_handler k t none =
    if not (k.allocates mkdir_buffer)
    then ran (pass t.inodes (pos 0), neg enomem)
    else ran (pass t.inodes (pos 0), pos 0)
pre_vfs_mk_rmdir_handler k t (some dentry) =
    if not (k.allocates mkdir_buffer)
    then ran (pass t.inodes (pos 0), neg enomem)
    else returning (pos 0) (check_parent k mark_inode_read_only t (k.d_parent dentry))

unfoldable pub pre_vfs_unlink_handler : Kernel → Table → Option ℕ → Run (Hook × ℤ)
unfolding check_parent check_dentry
pre_vfs_unlink_handler k t none =
    if not (k.allocates unlink_buffer)
    then ran (pass t.inodes (pos 0), neg enomem)
    else ran (pass t.inodes (pos 0), pos 0)
pre_vfs_unlink_handler k t (some dentry) =
    if not (k.allocates unlink_buffer)
    then ran (pass t.inodes (pos 0), neg enomem)
    else returning (pos 0) (
        check_dentry k mark_immutable t dentry
          (check_parent k mark_immutable t (k.d_parent dentry)))

-- The value in `ax` after the return handlers.
unfoldable pub reference_kret_handler : Hook → ℤ → ℤ
reference_kret_handler h ax = if is_nonzero h.hook_error then h.hook_error else ax

unfoldable pub post_dir_handler : Hook → ℤ → ℤ
post_dir_handler h ax = h.hook_error
