-- ===== src/Hooks/DirAudit.antt =====
-- reference-monitor/lib/reference_hooks.c: the denials and the records of the hooks of directories.
use aos_project.Base.{ℕ, false, not, Option, none, some, if-cases, ℤ, pos, neg, is_nonzero, enomem}
use aos_project.CString.{Bytes}
use aos_project.Kernel.{
  Kernel, set_inode, Inode, Inodes, Run, ran, ◌>>=◌, mkdir_buffer, unlink_buffer,
}
use aos_project.RestrictList.{Table, check_black_list}
use aos_project.PathSolver.{mark_inode_read_only}
use aos_project.Hooks.{
  Hook, pass, OpenCall, pre_do_filp_open_handler, mark_immutable, mark_dentry, path_of,
  judge_dentry, check_dentry, check_parent, returning, pre_vfs_mk_rmdir_handler,
  pre_vfs_unlink_handler,
}
use aos_project.Hooks.Audit.{
  Holds, Holds->>=, anything, IsAudited, pass-zero, deny_dir-IsAudited, open-IsAudited,
}

mark_dentry-IsAudited :
    (k : Kernel) (mark : Inode → Inode) (inodes : Inodes) (i : Option ℕ)
    → Holds (IsAudited k) (mark_dentry k mark inodes i)
unfolding mark_dentry
mark_dentry-IsAudited k mark inodes none = tt
mark_dentry-IsAudited k mark inodes (some i) =
    deny_dir-IsAudited k (set_inode inodes i (mark (inodes i)))

check_dentry-IsAudited :
    (k : Kernel) (mark : Inode → Inode) (t : Table) (d : ℕ) (rest : Run Hook)
    → Holds (IsAudited k) rest
    → Holds (IsAudited k) (check_dentry k mark t d rest)
unfolding check_dentry judge_dentry
check_dentry-IsAudited k mark t d rest h =
    Holds->>= (λ r. Unit) (IsAudited k) (check_black_list k t (some (path_of k d)) false)
      (judge_dentry k mark t d rest) (anything _)
      (λ ret u.
        if-cases (Holds (IsAudited k)) (is_nonzero ret) rest
          (mark_dentry k mark t.inodes (k.d_inode d)) (λ e. h)
          (λ e. mark_dentry-IsAudited k mark t.inodes (k.d_inode d)))

check_parent-IsAudited :
    (k : Kernel) (mark : Inode → Inode) (t : Table) (parent : Option ℕ)
    → Holds (IsAudited k) (check_parent k mark t parent)
unfolding check_parent
check_parent-IsAudited k mark t none = pass-zero k t.inodes
check_parent-IsAudited k mark t (some d) =
    check_dentry-IsAudited k mark t d _ (pass-zero k t.inodes)

abbrev pub FirstIsAudited : Kernel → Hook × ℤ → Type 0
FirstIsAudited k r = IsAudited k r.0

returning-IsAudited :
    (k : Kernel) (v : ℤ) (r : Run Hook)
    → Holds (IsAudited k) r
    → Holds (FirstIsAudited k) (r >>= (λ h. ran (h, v)))
returning-IsAudited k v r h = Holds->>= (IsAudited k) (FirstIsAudited k) r _ h (λ a q. q)

-- The same as for an open, for the hook of vfs_mkdir and vfs_rmdir.
pub mk_rmdir-IsAudited :
    (k : Kernel) (t : Table) (dentry : Option ℕ)
    → Holds (FirstIsAudited k) (pre_vfs_mk_rmdir_handler k t dentry)
unfolding pre_vfs_mk_rmdir_handler
mk_rmdir-IsAudited k t none =
    if-cases (Holds (FirstIsAudited k)) (not (k.allocates mkdir_buffer))
      (ran (pass t.inodes (pos 0), neg enomem)) (ran (pass t.inodes (pos 0), pos 0))
      (λ e. pass-zero k t.inodes) (λ e. pass-zero k t.inodes)
mk_rmdir-IsAudited k t (some dentry) =
    let checked = check_parent k mark_inode_read_only t (k.d_parent dentry) in
    if-cases (Holds (FirstIsAudited k)) (not (k.allocates mkdir_buffer))
      (ran (pass t.inodes (pos 0), neg enomem)) (returning (pos 0) checked)
      (λ e. pass-zero k t.inodes)
      (λ e.
        returning-IsAudited k (pos 0) checked
          (check_parent-IsAudited k mark_inode_read_only t (k.d_parent dentry)))

-- The same for vfs_unlink.
pub unlink-IsAudited :
    (k : Kernel) (t : Table) (dentry : Option ℕ)
    → Holds (FirstIsAudited k) (pre_vfs_unlink_handler k t dentry)
unfolding pre_vfs_unlink_handler
unlink-IsAudited k t none =
    if-cases (Holds (FirstIsAudited k)) (not (k.allocates unlink_buffer))
      (ran (pass t.inodes (pos 0), neg enomem)) (ran (pass t.inodes (pos 0), pos 0))
      (λ e. pass-zero k t.inodes) (λ e. pass-zero k t.inodes)
unlink-IsAudited k t (some dentry) =
    let parent = check_parent k mark_immutable t (k.d_parent dentry) in
    let checked = check_dentry k mark_immutable t dentry parent in
    if-cases (Holds (FirstIsAudited k)) (not (k.allocates unlink_buffer))
      (ran (pass t.inodes (pos 0), neg enomem)) (returning (pos 0) checked)
      (λ e. pass-zero k t.inodes)
      (λ e. returning-IsAudited k (pos 0) checked (
        check_dentry-IsAudited k mark_immutable t dentry parent
          (check_parent-IsAudited k mark_immutable t (k.d_parent dentry))))

-- Where the handler before do_filp_open, before vfs_mkdir and vfs_rmdir, or before vfs_unlink comes to an
-- end, whatever it is called with and whatever the kernel answers, `hook_error` is -EACCES and what
-- is queued is what defer_top_half, which has come to an end, queues for the current task, which may
-- be nothing; or `hook_error` is another and nothing is queued.
pub hooks-IsAudited :
    (k : Kernel) (log : Bytes) (t : Table) (c : OpenCall) (dentry : Option ℕ)
    → Holds (IsAudited k) (pre_do_filp_open_handler k log t c)
      × Holds (FirstIsAudited k) (pre_vfs_mk_rmdir_handler k t dentry)
      × Holds (FirstIsAudited k) (pre_vfs_unlink_handler k t dentry)
hooks-IsAudited k log t c dentry =
    (open-IsAudited k log t c, mk_rmdir-IsAudited k t dentry, unlink-IsAudited k t dentry)
