-- ===== src/Hooks/Dirs.antt =====
-- What the hooks of vfs_mkdir, vfs_rmdir and vfs_unlink do.
use aos_project.Base.{ℕ, Option, ◌≡◌, refl, ◌⊎◌, true, false, some, arith, ℤ, pos, neg, eacces}
use aos_project.Kernel.{Inode, set_inode, Kernel, mkdir_buffer, unlink_buffer, Run, ran}
use aos_project.Defer.{WorkData, defer_top_half}
use aos_project.RestrictList.{Table}
use aos_project.RestrictList.Membership.{Listed, PositiveLookup, check_black_list_decides}
use aos_project.PathSolver.{mark_inode_read_only}
use aos_project.Hooks.{
  Hook, pass, denied, deny_dir, returning, mark_immutable, path_of, check_dentry,
  pre_vfs_mk_rmdir_handler, pre_vfs_unlink_handler, post_dir_handler,
}

module _ (k : Kernel) (t : Table) where
  -- A dentry is listed if its path is.
  abbrev pub ListedDentry : ℕ → Type 0
  ListedDentry d = Listed (path_of k d) t.restrict_path_list

  check_dentry_listed :
      (mark : Inode → Inode) (d i : ℕ) (rest : Run Hook)
      → PositiveLookup k (path_of k d)
      → ListedDentry d
      → k.d_inode d ≡ some i
      → check_dentry k mark t d rest ≡ deny_dir k (set_inode t.inodes i (mark (t.inodes i)))
  unfolding check_dentry
  check_dentry_listed mark d i rest pl l e =
      ground (arith, check_black_list_decides k t (path_of k d) false pl)

  check_dentry_free :
      (mark : Inode → Inode) (d : ℕ) (rest : Run Hook)
      → PositiveLookup k (path_of k d)
      → ¬ ListedDentry d
      → check_dentry k mark t d rest ≡ rest
  unfolding check_dentry
  check_dentry_free mark d rest pl l =
      ground (arith, check_black_list_decides k t (path_of k d) false pl)

  module _ (d parent : ℕ) (has_parent : k.d_parent d ≡ some parent)
      (lookup : PositiveLookup k (path_of k parent)) where
    -- mkdir and rmdir in a listed directory whose dentry and lookup have an inode, with memory
    -- for the buffer, by a task for which defer_top_half comes to its end: its inode becomes
    -- read-only, what defer_top_half has queued is queued, and the caller gets -EACCES.
    pub mk_rmdir_denied :
        (i : ℕ) (ax : ℤ) (work : Option WorkData)
        → k.allocates mkdir_buffer ≡ true
        → ListedDentry parent
        → k.d_inode parent ≡ some i
        → defer_top_half k k.current ≡ ran work
        → (h : Hook) × (pre_vfs_mk_rmdir_handler k t (some d) ≡ ran (h, pos 0))
          × (h.inodes ≡ set_inode t.inodes i (mark_inode_read_only (t.inodes i)))
          × (h.deferred ≡ work)
          × (post_dir_handler h ax ≡ neg eacces)
    unfolding pre_vfs_mk_rmdir_handler post_dir_handler deny_dir
    mk_rmdir_denied i ax work a l e q =
        let marked = set_inode t.inodes i (mark_inode_read_only (t.inodes i)) in
        let passes : Run Hook = ran (pass t.inodes (pos 0)) in
        let denies = check_dentry_listed mark_inode_read_only parent i passes lookup l e in
        (denied marked false work, rw (a, has_parent, denies, q) refl, refl, refl, refl)

    -- In a directory that is not listed, with memory for the buffer, the hook changes nothing,
    -- and yet the return handler replaces whatever vfs_mkdir or vfs_rmdir answered, an error
    -- included, by 0.
    pub mk_rmdir_clobbers :
        (ax : ℤ)
        → k.allocates mkdir_buffer ≡ true
        → ¬ ListedDentry parent
        → (h : Hook) × (pre_vfs_mk_rmdir_handler k t (some d) ≡ ran (h, pos 0))
          × (h ≡ pass t.inodes (pos 0))
          × (post_dir_handler h ax ≡ pos 0)
    unfolding pre_vfs_mk_rmdir_handler post_dir_handler
    mk_rmdir_clobbers ax a l = (
      pass t.inodes (pos 0),
      ground (
        arith,
        has_parent,
        check_dentry_free mark_inode_read_only parent (ran (pass t.inodes (pos 0))) lookup l,
      ),
      refl,
      refl,
    )

    -- unlink of a file with a parent, both with inodes that their lookups find, and with memory
    -- for the buffer: where the file's path is listed, its inode becomes read-only and the hook
    -- asks for -EACCES; where only the directory's path is, the same happens with the directory's
    -- inode; else nothing changes and the hook passes. A denial ends as defer_top_half does.
    pub unlink_decides :
        (i j : ℕ)
        → k.allocates unlink_buffer ≡ true
        → PositiveLookup k (path_of k d)
        → k.d_inode d ≡ some i
        → k.d_inode parent ≡ some j
        → ((pre_vfs_unlink_handler k t (some d)
              ≡ returning (pos 0) (deny_dir k (set_inode t.inodes i (mark_immutable (t.inodes i)))))
            × ListedDentry d)
          ⊎ ((pre_vfs_unlink_handler k t (some d)
                ≡ returning
                    (pos 0)
                    (deny_dir k (set_inode t.inodes j (mark_immutable (t.inodes j)))))
              × (¬ ListedDentry d)
              × ListedDentry parent)
          ⊎ ((pre_vfs_unlink_handler k t (some d) ≡ ran (pass t.inodes (pos 0), pos 0))
              × (¬ ListedDentry d)
              × (¬ ListedDentry parent))
    unfolding pre_vfs_unlink_handler
    unlink_decides i j a pl e f = ground (
      arith,
      has_parent,
      check_black_list_decides k t (path_of k d) false pl,
      check_black_list_decides k t (path_of k parent) false lookup,
    )
