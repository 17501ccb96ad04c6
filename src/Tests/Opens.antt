-- ===== src/Tests/Opens.antt =====
-- Runs of the hooks.
use aos_project.Base.{◌≡◌, refl, ◌⊎◌, inl, inr, true, some, ◌++◌, arith, pos, neg, eacces}
use aos_project.CString.{same, same_n, c_string, zeros}
use aos_project.Kernel.{found, set_inode, ran}
use aos_project.Tests.Fixtures.{
  dir, rel, file, log, lookup, lookup-inode_at, kernel, plain_inode, inodes, empty_table, table,
  dir_table, file-NoNul,
}
use aos_project.RestrictList.Membership.{Blacklisted}
use aos_project.PathSolver.{mark_inode_read_only}
use aos_project.Defer.{WorkData, queue_path, defer_top_half}
use aos_project.Defer.Attempt.{work_of}
use aos_project.Hooks.Copied.{pre_do_filp_open_handler_memory}
use aos_project.Hooks.{
  Hook, OpenCall, pass, returning, denied, deny_dir, mark_immutable, path_of,
  pre_do_filp_open_handler, pre_vfs_mk_rmdir_handler, pre_vfs_unlink_handler,
  reference_kret_handler, post_dir_handler,
}
use aos_project.Hooks.Absolute.{OpensAbsolute, open_listed_file, open_other_file}
use aos_project.Hooks.Dirs.{ListedDentry, mk_rmdir_denied, unlink_decides}
use aos_project.RestrictList.{forbitten_path}

-- Opening the file for writing: O_WRONLY.
abbrev pub write_open : OpenCall
write_open = record {
  name = some file;
  has_uptr = true;
  copy_ret = pos 0;
  user = file ++ zeros 3;
  open_flag = 1;
}

pub write_open-OpensAbsolute : OpensAbsolute kernel log write_open rel file 2
unfolding forbitten_path same same_n
write_open-OpensAbsolute = record {
  named = refl;
  allowed = refl;
  uptr = refl;
  memory = refl;
  copied = refl;
  user = refl;
  no_nul = file-NoNul;
  long = omega arith;
  plain = refl;
  full_no_nul = file-NoNul;
  resolves = record { dentry = 7; lookup = refl; memory = refl; raw = refl };
}

pub found_file : lookup file ≡ found 7
unfolding same
found_file = refl

-- What is queued for the current task.
abbrev pub the_work : WorkData
the_work = work_of kernel kernel.current file

pub the_task-queued : defer_top_half kernel kernel.current ≡ ran (some the_work)
unfolding defer_top_half queue_path
the_task-queued = refl

open_listed_file_example :
    (h : Hook) × (pre_do_filp_open_handler kernel log table write_open ≡ ran h)
    × (h ≡ denied (set_inode inodes 70 (mark_inode_read_only plain_inode)) true (some the_work))
    × (reference_kret_handler h (pos 3) ≡ neg eacces)
open_listed_file_example =
    open_listed_file kernel log table write_open rel file 2 write_open-OpensAbsolute 7 70 found_file
      refl (pos 3) (some the_work) (inl (inl refl)) refl the_task-queued

not_listed : ¬ Blacklisted kernel empty_table file true
not_listed (inl x) = x
not_listed (inr (o, d, i, e, f, x)) = x

open_other_file_example :
    (h : Hook) × (pre_do_filp_open_handler kernel log empty_table write_open ≡ ran h)
    × (h ≡ pass inodes (pos 0))
    × (reference_kret_handler h (pos 3) ≡ pos 3)
open_other_file_example =
    open_other_file kernel log empty_table write_open rel file 2 write_open-OpensAbsolute 7 70
      found_file refl (pos 3) (inl not_listed)

dir_listed : ListedDentry kernel dir_table 6
unfolding c_string path_of
dir_listed = inl refl

-- Creating or removing something in the listed directory.
mk_rmdir_denied_example :
    (h : Hook) × (pre_vfs_mk_rmdir_handler kernel dir_table (some 7) ≡ ran (h, pos 0))
    × (h.inodes ≡ set_inode inodes 60 (mark_inode_read_only plain_inode))
    × (h.deferred ≡ some the_work)
    × (post_dir_handler h (pos 0) ≡ neg eacces)
mk_rmdir_denied_example =
    mk_rmdir_denied kernel dir_table 7 6 refl (lookup-inode_at (path_of kernel 6)) 60 (pos 0)
      (some the_work) refl dir_listed refl the_task-queued

unlink_decides_example :
    ((pre_vfs_unlink_handler kernel table (some 7)
        ≡ returning (pos 0) (deny_dir kernel (set_inode inodes 70 (mark_immutable plain_inode))))
      × ListedDentry kernel table 7)
    ⊎ ((pre_vfs_unlink_handler kernel table (some 7)
          ≡ returning (pos 0) (deny_dir kernel (set_inode inodes 60 (mark_immutable plain_inode))))
        × (¬ ListedDentry kernel table 7)
        × ListedDentry kernel table 6)
    ⊎ ((pre_vfs_unlink_handler kernel table (some 7) ≡ ran (pass inodes (pos 0), pos 0))
        × (¬ ListedDentry kernel table 7)
        × (¬ ListedDentry kernel table 6))
unlink_decides_example =
    unlink_decides kernel table 7 6 refl (lookup-inode_at (path_of kernel 6)) 70 60 refl
      (lookup-inode_at (path_of kernel 7)) refl refl

-- The same bytes in the user's memory, with another name in the kernel.
abbrev other_open : OpenCall
other_open = record write_open { name = some dir }

pre_do_filp_open_handler_memory_example :
    pre_do_filp_open_handler kernel log table write_open
    ≡ pre_do_filp_open_handler kernel log table other_open
unfolding forbitten_path same same_n
pre_do_filp_open_handler_memory_example =
    pre_do_filp_open_handler_memory kernel log table write_open other_open file dir
      (record { named = refl; outside = refl; pointer = refl; copied = refl })
      (record { named = refl; outside = refl; pointer = refl; copied = refl }) refl refl
