-- ===== src/Tests/Works.antt =====
-- Runs of the deferred work.
use aos_project.Base.{
  ◌+◌, ◌<◌, ◌≡◌, refl, ap, ◌∙◌, inl, true, some, [], ◌∷◌, ◌++◌, arith, length, take, drop,
  length-append, length-take, pos,
}
use aos_project.CString.{Bytes, c_string, NoNul}
use aos_project.Tests.Fixtures.{file, log, kernel, inodes, table, toy_salt, plain_inode}
use aos_project.Kernel.{set_inode, ran}
use aos_project.Hash.{salted_digest, hex, length-hex}
use aos_project.PathSolver.{mark_inode_read_only}
use aos_project.Hooks.{
  Hook, denied, pre_do_filp_open_handler, pre_vfs_mk_rmdir_handler, pre_vfs_unlink_handler,
}
use aos_project.Hooks.Absolute.{open_listed_file}
use aos_project.Hooks.Audit.{IsAudited, Holds}
use aos_project.Hooks.DirAudit.{FirstIsAudited, hooks-IsAudited}
use aos_project.SingleFile.{FileState}
use aos_project.SingleFile.Positions.{IsWritten}
use aos_project.Defer.{defer_top_half, queue_path, WorkData, Opened, Files, contents_of}
use aos_project.Defer.Line.{HasIds, record_line-injective, length-record_line}
use aos_project.Defer.Log.{CanRecord, line_of}
use aos_project.Defer.Digest.{program}
use aos_project.Defer.Attempt.{HasProgram, work_of, after_hook, denied_open-recorded}
use aos_project.Defer.History.{Recorded, lines, run_works, IsLog, formatted_log-run_works}
use aos_project.SingleFile.Contents.{contents}
use aos_project.Volume.{makefs, disk_of, file_body}
use aos_project.Tests.Volumes.{
  tool, old_image, mounter, mounter-CanMount, tool_succeeds, tool_writes,
}
use aos_project.Tests.Opens.{write_open, write_open-OpensAbsolute, found_file}

-- "ELF" and a NUL, and two bytes behind it
abbrev head : Bytes
head = b'E' ∷ b'L' ∷ b'F' ∷ []

abbrev files : Files
files = record {
  filp_open = λ p. some (program (head ++ 0 ∷ b'a' ∷ b'b' ∷ []));
  opens_log = true;
  device = λ buf. record {
    sb_bread = λ n. true;
    copy_from_user = λ o n. (take n (drop o buf), 0);
    copy_to_user = λ n. 0;
    max_file_size = 100000;
  };
}

abbrev log_file : FileState
log_file = record { disk = λ n i. b'.'; i_size = 28 }

abbrev work : WorkData
work = work_of kernel kernel.current file

abbrev opened : Opened
opened = program (head ++ 0 ∷ b'a' ∷ b'b' ∷ [])

work-CanRecord : CanRecord kernel files work opened 6
unfolding c_string
work-CanRecord = record {
  ciphertext = refl;
  contents = refl;
  buffer = refl;
  opens = refl;
  reads = refl;
  log = refl;
  hash = record {
    salted = refl;
    desc = refl;
    alloc = refl;
    init = refl;
    update = λ s. refl;
    final = refl;
  };
  behind = refl;
}

task-HasProgram : HasProgram kernel kernel.current file
task-HasProgram = record {
  dentry = 7;
  block = refl;
  name = refl;
  mm = refl;
  exe_file = refl;
  path_name = refl;
  short = omega arith;
}

abbrev hook : Hook
hook = denied (set_inode inodes 70 (mark_inode_read_only plain_inode)) true (some work)

is_denied : pre_do_filp_open_handler kernel log table write_open ≡ ran hook
unfolding defer_top_half queue_path
is_denied =
    let (h, e, e', x) =
      open_listed_file kernel log table write_open (drop 1 file) file 2 write_open-OpensAbsolute 7
        70 found_file refl (pos 3) (some work) (inl (inl refl)) refl refl in
    e ∙ ap ran e'

length-line : length (line_of kernel toy_salt work opened) < 8192
unfolding hex
length-line =
    let digest = kernel.sha512 (contents_of kernel opened ++ toy_salt) in
    length-record_line work (salted_digest kernel toy_salt (contents_of kernel opened))
      (omega arith) (omega (arith, length-hex (take 64 digest), length-take 64 digest))

denied_open-recorded_example :
    let line = line_of kernel toy_salt work opened in
    let log' = after_hook kernel files toy_salt log_file hook in
    (log'.i_size ≡ 28 + length line) × IsWritten line 0 28 (length line) log_file.disk log'.disk
denied_open-recorded_example =
    denied_open-recorded kernel kernel files toy_salt log_file log table write_open hook file opened
      6 is_denied refl task-HasProgram work-CanRecord (λ o n h. refl) (λ n. refl)
      (omega (arith, length-line)) (omega arith)

hooks-IsAudited_example :
    Holds (IsAudited kernel) (pre_do_filp_open_handler kernel log table write_open)
    × Holds (FirstIsAudited kernel) (pre_vfs_mk_rmdir_handler kernel table (some 7))
    × Holds (FirstIsAudited kernel) (pre_vfs_unlink_handler kernel table (some 7))
hooks-IsAudited_example = hooks-IsAudited kernel log table write_open (some 7)

work-HasIds : HasIds work
work-HasIds = record {
  tgid = omega arith;
  tid = omega arith;
  uid = omega arith;
  euid = omega arith;
}

record_line-injective_example : (work ≡ work) × (head ≡ head)
record_line-injective_example =
    record_line-injective work work head head work-HasIds work-HasIds refl refl

abbrev innocent : WorkData
innocent = record work { uid = 0; path_name = b'/' ∷ b'x' ∷ [] }

head-NoNul : NoNul head
head-NoNul = ground arith

-- The same work, twice.
abbrev recorded : Recorded kernel files
recorded = record { work = work; file = opened; count = 6; can = work-CanRecord }

files-IsLog : IsLog kernel files toy_salt 100000
files-IsLog = record {
  copies = λ buf o n h. refl;
  reads = λ buf n. refl;
  limit = λ buf. refl;
  small = omega arith;
}

length-lines : 28 + length (lines kernel files toy_salt (recorded ∷ recorded ∷ [])) < 100000
length-lines =
    let l = line_of kernel toy_salt work opened in
    omega (arith, length-line, length-append l (l ++ []), length-append l [])

formatted_log-run_works_example :
    contents (
      run_works kernel files toy_salt
        (recorded ∷ recorded ∷ [])
        (record { disk = disk_of (makefs tool old_image).0; i_size = 28 }))
    ≡ file_body ++ lines kernel files toy_salt (recorded ∷ recorded ∷ [])
formatted_log-run_works_example =
    formatted_log-run_works kernel files toy_salt tool old_image mounter 100000
      (recorded ∷ recorded ∷ []) tool_writes tool_succeeds mounter-CanMount files-IsLog length-lines
