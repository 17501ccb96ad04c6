-- ===== src/Lib.antt =====
-- A model of the reference monitor and of the file system for its log.
--
-- The monitor is a kernel module that protects a list of paths. The parts and their files:
--   Hash: reference-monitor/lib/reference_hash.c (generate_salt, salt_text, hash_plaintext).
--   RestrictList: reference-monitor/lib/reference_rcu_restrict_list.c (is_path_in, add_path,
--     del_path, restore_black_list_entries, forbitten_path, check_black_list).
--   PathSolver: reference-monitor/lib/reference_path_solver.c.
--   Syscalls: reference-monitor/lib/reference_syscalls.c (check_pwd, do_change_state,
--     do_change_path, do_change_password).
--   Hooks: reference-monitor/lib/reference_hooks.c, the handlers before and after do_filp_open,
--     vfs_mkdir, vfs_rmdir and vfs_unlink.
--   CommandLine, Vfs: reference-monitor/lib/reference_path_based_syscall.c, the same operations as
--     text written to a proc file (syscall_proc_write), and the list of the paths read from it
--     (syscall_proc_read).
--   UserLib: user/lib/ref_syscall.c, which writes that text, and makes the calls by number.
--     UserLib/Numbers reads the numbers, UserLib/Calls makes the calls, UserLib/Send sends the text;
--     UserLib/Installed has them on a machine with the module loaded.
--   Admin: user/admin.c, the administrator's program over that library; Admin/Script says what a
--     text on its input asks for.
--   Defer: reference-monitor/lib/reference_defer.c, the record of a denied access (defer_top_half,
--     defer_bottom_half), from a hook to the line in the log.
--   Entry: the system calls of reference-monitor/reference_monitor.c; Load: its
--     reference_monitor_init and reference_monitor_cleanup.
--   System: any sequence of system calls, writes to the proc file and hooks; System/Spec says
--     what one step may do to the state, the password and the paths, System/Policy what the caller
--     of the step must show for it; System/Protect joins an addition and a later open.
--   SingleFile: singlefile-FS/file.c and singlefile-FS/dir.c, the file system with the log;
--     SingleFile/Contents has it as a string of bytes, and Defer/History the log as its lines.
--   Volume: singlefile-FS/singlefilemakefs.c (main), singlefilefs_fill_super of
--     singlefile-FS/singlefilefs_src.c, onefilefs_lookup of file.c; Volume/Driver: a mount, and the
--     start and end of the module, of singlefilefs_src.c.
--   FunctionalityTest: test/functionality_test.c, its tests run on the model of the monitor.
--   Base, CString, Decimal, Kernel: lists and integers, string.h, `%d`, and what is taken from the
--     kernel.
--   Tests: concrete runs.
-- The files below a part hold its theorems.
--
-- The state of the monitor is the record Syscalls.Monitor: the globals current_state, pwd, salt,
-- admin and single_file_name, the list with the inodes that the module writes (RestrictList.Table),
-- and the kretprobes. Load.Machine adds what loading changes in the kernel: the system call table,
-- the proc entries and the work queue. The log is SingleFile.FileState: the blocks of the device and
-- the size in the inode in memory. An operation maps the state and its arguments to the new state
-- and the result; errors are negative results, as in the sources. Code that may read through NULL or
-- through freed memory, or write past an array, gives Kernel.Run, with `oops` for that. A hook that
-- denies an access calls Defer.defer_top_half, and leaves in Hooks.Hook what that has queued; where
-- it faults, the hook does. A buffer is the list of all its bytes, and its string what stands before
-- the first NUL.
--
-- Kernel services (the current task, kern_path, dentry_path_raw, allocation, the crypto calls,
-- inodes of dentries, kretprobes, sb_bread, copies from and to the user, files that the worker
-- opens, registration) are fields of Kernel.Kernel, Syscalls.Kprobes, SingleFile.Device,
-- Defer.Files, Load.Loader, Volume.Mounter, Volume.Tool and Volume.Driver.FileSystems; each call is
-- given the services as they answer during that call. Uninitialised memory is a field as well:
-- Kernel.stale for kmalloc, Kernel.stack_err and Kernel.stack_behind for the stack,
-- Kernel.freed_intact for what has been freed; the arrays of the administrator's program are an
-- argument. `syscall` is an argument of UserLib, and the library and the two files that the program
-- reads are the record Admin.Services.
--
-- The loop of onefilefs_write runs on fuel; each round writes a byte at least, so the length of the
-- write is enough, which the theorem on onefilefs_write shows. `%d` prints ten digits at most, which
-- is enough for an int. The loop of the administrator's program runs on fuel, a unit for each
-- command; the theorem on sessions says how much is enough, and another one that no fuel is where
-- the input ends early. The loop that prints the list has a unit for each byte. All other loops are
-- structural; SingleFile.ReadAll.read_all is no code of the repository but a reader that calls
-- onefilefs_read, on as many rounds as it is given. Positions and counts of a write are taken by
-- their 64 bits and wrap around. A position with the highest bit set is negative in the code, where
-- its division rounds the other way; the kernel cuts a write at less than 2 ^ 31 bytes, and the
-- theorems ask for an end below 2 ^ 63, below 2 ^ 64 where only the size is concerned, or for a
-- limit of at most 2 ^ 42 bytes, below which block numbers fit an int.
--
-- Not modelled: locks, RCU and reference counts (an operation is one step, and the worker runs when
-- it has been queued), the discovery of the system call table (System_call_discover and
-- reference-monitor/lib/scth.c), which is a copy of another author's project (what it finds is a
-- field of Load.Loader, and the text of free_entries an argument of UserLib), the kernel's part of a
-- mount and of the registration of the file system, prompts and the wording of messages, the stress
-- test, the build without locks.
pub mod Base
pub mod CString
pub mod Decimal
pub mod Kernel
pub mod Hash
pub mod RestrictList
pub mod PathSolver
pub mod Syscalls
pub mod Hooks
pub mod CommandLine
pub mod Vfs
pub mod UserLib
pub mod Admin
pub mod FunctionalityTest
pub mod System
pub mod Load
pub mod Defer
pub mod SingleFile
pub mod Volume
pub mod Tests
pub mod Entry
