-- ===== src/Load.antt =====
-- reference-monitor/reference_monitor.c: loading and unloading the module.
use aos_project.Base.{
  ℕ, zero, suc, ◌+◌, ◌-◌, ◌*◌, ◌/◌, ◌%◌, ◌^◌, ◌≤◌, ◌<◌, min, max, bit_and, bit_or, ◌≡◌, refl, sym,
  ap, ◌∙◌, fun_ext, ◌≢◌, ◌↔◌, ◌⊎◌, inl, inr, Bool, true, false, not, ◌&&◌, ◌||◌, Option, none, some,
  List, [], ◌∷◌, ◌++◌, map, append-nil, append_assoc, arith, ltb, leb, ◌==◌, if◌then◌else◌, ltb→lt,
  ltb→le, ==→eq, ==_iff, ==-self, Bool-cases, Option-cases, length, get_elem?, get_or, set, take,
  drop, replicate, All, AnyOf, length-append, length-take, length-drop, length-replicate,
  take-append, drop-append, take_at, drop_at, take_split, drop_split, set_at, get_or_at,
  take_of_length-le, drop_of_length-le, take-append-drop, drop-nil, drop-replicate, ℤ, pos, negsuc,
  neg, is_nonzero, is_negative, eperm, enoent, eio, ebadf, enomem, eacces, efault, eexist, einval,
  efbig, ebadmsg, ecanceled,
}
use aos_project.Base.Bits.{has, and_zero, and_assoc, and_self, or-and}
use aos_project.CString.{
  Bytes, strncmp, strcmp, is_zero, same, same_n, same_iff, same_n_iff, same_self, same_n_self,
  same_n-length-append, same_n-length-prefix, c_string, NoNul, zeros, overwrite, c_string-append,
  c_string-zeros, c_string-NoNul, c_string_of_NoNul, strncmp_iff, c_string-zero,
  c_string-drop-zeros, drop-zeros-append, zeros-append, NoNul-append,
}
pub mod Entries
pub mod States
pub mod Undo
pub mod Balance
pub mod Ready
pub mod Keeps
use aos_project.Kernel.{Kernel, Run, ran, oops}
use aos_project.Hash.{hash_plaintext, generate_salt}
use aos_project.RestrictList.{RcuRestrict, Table, restore_black_list_entries}
use aos_project.Syscalls.{Monitor, Kprobes}

-- HOOKS_SIZE
abbrev pub hooks_size : ℕ
hooks_size = 4

-- HACKED_ENTRIES
abbrev pub hacked_entries : ℕ
hacked_entries = 3

-- The handlers that the probes are given.
pub data EntryHandler : Type 0 where
  open_entry mk_rmdir_entry unlink_entry : EntryHandler

pub data PostHandler : Type 0 where
  kret_post dir_post : PostHandler

-- `target_functions[i]`, `entry_handlers[i]` and `post_handlers[i]`.
pub data TargetFunction : Type 0 where
  do_filp_open vfs_mkdir vfs_rmdir vfs_unlink : TargetFunction

pub record HookSpec : Type 0 where
  pub target : TargetFunction
  pub entry_handler : EntryHandler
  pub handler : PostHandler

abbrev pub hook_specs : List HookSpec
hook_specs =
    record { target = do_filp_open; entry_handler = open_entry; handler = kret_post }
    ∷ record { target = vfs_mkdir; entry_handler = mk_rmdir_entry; handler = dir_post }
    ∷ record { target = vfs_rmdir; entry_handler = mk_rmdir_entry; handler = dir_post }
    ∷ record { target = vfs_unlink; entry_handler = unlink_entry; handler = dir_post }
    ∷ []

-- What the kernel answers while the module is loaded: `uid_valid(0)`, random bytes, `get_entries` of
-- lib/scth.c (the entries and the address of sys_ni_syscall, or a result that is not 3), a new
-- probe or a negative result of `register_kretprobe`, and whether the entries of proc and the
-- work queue can be made.
pub record Loader (P : Type 0) : Type 0 where
  pub uid_valid : Bool
  pub random : Bytes
  pub get_entries : Option (List ℕ × ℕ)
  pub register_kretprobe : HookSpec → ℕ ⊎ P  -- inl n is -(n + 1)
  pub proc_mkdir : Bool
  pub proc_create : Bool
  pub create_singlethread_workqueue : Bool

-- What loading changes: the globals of the module (with the registered probes), the system call
-- table, the entries that were taken from it, the proc directory and file, the work queue.
pub record Machine (P : Type 0) : Type 0 where
  pub monitor : Monitor P
  pub sys_call_table : ℕ → ℕ
  pub restore : List ℕ
  pub the_ni_syscall : ℕ
  pub proc_folder : Bool
  pub proc_file : Bool
  pub deferred_queue : Bool

-- `((unsigned long *)the_syscall_table)[i] = v`
unfoldable pub set_entry : (ℕ → ℕ) → ℕ → ℕ → ℕ → ℕ
set_entry t i v j = if j == i then v else t j

-- The loop that installs `new_sys_call_array[i]` at `restore[i]`.
unfoldable pub install : (ℕ → ℕ) → List ℕ → List ℕ → ℕ → ℕ
unfolding set_entry
install t [] new = t
install t (i ∷ is) [] = t
install t (i ∷ is) (v ∷ vs) = install (set_entry t i v) is vs

-- The loop of `unload_syscall`.
unfoldable pub unload_syscall : (ℕ → ℕ) → List ℕ → ℕ → ℕ → ℕ
unfolding set_entry
unload_syscall t [] ni = t
unload_syscall t (i ∷ is) ni = unload_syscall (set_entry t i ni) is ni

-- `error_syscall_installed`
unfoldable pub undo_syscalls : {P : Type 0} → Machine P → Machine P
unfolding unload_syscall
undo_syscalls w = record w {
  sys_call_table = unload_syscall w.sys_call_table w.restore w.the_ni_syscall;
}

-- `error_kprobe_installed`
unfoldable pub undo_probes : {P : Type 0} → Machine P → Machine P
unfolding undo_syscalls
undo_probes w = undo_syscalls (record w { monitor = record w.monitor { probes = [] } })

module _ {P : Type 0} (kp : Kprobes P) (k : Kernel) (l : Loader P) where
  -- The loop over the hooks: the probes that are registered, disarmed, and the result. After a
  -- failure those registered before are gone.
  unfoldable pub register_probes : List HookSpec → List P → List P × ℤ
  register_probes [] probes = (probes, pos 0)
  register_probes (h ∷ hs) probes = elim (l.register_kretprobe h) [
    | inl n ↦ ([], negsuc n)
    | inr p ↦ register_probes hs (probes ++ kp.disable_kretprobe p ∷ [])
  ]

  -- From the proc directory on.
  unfoldable pub load_proc : Machine P → Machine P × ℤ
  unfolding undo_probes
  load_proc w =
      if not l.proc_mkdir
      then (undo_probes w, neg enomem)
      else if not l.proc_create
      then (undo_probes (record w { proc_folder = false }), neg enomem)
      else if not l.create_singlethread_workqueue
      then (undo_probes (record w { proc_folder = false; proc_file = false }), neg enomem)
      else (record w { proc_folder = true; proc_file = true; deferred_queue = true }, pos 0)

  -- From the probes on, with what `register_probes` gave.
  unfoldable pub load_probes : Machine P → List P × ℤ → Machine P × ℤ
  unfolding load_proc undo_syscalls
  load_probes w (probes, ret) =
      let w' = record w { monitor = record w.monitor { probes = probes } } in
      if is_negative ret then (undo_syscalls w', ret) else load_proc w'

  -- From the system calls on; `addresses` are those of the three system calls.
  unfoldable pub load_syscalls : List ℕ → Machine P → Option (List ℕ × ℕ) → Machine P × ℤ
  unfolding load_probes register_probes install
  load_syscalls addresses w none = (w, negsuc 0)
  load_syscalls addresses w (some (entries, ni)) =
      load_probes
        (record w {
          restore = entries;
          the_ni_syscall = ni;
          sys_call_table = install w.sys_call_table entries addresses;
        })
        (register_probes hook_specs [])

  -- The digest takes the place of the password.
  unfoldable pub load_password : List ℕ → Machine P → ℤ × Option Bytes → Machine P × ℤ
  unfolding load_syscalls
  load_password addresses w (ret, none) = (w, ret)
  load_password addresses w (ret, some digest) =
      if is_nonzero ret
      then (w, ret)
      else load_syscalls addresses (record w { monitor = record w.monitor { pwd = digest } })
          l.get_entries

  -- From the salt on.
  unfoldable pub load_salt : List ℕ → Machine P → ℤ × Bytes → Machine P × ℤ
  unfolding load_password generate_salt hash_plaintext
  load_salt addresses w (ret, salt) =
      let m = record w.monitor { salt = salt } in
      if is_nonzero ret
      then (w, ret)
      else load_password addresses (record w { monitor = m })
          (hash_plaintext k salt (some m.pwd) (some m.pwd))

  -- The system call table lies at the address that is the second argument.
  unfoldable pub reference_monitor_init : List ℕ → ℕ → Machine P → Machine P × ℤ
  unfolding load_salt generate_salt
  reference_monitor_init addresses the_syscall_table w0 =
      let w = record w0 { monitor = record w0.monitor { admin = 0 } } in
      if not l.uid_valid
      then (w, neg einval)
      else if ltb (length w.monitor.single_file_name) 4
      then (w, neg einval)
      else if the_syscall_table == 0
      then (w, neg einval)
      else if leb (length w.monitor.pwd) 8
      then (w, neg einval)
      else load_salt addresses w (generate_salt l.random)

-- The loop that deletes the list, with the number of entries that it has freed: it goes on from
-- the entry that it has freed last, through the pointer that the memory still holds or does not.
unfoldable pub free_entries : Kernel → ℕ → List RcuRestrict → Run (List RcuRestrict)
free_entries k n [] = ran []
free_entries k n (e ∷ l) =
    let rest = free_entries k (n + 1) l in if k.freed_intact n then rest else oops

-- `restore_black_list_entries`, then the loop over the entries.
unfoldable pub free_table : Kernel → Table → Run Table
unfolding free_entries restore_black_list_entries
free_table k t =
    let t' = (restore_black_list_entries k t).0 in
    elim (free_entries k 0 t'.restrict_path_list) [
      | ran l ↦ ran (record t' { restrict_path_list = l })
      | oops ↦ oops
    ]

unfoldable pub reference_monitor_cleanup : {P : Type 0} → Kernel → Machine P → Run (Machine P)
unfolding free_table unload_syscall
reference_monitor_cleanup k w = elim (free_table k w.monitor.table) [
  | ran t ↦ ran (record w {
    monitor = record w.monitor { table = t; probes = [] };
    proc_file = false;
    proc_folder = false;
    sys_call_table = unload_syscall w.sys_call_table w.restore w.the_ni_syscall;
    deferred_queue = false;
  })
  | oops ↦ oops
]
