-- ===== src/Load/Balance.antt =====
-- reference-monitor/reference_monitor.c: a load that fails takes back what it has done.
use aos_project.Base.{
  ℕ, ◌≡◌, refl, ap, ◌≢◌, ◌⊎◌, inr, false, not, Option, none, some, List, [], arith, ltb, leb, ◌==◌,
  if-cases, length, take, All, AnyOf, ℤ, neg, is_nonzero, einval,
}
use aos_project.CString.{Bytes}
use mathlib.Core.Path.{subst}
use aos_project.Kernel.{Kernel}
use aos_project.Hash.{salt_length, hash_plaintext, generate_salt}
use aos_project.Syscalls.{Kprobes}
use aos_project.Load.{
  hook_specs, hooks_size, Loader, Machine, install, register_probes, load_syscalls, load_password,
  load_salt, reference_monitor_init,
}
use aos_project.Load.Entries.{
  negsuc-ne-zero, nonzero-ne-zero, hash_plaintext-some, unload-back, install-elsewhere,
}
use aos_project.Load.States.{IsIdle, EntriesAreFree, IsBalanced}
use aos_project.Load.Undo.{register_probes-AllOrNone, load_probes-IsBalanced}

module _ {P : Type 0} (kp : Kprobes P) (k : Kernel) (l : Loader P) (addresses : List ℕ) where
  -- The globals that loading sets before it touches the kernel.
  record IsUntouched (w0 w : Machine P) : Type 0 where
    table : w.sys_call_table ≡ w0.sys_call_table
    probes : w.monitor.probes ≡ []
    folder : w.proc_folder ≡ false
    file : w.proc_file ≡ false
    queue : w.deferred_queue ≡ false
    list : w.monitor.table ≡ w0.monitor.table
    state : w.monitor.current_state ≡ w0.monitor.current_state

  IsUntouched-IsIdle : (w0 w : Machine P) → IsUntouched w0 w → IsIdle w0 w
  IsUntouched-IsIdle w0 w u = record {
    table = λ j. ap (λ t. t j) u.table;
    probes = u.probes;
    folder = u.folder;
    file = u.file;
    queue = u.queue;
    list = u.list;
  }

  load_syscalls-IsBalanced :
      (w0 w : Machine P) (entries : Option (List ℕ × ℕ))
      → IsUntouched w0 w
      → ((es : List ℕ) (ni : ℕ) → entries ≡ some (es, ni) → All (λ i. w0.sys_call_table i ≡ ni) es)
      → IsBalanced kp k l addresses w0 (load_syscalls kp k l addresses w entries)
  unfolding load_syscalls
  load_syscalls-IsBalanced w0 w none u free = inr (negsuc-ne-zero 0, IsUntouched-IsIdle w0 w u)
  load_syscalls-IsBalanced w0 w (some (es, ni)) u free =
      load_probes-IsBalanced kp k l addresses w0
        (record w {
          restore = es;
          the_ni_syscall = ni;
          sys_call_table = install w.sys_call_table es addresses;
        })
        (register_probes kp k l hook_specs [])
        (record {
          installed = ap (λ t. install t es addresses) u.table;
          restorable = λ j.
              unload-back es w0.sys_call_table (install w.sys_call_table es addresses) ni j
                (free es ni refl)
                (subst
                  (λ t. (install w.sys_call_table es addresses j ≡ t j) ⊎ AnyOf (λ i. j ≡ i) es)
                  u.table (install-elsewhere es addresses w.sys_call_table j));
          folder = u.folder;
          file = u.file;
          queue = u.queue;
          list = u.list;
          state = u.state;
        })
        (register_probes-AllOrNone kp k l addresses hook_specs [] hooks_size tt (omega arith))

  load_password-IsBalanced :
      (w0 w : Machine P) (r : ℤ × Option Bytes)
      → IsUntouched w0 w
      → EntriesAreFree kp k l addresses w0
      → r.1 ≢ none
      → IsBalanced kp k l addresses w0 (load_password kp k l addresses w r)
  unfolding load_password
  load_password-IsBalanced w0 w (ret, none) u free h = absurd (h refl)
  load_password-IsBalanced w0 w (ret, some digest) u free h =
      if-cases (IsBalanced kp k l addresses w0) (is_nonzero ret) _ _
        (λ e. inr (nonzero-ne-zero ret e, IsUntouched-IsIdle w0 w u))
        (λ e.
          load_syscalls-IsBalanced w0 _ l.get_entries
            (record {
              table = u.table;
              probes = u.probes;
              folder = u.folder;
              file = u.file;
              queue = u.queue;
              list = u.list;
              state = u.state;
            })
            free)

  -- Loading returns 0 with everything of the module in the kernel and all hooks disarmed, or another
  -- result with nothing of it there: the system call table is as before, no probe is registered, and
  -- the proc entries and the work queue are gone. The entries that `get_entries` gives hold the
  -- address of sys_ni_syscall, and the module was not loaded before.
  pub reference_monitor_init-IsBalanced :
      (w0 : Machine P) (the_syscall_table : ℕ)
      → IsIdle w0 w0
      → EntriesAreFree kp k l addresses w0
      → IsBalanced kp k l addresses w0
          (reference_monitor_init kp k l addresses the_syscall_table w0)
  unfolding reference_monitor_init load_salt generate_salt
  reference_monitor_init-IsBalanced w0 a i free =
      if-cases (IsBalanced kp k l addresses w0) (not l.uid_valid) _ _ (λ e. early)
        (λ e.
          if-cases (IsBalanced kp k l addresses w0) (ltb (length w0.monitor.single_file_name) 4) _ _
            (λ e. early)
            (λ e.
              if-cases (IsBalanced kp k l addresses w0) (a == 0) _ _ (λ e. early)
                (λ e.
                  if-cases (IsBalanced kp k l addresses w0) (leb (length w0.monitor.pwd) 8) _ _
                    (λ e. early)
                    (λ e.
                      load_password-IsBalanced w0
                        (record w0 {
                          monitor = record w0.monitor {
                            admin = 0;
                            salt = take salt_length l.random;
                          };
                        })
                        (hash_plaintext k (take salt_length l.random) (some w0.monitor.pwd)
                          (some w0.monitor.pwd))
                        (u (take salt_length l.random)) free
                        (hash_plaintext-some k (take salt_length l.random) w0.monitor.pwd
                          (some w0.monitor.pwd))))))
    where
      u :
          (salt : Bytes)
          → IsUntouched w0 (record w0 { monitor = record w0.monitor { admin = 0; salt = salt } })
      u salt = record {
        table = refl;
        probes = i.probes;
        folder = i.folder;
        file = i.file;
        queue = i.queue;
        list = refl;
        state = refl;
      }

      early :
          IsBalanced kp k l addresses w0
            (record w0 { monitor = record w0.monitor { admin = 0 } }, neg einval)
      early = inr (negsuc-ne-zero 21, IsUntouched-IsIdle w0 _ (u w0.monitor.salt))
