-- ===== src/Load/States.antt =====
-- reference-monitor/reference_monitor.c: the kernel before a load and after it.
use aos_project.Base.{ℕ, ◌≡◌, ◌≢◌, ◌⊎◌, true, false, some, List, [], length, All, ℤ, pos}
use aos_project.Kernel.{Kernel}
use aos_project.Syscalls.{Kprobes}
use aos_project.Syscalls.State.{AllArmed}
use aos_project.Load.{hooks_size, Loader, Machine, install, unload_syscall}

-- Nothing of the module is in the kernel, and the list is that of `w0`.
pub record IsIdle {P : Type 0} (w0 w : Machine P) : Type 0 where
  pub table : (j : ℕ) → w.sys_call_table j ≡ w0.sys_call_table j
  pub probes : w.monitor.probes ≡ []
  pub folder : w.proc_folder ≡ false
  pub file : w.proc_file ≡ false
  pub queue : w.deferred_queue ≡ false
  pub list : w.monitor.table ≡ w0.monitor.table

module _ {P : Type 0} (kp : Kprobes P) (k : Kernel) (l : Loader P) (addresses : List ℕ) where
  -- The entries that `get_entries` gives hold the address of sys_ni_syscall.
  abbrev pub EntriesAreFree : Machine P → Type 0
  EntriesAreFree w =
      (es : List ℕ) (ni : ℕ) → l.get_entries ≡ some (es, ni) → All (λ i. w.sys_call_table i ≡ ni) es

  -- Everything of the module is in the kernel, the hooks disarmed; unloading the system calls gives
  -- the table of `w0`.
  pub record IsLoaded (w0 w : Machine P) : Type 0 where
    pub installed : w.sys_call_table ≡ install w0.sys_call_table w.restore addresses
    pub restorable :
        (j : ℕ) → unload_syscall w.sys_call_table w.restore w.the_ni_syscall j ≡ w0.sys_call_table j
    pub probes : length w.monitor.probes ≡ hooks_size
    pub disarmed : AllArmed kp false w.monitor.probes
    pub folder : w.proc_folder ≡ true
    pub file : w.proc_file ≡ true
    pub queue : w.deferred_queue ≡ true
    pub list : w.monitor.table ≡ w0.monitor.table
    pub state : w.monitor.current_state ≡ w0.monitor.current_state

  abbrev pub IsBalanced : Machine P → Machine P × ℤ → Type 0
  IsBalanced w0 (w, ret) = ((ret ≡ pos 0) × IsLoaded w0 w) ⊎ ((ret ≢ pos 0) × IsIdle w0 w)
