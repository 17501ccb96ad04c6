-- ===== src/Tests/Loads.antt =====
-- Runs of loading and unloading the module.
use aos_project.Base.{
  ℕ, ◌≡◌, refl, ◌↔◌, inl, inr, Bool, true, false, Option, none, some, List, [], ◌∷◌, ◌==◌,
  if◌then◌else◌, All, pos,
}
use aos_project.Tests.Fixtures.{kernel, kprobes, monitor, empty_table, secret, new_secret}
use mathlib.Core.Path.{subst}
use aos_project.Kernel.{ran}
use aos_project.Syscalls.{rec_off, hooks_on}
use aos_project.Syscalls.State.{IsState, IsSound}
use aos_project.Load.{
  Loader, Machine, reference_monitor_init, reference_monitor_cleanup, load_salt, load_password,
  load_syscalls, load_probes, load_proc, register_probes,
}
use aos_project.Hash.{generate_salt}
use aos_project.Load.States.{IsIdle, EntriesAreFree, IsLoaded, IsBalanced}
use aos_project.Load.Balance.{reference_monitor_init-IsBalanced}
use aos_project.Load.Ready.{init-cleanup_restores, init-IsSound_iff}
use aos_project.RestrictList.{restore_black_list_entries}

-- A machine whose system call table has sys_ni_syscall, at 900, at 134, 174 and 177.
abbrev pub machine : Machine Bool
machine = record {
  monitor = record monitor {
    current_state = rec_off;
    pwd = new_secret;
    table = empty_table;
    probes = [];
  };
  sys_call_table =
      λ i. if i == 134 then 900 else if i == 174 then 900 else if i == 177 then 900 else i;
  restore = [];
  the_ni_syscall = 0;
  proc_folder = false;
  proc_file = false;
  deferred_queue = false;
}

abbrev pub loader : Loader Bool
loader = record {
  uid_valid = true;
  random = secret;
  get_entries = some (134 ∷ 174 ∷ 177 ∷ [], 900);
  register_kretprobe = λ h. inr true;
  proc_mkdir = true;
  proc_create = true;
  create_singlethread_workqueue = true;
}

abbrev pub addresses : List ℕ
addresses = 1001 ∷ 1002 ∷ 1003 ∷ []

machine-IsIdle : IsIdle machine machine
machine-IsIdle = record {
  table = λ j. refl;
  probes = refl;
  folder = refl;
  file = refl;
  queue = refl;
  list = refl;
}

-- The entries hold the address of sys_ni_syscall.
abbrev Free : Option (List ℕ × ℕ) → Type 0
Free none = Unit
Free (some (es, ni)) = All (λ i. machine.sys_call_table i ≡ ni) es

loader-EntriesAreFree : EntriesAreFree kprobes kernel loader addresses machine
loader-EntriesAreFree es ni e = subst Free e (refl, (refl, (refl, tt)))

reference_monitor_init-IsBalanced_example :
    IsBalanced kprobes kernel loader addresses machine
      (reference_monitor_init kprobes kernel loader addresses 5000 machine)
reference_monitor_init-IsBalanced_example =
    reference_monitor_init-IsBalanced kprobes kernel loader addresses machine 5000 machine-IsIdle
      loader-EntriesAreFree

abbrev pub loaded : Machine Bool
loaded = (reference_monitor_init kprobes kernel loader addresses 5000 machine).0

load_succeeds : (reference_monitor_init kprobes kernel loader addresses 5000 machine).1 ≡ pos 0
unfolding reference_monitor_init load_salt load_password load_syscalls load_probes load_proc
    register_probes generate_salt
load_succeeds = refl

pub loaded_restore : loaded.restore ≡ 134 ∷ 174 ∷ 177 ∷ []
unfolding reference_monitor_init load_salt load_password load_syscalls load_probes load_proc
    register_probes generate_salt
loaded_restore = refl

pub machine-IsLoaded : IsLoaded kprobes kernel loader addresses machine loaded
machine-IsLoaded =
    elim (reference_monitor_init-IsBalanced kprobes kernel loader addresses machine 5000
      machine-IsIdle loader-EntriesAreFree) [
        | inl (e, i) ↦ i
        | inr (n, i) ↦ absurd (n load_succeeds)
      ]

init-cleanup_restores_example :
    (w' : Machine Bool) × (reference_monitor_cleanup kernel (record loaded { monitor = monitor })
      ≡ ran w')
    × ((j : ℕ) → w'.sys_call_table j ≡ machine.sys_call_table j)
    × (w'.monitor.table.restrict_path_list ≡ [])
    × (w'.monitor.table.inodes ≡ (restore_black_list_entries kernel monitor.table).0.inodes)
    × (w'.monitor.probes ≡ [])
    × (w'.proc_folder ≡ false)
    × (w'.proc_file ≡ false)
    × (w'.deferred_queue ≡ false)
init-cleanup_restores_example =
    init-cleanup_restores kprobes kernel loader addresses 5000 machine machine-IsIdle
      loader-EntriesAreFree load_succeeds monitor (λ i. refl)

init-IsSound_iff_example :
    IsSound kprobes loaded.monitor ↔ (IsState rec_off × (hooks_on rec_off ≡ false))
init-IsSound_iff_example =
    init-IsSound_iff kprobes kernel loader addresses 5000 machine machine-IsIdle
      loader-EntriesAreFree load_succeeds
