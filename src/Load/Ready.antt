-- ===== src/Load/Ready.antt =====
-- reference-monitor/reference_monitor.c: the module once it is loaded, and its unloading.
use mathlib.Core.Path.{subst}
use aos_project.Base.{
  ℕ, ◌+◌, true, suc, ◌≡◌, refl, sym, ap, ◌∙◌, ◌↔◌, inl, inr, Bool, false, List, [], ◌∷◌, arith,
  length, pos,
}
use aos_project.Kernel.{Kernel, ran, oops}
use aos_project.RestrictList.{RcuRestrict, Table, restore_black_list_entries}
use aos_project.RestrictList.Change.{Distinct}
use aos_project.Syscalls.{Monitor, Kprobes, hooks_on}
use aos_project.Syscalls.State.{AllArmed, IsSound, IsState}
use aos_project.System.{Reachable, IsInvariant, Reachable-IsInvariant}
use aos_project.Load.{
  Loader, Machine, unload_syscall, reference_monitor_init, free_entries, free_table,
  reference_monitor_cleanup,
}
use aos_project.Load.States.{IsLoaded, IsIdle, EntriesAreFree}
use aos_project.Load.Balance.{reference_monitor_init-IsBalanced}

-- The loop over the list goes wrong nowhere if each freed entry still holds its pointers.
free_entries-intact :
    (k : Kernel) (n : ℕ) (es : List RcuRestrict)
    → ((i : ℕ) → k.freed_intact i ≡ true)
    → free_entries k n es ≡ ran []
unfolding free_entries
free_entries-intact k n [] h = refl
free_entries-intact k n (e ∷ es) h = rw (h n) (free_entries-intact k (n + 1) es h)

free_table-intact :
    (k : Kernel) (t : Table)
    → ((i : ℕ) → k.freed_intact i ≡ true)
    → free_table k t ≡ ran (record (restore_black_list_entries k t).0 { restrict_path_list = [] })
unfolding free_table
free_table-intact k t h = rw (free_entries-intact k 0 _ h) refl

free_table-clobbered :
    (k : Kernel) (t : Table) (x : RcuRestrict) (es : List RcuRestrict)
    → t.restrict_path_list ≡ x ∷ es
    → k.freed_intact 0 ≡ false
    → free_table k t ≡ oops
unfolding free_table free_entries restore_black_list_entries
free_table-clobbered k t x es e h = rw (e, h) refl

-- What unloading leaves, with the table that it has freed.
abbrev unloaded : {P : Type 0} → Machine P → Table → Machine P
unloaded w t = record w {
  monitor = record w.monitor { table = t; probes = [] };
  proc_file = false;
  proc_folder = false;
  sys_call_table = unload_syscall w.sys_call_table w.restore w.the_ni_syscall;
  deferred_queue = false;
}

cleanup-ran :
    {P : Type 0} (k : Kernel) (w : Machine P) (t : Table)
    → free_table k w.monitor.table ≡ ran t
    → reference_monitor_cleanup k w ≡ ran (unloaded w t)
unfolding reference_monitor_cleanup
cleanup-ran k w t e = rw e refl

cleanup-oops :
    {P : Type 0} (k : Kernel) (w : Machine P)
    → free_table k w.monitor.table ≡ oops
    → reference_monitor_cleanup k w ≡ oops
unfolding reference_monitor_cleanup
cleanup-oops k w e = rw e refl

module _ {P : Type 0} (kp : Kprobes P) (k : Kernel) (l : Loader P) (addresses : List ℕ) where
  module _ (a : ℕ) (w0 : Machine P) (idle : IsIdle w0 w0)
      (free : EntriesAreFree kp k l addresses w0)
      (loads : (reference_monitor_init kp k l addresses a w0).1 ≡ pos 0) where
    abbrev pub inited : Machine P
    inited = (reference_monitor_init kp k l addresses a w0).0

    init-IsLoaded : IsLoaded kp k l addresses w0 inited
    init-IsLoaded = elim (reference_monitor_init-IsBalanced kp k l addresses w0 a idle free) [
      | inl (e, i) ↦ i
      | inr (n, i) ↦ absurd (n loads)
    ]

    -- After a load that returns 0, on a machine without the module whose free entries of the system
    -- call table hold sys_ni_syscall, and whatever calls and hooks then make of the monitor: where
    -- freed memory still holds its pointers, unloading comes to an end, the system call table is
    -- that of before the load at every index, the inodes of the list are restored, and list,
    -- probes, proc entries and work queue are gone.
    pub init-cleanup_restores :
        (m : Monitor P)
        → ((i : ℕ) → k.freed_intact i ≡ true)
        → (w' : Machine P) × (reference_monitor_cleanup k (record inited { monitor = m }) ≡ ran w')
          × ((j : ℕ) → w'.sys_call_table j ≡ w0.sys_call_table j)
          × (w'.monitor.table.restrict_path_list ≡ [])
          × (w'.monitor.table.inodes ≡ (restore_black_list_entries k m.table).0.inodes)
          × (w'.monitor.probes ≡ [])
          × (w'.proc_folder ≡ false)
          × (w'.proc_file ≡ false)
          × (w'.deferred_queue ≡ false)
    init-cleanup_restores m h =
        let w = record inited { monitor = m } in
        let t = record (restore_black_list_entries k m.table).0 { restrict_path_list = [] } in
        (
          unloaded w t,
          cleanup-ran k w t (free_table-intact k m.table h),
          init-IsLoaded.restorable,
          refl,
          refl,
          refl,
          refl,
          refl,
          refl,
        )

  -- With an entry in the list and freed memory that no longer holds its pointers, unloading reads
  -- through what it has freed.
  pub cleanup_clobbered :
      (w : Machine P) (x : RcuRestrict) (es : List RcuRestrict)
      → w.monitor.table.restrict_path_list ≡ x ∷ es
      → k.freed_intact 0 ≡ false
      → reference_monitor_cleanup k w ≡ oops
  cleanup_clobbered w x es e h = cleanup-oops k w (free_table-clobbered k w.monitor.table x es e h)

  disarmed-unarmed :
      (b : Bool) (ps : List P) (n : ℕ)
      → length ps ≡ suc n
      → AllArmed kp false ps
      → AllArmed kp b ps
      → b ≡ false
  disarmed-unarmed b [] n e d a = absurd (omega arith)
  disarmed-unarmed b (p ∷ ps) n e (d, ds) (a, rest) = sym a ∙ d

  IsLoaded-IsSound_iff :
      (w0 w : Machine P)
      → IsLoaded kp k l addresses w0 w
      → IsSound kp w.monitor
        ↔ (IsState w0.monitor.current_state × (hooks_on w0.monitor.current_state ≡ false))
  IsLoaded-IsSound_iff w0 w i = (
    λ s. (
      subst IsState i.state s.state,
      ap hooks_on (sym i.state)
          ∙ disarmed-unarmed (hooks_on w.monitor.current_state) w.monitor.probes 3 i.probes
              i.disarmed s.hooks,
    ),
    λ r. record {
      state = subst IsState (sym i.state) r.0;
      hooks =
          subst (λ b. AllArmed kp b w.monitor.probes) (sym (ap hooks_on i.state ∙ r.1)) i.disarmed;
    },
  )

  -- A load that returns 0, on a machine without the module whose free entries of the system call
  -- table hold sys_ni_syscall, leaves the state and the probes in agreement exactly when the state
  -- that the module was loaded with is one of the four and is OFF or REC_OFF: reference_monitor_init
  -- disarms every probe, also in ON and REC_ON.
  pub init-IsSound_iff :
      (a : ℕ) (w0 : Machine P)
      → IsIdle w0 w0
      → EntriesAreFree kp k l addresses w0
      → (reference_monitor_init kp k l addresses a w0).1 ≡ pos 0
      → IsSound kp (reference_monitor_init kp k l addresses a w0).0.monitor
        ↔ (IsState w0.monitor.current_state × (hooks_on w0.monitor.current_state ≡ false))
  init-IsSound_iff a w0 idle free loads =
      IsLoaded-IsSound_iff w0 (inited a w0 idle free loads) (init-IsLoaded a w0 idle free loads)

  -- Loaded in OFF or REC_OFF with an empty list, the module keeps the invariant through any sequence of
  -- system calls and hooks.
  pub load-Reachable-IsInvariant :
      (w0 w : Machine P) (m : Monitor P)
      → IsLoaded kp k l addresses w0 w
      → w0.monitor.table.restrict_path_list ≡ []
      → IsState w0.monitor.current_state
      → hooks_on w0.monitor.current_state ≡ false
      → Reachable kp w.monitor m
      → IsInvariant kp m
  load-Reachable-IsInvariant w0 w m i e s h r = Reachable-IsInvariant kp w.monitor m r (record {
    sound = (IsLoaded-IsSound_iff w0 w i).1 (s, h);
    distinct = subst Distinct (sym (ap (λ t. t.restrict_path_list) i.list ∙ e)) tt;
  })
