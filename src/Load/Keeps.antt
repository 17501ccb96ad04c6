-- ===== src/Load/Keeps.antt =====
-- reference-monitor/reference_monitor.c: the globals that a load leaves.
use mathlib.Core.Path.{subst}
use aos_project.Base.{
  ℕ, ◌≡◌, refl, sym, ap, ◌∙◌, not, Option, none, some, List, [], ltb, leb, ◌==◌, if-cases, length,
  take, ℤ, pos, is_negative, neg, einval,
}
use aos_project.Kernel.{Kernel}
use aos_project.Hash.{salt_length, hash_plaintext_lem, generate_salt, salted_digest}
use aos_project.Syscalls.{Kprobes}
use aos_project.Syscalls.Password.{Keeps, CanHash}
use aos_project.Load.{
  hook_specs, Loader, Machine, install, register_probes, undo_probes, undo_syscalls, load_proc,
  load_probes, load_syscalls, load_password, load_salt, reference_monitor_init,
}
use aos_project.Load.Entries.{negsuc-ne-zero}

-- The globals that a user can compare with what the module was loaded with.
abbrev Agrees : {P : Type 0} → Machine P → Machine P × ℤ → Type 0
Agrees w (w', ret) =
    (w'.monitor.admin ≡ w.monitor.admin)
    × (w'.monitor.salt ≡ w.monitor.salt)
    × (w'.monitor.pwd ≡ w.monitor.pwd)

module _ {P : Type 0} (kp : Kprobes P) (k : Kernel) (l : Loader P) (addresses : List ℕ) where
  load_proc-Agrees : (w : Machine P) → Agrees w (load_proc kp k l w)
  unfolding load_proc undo_probes undo_syscalls
  load_proc-Agrees w =
      if-cases (Agrees w) (not l.proc_mkdir) _ _ (λ e. (refl, refl, refl))
        (λ e.
          if-cases (Agrees w) (not l.proc_create) _ _ (λ e. (refl, refl, refl))
            (λ e.
              if-cases (Agrees w) (not l.create_singlethread_workqueue) _ _
                (λ e. (refl, refl, refl)) (λ e. (refl, refl, refl))))

  load_probes-Agrees : (w : Machine P) (r : List P × ℤ) → Agrees w (load_probes kp k l w r)
  unfolding load_probes undo_syscalls
  load_probes-Agrees w (ps, ret) =
      if-cases (Agrees w) (is_negative ret) _ _ (λ e. (refl, refl, refl))
        (λ e. load_proc-Agrees (record w { monitor = record w.monitor { probes = ps } }))

  load_syscalls-Agrees :
      (w : Machine P) (entries : Option (List ℕ × ℕ))
      → Agrees w (load_syscalls kp k l addresses w entries)
  unfolding load_syscalls
  load_syscalls-Agrees w none = (refl, refl, refl)
  load_syscalls-Agrees w (some (es, ni)) =
      load_probes-Agrees
        (record w {
          restore = es;
          the_ni_syscall = ni;
          sys_call_table = install w.sys_call_table es addresses;
        })
        (register_probes kp k l hook_specs [])

  -- After a load that returns 0, the monitor's administrator is root, its salt the first random bytes, and
  -- its digest that of the password which the module was loaded with, where that one can be hashed.
  pub reference_monitor_init-Keeps :
      (w0 : Machine P) (a : ℕ)
      → CanHash k w0.monitor.pwd
      → (reference_monitor_init kp k l addresses a w0).1 ≡ pos 0
      → let m = (reference_monitor_init kp k l addresses a w0).0.monitor in
        (m.admin ≡ 0) × (m.salt ≡ take salt_length l.random) × Keeps k m w0.monitor.pwd
  unfolding reference_monitor_init load_salt load_password generate_salt
  reference_monitor_init-Keeps w0 a c =
      if-cases Q (not l.uid_valid) _ _ (λ e. failed)
        (λ e.
          if-cases Q (ltb (length w0.monitor.single_file_name) 4) _ _ (λ e. failed)
            (λ e.
              if-cases Q (a == 0) _ _ (λ e. failed)
                (λ e. if-cases Q (leb (length w0.monitor.pwd) 8) _ _ (λ e. failed) (λ e. loaded))))
    where
      Q : Machine P × ℤ → Type 0
      Q r =
          r.1 ≡ pos 0
          → (r.0.monitor.admin ≡ 0)
            × (r.0.monitor.salt ≡ take salt_length l.random)
            × Keeps k r.0.monitor w0.monitor.pwd

      failed : Q (record w0 { monitor = record w0.monitor { admin = 0 } }, neg einval)
      failed z = absurd (negsuc-ne-zero 21 z)

      loaded : Q (
          load_salt kp k l addresses
            (record w0 { monitor = record w0.monitor { admin = 0 } })
            (generate_salt l.random))
      loaded =
          let salt = take salt_length l.random in
          let w = record w0 { monitor = record w0.monitor { admin = 0; salt = salt } } in
          subst (λ r. Q (load_password kp k l addresses w r))
            (sym (hash_plaintext_lem k salt w0.monitor.pwd w0.monitor.pwd c.ready c.no_nul c.clean))
            (λ z.
              let w' = record w {
                monitor = record w.monitor { pwd = salted_digest k salt w0.monitor.pwd };
              } in
              let (a, s, d) = load_syscalls-Agrees w' l.get_entries in
              (a, s, d ∙ ap (λ u. salted_digest k u w0.monitor.pwd) (sym s)))
