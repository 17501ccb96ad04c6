-- ===== src/Load/Undo.antt =====
-- reference-monitor/reference_monitor.c: the end of a load, from the probes on, with what it takes back.
use aos_project.Base.{
  All-append, ℕ, ◌+◌, ◌≡◌, refl, ◌⊎◌, inl, inr, Bool, true, false, not, List, [], ◌∷◌, ◌++◌, arith,
  if-cases, length, length-append, ℤ, pos, is_negative,
}
use aos_project.Kernel.{Kernel}
use aos_project.Syscalls.{Kprobes}
use aos_project.Syscalls.State.{AllArmed}
use aos_project.Load.{
  HookSpec, hooks_size, Loader, Machine, install, unload_syscall, register_probes, undo_syscalls,
  undo_probes, load_proc, load_probes,
}
use aos_project.Load.Entries.{negsuc-ne-zero, negative-ne-zero}
use aos_project.Load.States.{IsIdle, IsBalanced}

module _ {P : Type 0} (kp : Kprobes P) (k : Kernel) (l : Loader P) (addresses : List ℕ) where
  -- All hooks are registered and disarmed, or none is left.
  abbrev pub AllOrNone : ℕ → List P × ℤ → Type 0
  AllOrNone n (ps, ret) =
      ((ret ≡ pos 0) × (length ps ≡ n) × AllArmed kp false ps)
      ⊎ ((is_negative ret ≡ true) × (ps ≡ []))

  pub register_probes-AllOrNone :
      (hs : List HookSpec) (probes : List P) (n : ℕ)
      → AllArmed kp false probes
      → length probes + length hs ≡ n
      → AllOrNone n (register_probes kp k l hs probes)
  unfolding register_probes
  register_probes-AllOrNone [] probes n h e = inl (refl, omega arith, h)
  register_probes-AllOrNone (s ∷ hs) probes n h e =
      go (l.register_kretprobe s) refl
        (λ p. register_probes-AllOrNone hs (probes ++ kp.disable_kretprobe p ∷ []) n)
    where
      go :
          (r : ℕ ⊎ P)
          → l.register_kretprobe s ≡ r
          → ((p : P)
              → AllArmed kp false (probes ++ kp.disable_kretprobe p ∷ [])
              → length (probes ++ kp.disable_kretprobe p ∷ []) + length hs ≡ n
              → AllOrNone n (register_probes kp k l hs (probes ++ kp.disable_kretprobe p ∷ [])))
          → AllOrNone n (register_probes kp k l (s ∷ hs) probes)
      go (inl m) q ih = rw (q, register_probes) (inr (refl, refl))
      go (inr p) q ih =
          rw (q, register_probes)
            (ih p
              (All-append (λ p'. kp.armed p' ≡ false) probes (kp.disable_kretprobe p ∷ []) h
                (kp.armed-disable p, tt))
              (omega (arith, length-append probes (kp.disable_kretprobe p ∷ []))))

  -- The state once the system calls are installed.
  pub record IsInstalled (w0 w : Machine P) : Type 0 where
    pub installed : w.sys_call_table ≡ install w0.sys_call_table w.restore addresses
    pub restorable :
        (j : ℕ) → unload_syscall w.sys_call_table w.restore w.the_ni_syscall j ≡ w0.sys_call_table j
    pub folder : w.proc_folder ≡ false
    pub file : w.proc_file ≡ false
    pub queue : w.deferred_queue ≡ false
    pub list : w.monitor.table ≡ w0.monitor.table
    pub state : w.monitor.current_state ≡ w0.monitor.current_state

  undo_syscalls-IsIdle :
      (w0 w : Machine P) → IsInstalled w0 w → w.monitor.probes ≡ [] → IsIdle w0 (undo_syscalls w)
  unfolding undo_syscalls
  undo_syscalls-IsIdle w0 w i e = record {
    table = i.restorable;
    probes = e;
    folder = i.folder;
    file = i.file;
    queue = i.queue;
    list = i.list;
  }

  undo_probes-IsIdle :
      (w0 w : Machine P) (folder file : Bool)
      → IsInstalled w0 w
      → folder ≡ false
      → file ≡ false
      → IsIdle w0 (undo_probes (record w { proc_folder = folder; proc_file = file }))
  unfolding undo_probes
  undo_probes-IsIdle w0 w folder file i d f =
      undo_syscalls-IsIdle w0
        (record w {
          monitor = record w.monitor { probes = [] };
          proc_folder = folder;
          proc_file = file;
        })
        (record {
          installed = i.installed;
          restorable = i.restorable;
          folder = d;
          file = f;
          queue = i.queue;
          list = i.list;
          state = i.state;
        })
        refl

  load_proc-IsBalanced :
      (w0 w : Machine P)
      → IsInstalled w0 w
      → length w.monitor.probes ≡ hooks_size
      → AllArmed kp false w.monitor.probes
      → IsBalanced kp k l addresses w0 (load_proc kp k l w)
  unfolding load_proc
  load_proc-IsBalanced w0 w i n a =
      if-cases (IsBalanced kp k l addresses w0) (not l.proc_mkdir) _ _
        (λ e.
          inr (
            negsuc-ne-zero 11,
            undo_probes-IsIdle w0 w w.proc_folder w.proc_file i i.folder i.file,
          ))
        (λ e.
          if-cases (IsBalanced kp k l addresses w0) (not l.proc_create) _ _
            (λ e. inr (negsuc-ne-zero 11, undo_probes-IsIdle w0 w false w.proc_file i refl i.file))
            (λ e.
              if-cases (IsBalanced kp k l addresses w0) (not l.create_singlethread_workqueue) _ _
                (λ e. inr (negsuc-ne-zero 11, undo_probes-IsIdle w0 w false false i refl refl))
                (λ e. inl (
                  refl,
                  record {
                    installed = i.installed;
                    restorable = i.restorable;
                    probes = n;
                    disarmed = a;
                    folder = refl;
                    file = refl;
                    queue = refl;
                    list = i.list;
                    state = i.state;
                  },
                ))))

  pub load_probes-IsBalanced :
      (w0 w : Machine P) (r : List P × ℤ)
      → IsInstalled w0 w
      → AllOrNone hooks_size r
      → IsBalanced kp k l addresses w0 (load_probes kp k l w r)
  unfolding load_probes
  load_probes-IsBalanced w0 w (ps, ret) i (inl (z, n, a)) = rw z (
      load_proc-IsBalanced w0 (record w { monitor = record w.monitor { probes = ps } })
        (record {
          installed = i.installed;
          restorable = i.restorable;
          folder = i.folder;
          file = i.file;
          queue = i.queue;
          list = i.list;
          state = i.state;
        })
        n a)
  load_probes-IsBalanced w0 w (ps, ret) i (inr (z, e)) = rw z (
      inr (
        negative-ne-zero ret z,
        undo_syscalls-IsIdle w0 (record w { monitor = record w.monitor { probes = ps } })
            (record {
              installed = i.installed;
              restorable = i.restorable;
              folder = i.folder;
              file = i.file;
              queue = i.queue;
              list = i.list;
              state = i.state;
            })
            e,
      ))
