-- ===== src/System.antt =====
-- The module as a transition system: the system calls of reference-monitor/reference_monitor.c, the
-- writes to the access point of reference-monitor/lib/reference_path_based_syscall.c and the hooks of
-- reference-monitor/lib/reference_hooks.c, in any order, each with the kernel as it is then.
use aos_project.Base.{
  ℕ, ◌≡◌, refl, sym, ap, ◌∙◌, inl, inr, Bool, true, false, ◌||◌, Option, none, some, arith, ◌==◌,
  if◌then◌else◌, Bool-cases, ℤ, pos, negsuc,
}
use aos_project.CString.{Bytes, is_zero}
use mathlib.Core.Path.{subst}
pub mod Spec
pub mod Policy
pub mod Protect
use aos_project.CString.{is_zero_iff}
use aos_project.Kernel.{user_path, Inodes, Kernel, Run, ran, oops}
use aos_project.RestrictList.{Table, restore_black_list_entries}
use aos_project.RestrictList.Change.{Distinct}
use aos_project.Hooks.{
  Hook, OpenCall, pre_do_filp_open_handler, pre_vfs_mk_rmdir_handler, pre_vfs_unlink_handler,
}
use aos_project.Syscalls.{
  store_digest, hooks_on, Monitor, Kprobes, do_change_state, do_change_password,
}
use aos_project.Syscalls.State.{
  IsState, IsSound, AllArmed, do_change_state-IsSound, do_change_state-atomic, do_change_state_lem,
  do_change_state_negative,
}
use aos_project.Syscalls.Path.{ResultIsKept, do_change_path-IsKept}
use aos_project.Vfs.{Written, syscall_proc_write}
use aos_project.CommandLine.{words_of}
use aos_project.Vfs.Given.{IsWord, all-AnyOf}
use aos_project.Vfs.Writes.{syscall_proc_write-Held}
use aos_project.Syscalls.Edits.{Held}
use aos_project.Entry.{sys_change_state, sys_change_paths, sys_change_password}

-- The monitor once a hook has changed the inodes.
abbrev pub with_inodes : {P : Type 0} → Monitor P → Inodes → Monitor P
with_inodes m inodes = record m { table = record m.table { inodes = inodes } }

module _ {P : Type 0} (kp : Kprobes P) where
  pub data Step (m : Monitor P) : Monitor P → Type 0 where
    changes_state :
        (k k' : Kernel) (copy : ℕ → ℕ → Bytes → Bytes) (pwd : ℕ) (state : ℤ)
        → Step m (sys_change_state kp k k' copy m pwd state).0
    changes_paths :
        (k k' : Kernel) (copy : ℕ → ℕ → Bytes → Bytes) (pwd path : ℕ) (op : ℤ) (m' : Monitor P)
        (ret : ℤ)
        → sys_change_paths kp k k' copy m pwd path op ≡ ran (m', ret)
        → Step m m'
    changes_password :
        (k k' : Kernel) (copy : ℕ → ℕ → Bytes → Bytes) (old new : ℕ)
        → Step m (sys_change_password kp k k' copy m old new).0
    writes :
        (k k' : Kernel) (w : Written) (m' : Monitor P) (ret : ℤ)
        → syscall_proc_write kp k k' m w ≡ ran (m', ret)
        → Step m m'
    opens :
        (k : Kernel) (c : OpenCall) (h : Hook)
        → pre_do_filp_open_handler k m.single_file_name m.table c ≡ ran h
        → Step m (with_inodes m h.inodes)
    makes_or_removes :
        (k : Kernel) (dentry : Option ℕ) (h : Hook) (ret : ℤ)
        → pre_vfs_mk_rmdir_handler k m.table dentry ≡ ran (h, ret)
        → Step m (with_inodes m h.inodes)
    unlinks :
        (k : Kernel) (dentry : Option ℕ) (h : Hook) (ret : ℤ)
        → pre_vfs_unlink_handler k m.table dentry ≡ ran (h, ret)
        → Step m (with_inodes m h.inodes)

  pub data Reachable (m : Monitor P) : Monitor P → Type 0 where
    start : Reachable m m
    next : (m' m'' : Monitor P) → Reachable m m' → Step m' m'' → Reachable m m''

  -- The state is one of the four with the probes as it wants, and no path is listed twice.
  pub record IsInvariant (m : Monitor P) : Type 0 where
    pub sound : IsSound kp m
    pub distinct : Distinct m.table.restrict_path_list

  restore-list :
      (k : Kernel) (t : Table)
      → (restore_black_list_entries k t).0.restrict_path_list ≡ t.restrict_path_list
  unfolding restore_black_list_entries
  restore-list k t = refl

  -- Which monitors keep the invariant: same state, same probes, distinct paths.
  keeps-IsInvariant :
      (m m' : Monitor P)
      → IsInvariant m
      → m'.current_state ≡ m.current_state
      → m'.probes ≡ m.probes
      → Distinct m'.table.restrict_path_list
      → IsInvariant m'
  keeps-IsInvariant m m' i s p d = record {
    sound = record {
      state = subst IsState (sym s) i.sound.state;
      hooks =
          subst (λ r. AllArmed kp (hooks_on r) m'.probes) (sym s)
            (subst (AllArmed kp (hooks_on m.current_state)) (sym p) i.sound.hooks);
    };
    distinct = d;
  }

  chosen-list :
      (b : Bool) (k : Kernel) (t : Table)
      → (if b then t else (restore_black_list_entries k t).0).restrict_path_list
        ≡ t.restrict_path_list
  chosen-list true k t = refl
  chosen-list false k t = restore-list k t

  do_change_state-list :
      (k : Kernel) (m : Monitor P) (pwd : Option Bytes) (s : ℤ)
      → (do_change_state kp k m pwd s).0.table.restrict_path_list ≡ m.table.restrict_path_list
  do_change_state-list k m pwd (negsuc n) =
      ap (λ x. x.table.restrict_path_list)
        (do_change_state-atomic kp k m pwd (negsuc n) (do_change_state_negative kp k m pwd n))
  do_change_state-list k m pwd (pos s) =
      elim (Bool-cases (is_zero (do_change_state kp k m pwd (pos s)).1)) [
        | inl z ↦
            let (x1, x2, x3, x4, x5, x6, t) =
              do_change_state_lem kp k m pwd s ((is_zero_iff _).0 z) in
            ap (λ x. x.restrict_path_list) t ∙ chosen-list (hooks_on s) k m.table
        | inr z ↦
            ap (λ x. x.table.restrict_path_list)
              (do_change_state-atomic kp k m pwd (pos s) (λ e. absurd (ground (arith, e, z))))
      ]

  do_change_password-keeps :
      (k k' : Kernel) (m : Monitor P) (old new : Option Bytes)
      → let m' = (do_change_password k k' m old new).0 in
        (m'.current_state ≡ m.current_state) × (m'.probes ≡ m.probes) × (m'.table ≡ m.table)
  unfolding do_change_password store_digest
  do_change_password-keeps k k' m none new = ground arith
  do_change_password-keeps k k' m (some old) none = ground arith
  do_change_password-keeps k k' m (some old) (some new) = ground arith

  do_change_password-IsInvariant :
      (k k' : Kernel) (m : Monitor P) (old new : Option Bytes)
      → IsInvariant m
      → IsInvariant (do_change_password k k' m old new).0
  do_change_password-IsInvariant k k' m old new i =
      let (s, p, t) = do_change_password-keeps k k' m old new in
      keeps-IsInvariant m _ i s p (subst (λ t. Distinct t.restrict_path_list) (sym t) i.distinct)

  with_inodes-IsInvariant :
      (m : Monitor P) (inodes : Inodes) → IsInvariant m → IsInvariant (with_inodes m inodes)
  with_inodes-IsInvariant m inodes i = record {
    sound = record { state = i.sound.state; hooks = i.sound.hooks };
    distinct = i.distinct;
  }

  abbrev ResultIsInvariant : Run (Monitor P × ℤ) → Type 0
  ResultIsInvariant (ran (m', ret)) = IsInvariant m'
  ResultIsInvariant oops = Unit

  kept-IsInvariant :
      (m : Monitor P) (r : Run (Monitor P × ℤ))
      → IsInvariant m
      → ResultIsKept m r
      → ResultIsInvariant r
  kept-IsInvariant m oops i h = tt
  kept-IsInvariant m (ran (m', ret)) i (d, s, p, w) = keeps-IsInvariant m m' i s p d

  do_change_state-IsInvariant :
      (k : Kernel) (m : Monitor P) (pwd : Option Bytes) (s : ℤ)
      → IsInvariant m
      → IsInvariant (do_change_state kp k m pwd s).0
  do_change_state-IsInvariant k m pwd s i = record {
    sound = do_change_state-IsSound kp k m pwd s i.sound;
    distinct = subst Distinct (sym (do_change_state-list k m pwd s)) i.distinct;
  }

  sys_change_state-IsInvariant :
      (k k' : Kernel) (copy : ℕ → ℕ → Bytes → Bytes) (m : Monitor P) (pwd : ℕ) (s : ℤ)
      → IsInvariant m
      → IsInvariant (sys_change_state kp k k' copy m pwd s).0
  unfolding sys_change_state
  sys_change_state-IsInvariant k k' copy m pwd s i = elim (Bool-cases (pwd == 0)) [
    | inl z ↦ rw (z) i
    | inr z ↦ rw (z) (do_change_state-IsInvariant k m _ s i)
  ]

  sys_change_paths-IsInvariant :
      (k k' : Kernel) (copy : ℕ → ℕ → Bytes → Bytes) (m : Monitor P) (pwd path : ℕ) (op : ℤ)
      → IsInvariant m
      → ResultIsInvariant (sys_change_paths kp k k' copy m pwd path op)
  unfolding sys_change_paths
  sys_change_paths-IsInvariant k k' copy m pwd path op i =
      elim (Bool-cases (pwd == 0 || path == 0)) [
        | inl z ↦ rw (z) i
        | inr z ↦ rw (z) (elim (Bool-cases (k.allocates user_path)) [
          | inl a ↦ rw (a) (kept-IsInvariant m _ i (do_change_path-IsKept k m _ _ op i.distinct))
          | inr a ↦ rw (a) i
        ])
      ]

  result-Held :
      (k : Kernel) (m : Monitor P) (r : Run (Monitor P × ℤ))
      → ResultIsInvariant r
      → Held k m IsInvariant r
  result-Held k m (ran (m', ret)) h = h
  result-Held k m oops h = tt

  syscall_proc_write-IsInvariant :
      (k k' : Kernel) (m : Monitor P) (w : Written)
      → IsInvariant m
      → Held k m IsInvariant (syscall_proc_write kp k k' m w)
  syscall_proc_write-IsInvariant k k' m w i =
      syscall_proc_write-Held kp k k' m IsInvariant (IsWord w) i
        (λ pwd s g. do_change_state-IsInvariant k m (some pwd) s i)
        (λ pwd b op g.
          result-Held k m _
            (kept-IsInvariant m _ i (do_change_path-IsKept k m (some pwd) (some b) op i.distinct)))
        (λ old new g. do_change_password-IsInvariant k k' m (some old) (some new) i) w
        (all-AnyOf (words_of w.text))

  Step-IsInvariant : (m m' : Monitor P) → Step m m' → IsInvariant m → IsInvariant m'
  unfolding sys_change_password
  Step-IsInvariant m m' (changes_state k k' copy pwd state) i =
      sys_change_state-IsInvariant k k' copy m pwd state i
  Step-IsInvariant m m' (changes_paths k k' copy pwd path op m'' ret e) i =
      subst ResultIsInvariant e (sys_change_paths-IsInvariant k k' copy m pwd path op i)
  Step-IsInvariant m m' (changes_password k k' copy old new) i =
      do_change_password-IsInvariant k k' m _ _ i
  Step-IsInvariant m m' (writes k k' w m'' ret e) i =
      subst (Held k m IsInvariant) e (syscall_proc_write-IsInvariant k k' m w i)
  Step-IsInvariant m m' (opens k c h e) i = with_inodes-IsInvariant m h.inodes i
  Step-IsInvariant m m' (makes_or_removes k d h ret e) i = with_inodes-IsInvariant m h.inodes i
  Step-IsInvariant m m' (unlinks k d h ret e) i = with_inodes-IsInvariant m h.inodes i

  -- After any sequence of system calls, writes to the access point and hooks the state is one of the four, the probes are all
  -- armed or all disarmed as it wants, and no path is listed twice, if it was so at the start.
  pub Reachable-IsInvariant : (m m' : Monitor P) → Reachable m m' → IsInvariant m → IsInvariant m'
  Reachable-IsInvariant m m' start i = i
  Reachable-IsInvariant m m' (next m1 m2 r s) i =
      Step-IsInvariant m1 m2 s (Reachable-IsInvariant m m1 r i)
