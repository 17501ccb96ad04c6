-- ===== src/System/Policy.antt =====
-- What the system calls of reference-monitor/reference_monitor.c, the writes to the access point of
-- reference-monitor/lib/reference_path_based_syscall.c and the hooks of reference-
-- monitor/lib/reference_hooks.c may do to the policy of the monitor: its state, the digest of the
-- password and the restricted paths.
use aos_project.Base.{
  ℕ, ◌≡◌, refl, sym, ap, inl, inr, not, ◌||◌, some, arith, ◌==◌, Bool-cases, if-cases, ℤ, pos,
  negsuc, neg, enomem, einval,
}
use aos_project.CString.{Bytes, is_zero, zeros}
use mathlib.Core.Path.{subst}
use aos_project.CString.{is_zero_iff}
use aos_project.Kernel.{user_path, Kernel, ran}
use aos_project.PathSolver.{path_max}
use aos_project.Syscalls.{
  Monitor, Kprobes, do_change_state, do_change_path, do_change_password, check_pwd,
}
use aos_project.Syscalls.State.{
  do_change_state-atomic, do_change_state_lem, do_change_state_negative,
}
use aos_project.Syscalls.Edits.{
  ChangesPaths, Held, Held-map, do_change_path-ChangesPaths, do_change_state-pwd,
  do_change_password-digest,
}
use aos_project.CommandLine.{words_of}
use aos_project.Entry.{
  max_from_user, password_of, sys_change_state, sys_change_paths, sys_change_password,
}
use aos_project.Vfs.Given.{IsWord, all-AnyOf}
use aos_project.Vfs.Writes.{syscall_proc_write-Held}
use aos_project.System.Spec.{
  Policy, policy, paths_of, Move, stays, sets_state, sets_digest, Edited-Move,
}
use aos_project.System.{
  Step, changes_state, changes_paths, changes_password, writes, opens, makes_or_removes, unlinks,
  do_change_state-list, do_change_password-keeps,
}

-- The caller of a step, whom the kernel knows, is the administrator, and the password of the step is one
-- that the monitor accepts.
pub record IsAuthorised {P : Type 0} (k : Kernel) (m : Monitor P) (password : Bytes) : Type 0 where
  pub is_admin : k.euid ≡ m.admin
  pub accepted : check_pwd k m (some password) ≡ pos 0

-- What the step itself must show to change the policy: of a system call, the kernel that answers it and
-- the password in the caller's memory; of a write to the access point, the kernel and a password that
-- is a word of the text. A hook has nothing to show.
pub Authority :
    {P : Type 0} {kp : Kprobes P} {m : Monitor P} (m' : Monitor P) → Step kp m m' → Type 0
Authority {m = m} m' (changes_state k k' copy pwd state) =
    IsAuthorised k m (password_of k copy 0 pwd)
Authority {m = m} m' (changes_paths k k' copy pwd path op m'' ret e) =
    IsAuthorised k m (password_of k copy 0 pwd)
Authority {m = m} m' (changes_password k k' copy old new) =
    IsAuthorised k m (password_of k copy 0 old)
Authority {m = m} m' (writes k k' w m'' ret e) = (pwd : Bytes) × IsWord w pwd × IsAuthorised k m pwd
Authority m' (opens k c h e) = ⊥
Authority m' (makes_or_removes k d h ret e) = ⊥
Authority m' (unlinks k d h ret e) = ⊥

module _ {P : Type 0} (m : Monitor P) (A : Type 0) where
  -- A step of the specification between two monitors.
  abbrev pub Moves : Monitor P → Type 0
  Moves m' = Move A (policy m) (policy m')

  policy_eq :
      (m' : Monitor P) (p : Policy)
      → p.state ≡ m'.current_state
      → p.digest ≡ m'.pwd
      → p.listed ≡ paths_of m'.table.restrict_path_list
      → p ≡ policy m'
  policy_eq m' p a b c = (λ i. record { state = a i; digest = b i; listed = c i })

  same_monitor : (m' : Monitor P) → m' ≡ m → Moves m'
  same_monitor m' e = subst Moves (sym e) stays

  ChangesPaths-Moves :
      (k : Kernel) (the_pwd : Bytes) (m' : Monitor P)
      → (IsAuthorised k m the_pwd → A)
      → ChangesPaths k m (some the_pwd) m'
      → Moves m'
  ChangesPaths-Moves k the_pwd m' f (inl e) = same_monitor m' e
  ChangesPaths-Moves k the_pwd m' f (inr (a, c, r, (s, d, h))) =
      subst (Move A (policy m)) (policy_eq m' _ (sym s) (sym d) refl) (
        Edited-Move A (policy m) (f (record { is_admin = a; accepted = c })) r
          m.table.restrict_path_list m'.table.restrict_path_list refl h)

module _ {P : Type 0} (kp : Kprobes P) (m : Monitor P) (A : Type 0) where
  do_change_state-Moves :
      (k : Kernel) (the_pwd : Bytes) (s : ℤ)
      → (IsAuthorised k m the_pwd → A)
      → Moves m A (do_change_state kp k m (some the_pwd) s).0
  do_change_state-Moves k the_pwd (negsuc n) f = same_monitor m A _ (
      do_change_state-atomic kp k m (some the_pwd) (negsuc n)
        (do_change_state_negative kp k m (some the_pwd) n))
  do_change_state-Moves k the_pwd (pos s) f =
      let r = do_change_state kp k m (some the_pwd) (pos s) in
      elim (Bool-cases (is_zero r.1)) [
        | inl z ↦
            let (a, c, is_state, x4, e, x6, t) =
              do_change_state_lem kp k m (some the_pwd) s ((is_zero_iff _).0 z) in
            subst (Move A (policy m))
              (policy_eq m A r.0 _ (sym e) (sym (do_change_state-pwd k m kp (some the_pwd) (pos s)))
                (ap paths_of (sym (do_change_state-list kp k m (some the_pwd) (pos s)))))
              (sets_state (f (record { is_admin = a; accepted = c })) s is_state)
        | inr z ↦ same_monitor m A r.0 (
            do_change_state-atomic kp k m (some the_pwd) (pos s)
              (λ e. absurd (ground (arith, e, z))))
      ]

  do_change_password-Moves :
      (k k' : Kernel) (old new : Bytes)
      → (IsAuthorised k m old → A)
      → Moves m A (do_change_password k k' m (some old) (some new)).0
  do_change_password-Moves k k' old new f =
      let m' = (do_change_password k k' m (some old) (some new)).0 in
      let (s, p, t) = do_change_password-keeps kp k k' m (some old) (some new) in
      let l = ap (λ t. paths_of t.restrict_path_list) (sym t) in
      elim (do_change_password-digest k m k' (some old) (some new)) [
        | inl d ↦ subst (Move A (policy m)) (policy_eq m A m' (policy m) (sym s) (sym d) l) stays
        | inr (a, c) ↦
            subst (Move A (policy m))
              (policy_eq m A m' (record (policy m) { digest = m'.pwd }) (sym s) refl l)
              (sets_digest (f (record { is_admin = a; accepted = c })) m'.pwd)
      ]

  sys_change_state-Moves :
      (k k' : Kernel) (copy : ℕ → ℕ → Bytes → Bytes) (pwd : ℕ) (s : ℤ)
      → (IsAuthorised k m (password_of k copy 0 pwd) → A)
      → Moves m A (sys_change_state kp k k' copy m pwd s).0
  unfolding sys_change_state
  sys_change_state-Moves k k' copy pwd s f =
      if-cases (λ (r : Monitor P × ℤ). Moves m A r.0) (pwd == 0) (m, neg einval)
        (do_change_state kp k m (some _) s) (λ e. stays) (λ e. do_change_state-Moves k _ s f)

  sys_change_paths-Moves :
      (k k' : Kernel) (copy : ℕ → ℕ → Bytes → Bytes) (pwd path : ℕ) (op : ℤ)
      → (IsAuthorised k m (password_of k copy 0 pwd) → A)
      → Held k m (Moves m A) (sys_change_paths kp k k' copy m pwd path op)
  unfolding sys_change_paths
  sys_change_paths-Moves k k' copy pwd path op f =
      let the_pwd = password_of k copy 0 pwd in
      let the_path = copy path max_from_user (zeros path_max) in
      let r = do_change_path k m (some the_pwd) (some the_path) op in
      if-cases (Held k m (Moves m A)) (pwd == 0 || path == 0) (ran (m, neg einval)) _ (λ e. stays)
        (λ e.
          if-cases (Held k m (Moves m A)) (not (k.allocates user_path)) (ran (m, neg enomem)) r
            (λ e. stays)
            (λ e.
              Held-map k m (ChangesPaths k m (some the_pwd)) (Moves m A) r
                (λ m'. ChangesPaths-Moves m A k the_pwd m' f)
                (do_change_path-ChangesPaths k m (some the_pwd) (some the_path) op)))

-- Every system call, every write to the access point and every hook is a step of the specification: the
-- policy stays, or it is a call or write that sets the state to one of the four, sets the digest, or
-- in REC_ON or REC_OFF adds a path that is not listed or removes one that is. Each of those changes
-- asks that the caller of this very step has the effective user of the administrator and that the
-- monitor accepts the password of this call, or a word of this text; a hook makes none.
pub Step-Moves :
    {P : Type 0} (kp : Kprobes P) (m m' : Monitor P) (s : Step kp m m')
    → Moves m (Authority m' s) m'
unfolding sys_change_password Authority
Step-Moves kp m m' (changes_state k k' copy pwd state) =
    sys_change_state-Moves kp m _ k k' copy pwd state (λ a. a)
Step-Moves kp m m' (changes_paths k k' copy pwd path op m'' ret e) =
    let A = IsAuthorised k m (password_of k copy 0 pwd) in
    subst (Held k m (Moves m A)) e (sys_change_paths-Moves kp m A k k' copy pwd path op (λ a. a))
Step-Moves kp m m' (changes_password k k' copy old new) =
    do_change_password-Moves kp m _ k k' _ _ (λ a. a)
Step-Moves kp m m' (writes k k' w m'' ret e) =
    let A = (pwd : Bytes) × IsWord w pwd × IsAuthorised k m pwd in
    subst (Held k m (Moves m A)) e (
      syscall_proc_write-Held kp k k' m (Moves m A) (IsWord w) stays
        (λ pwd s g. do_change_state-Moves kp m A k pwd s (λ a. (pwd, g, a)))
        (λ pwd b op g.
          Held-map k m (ChangesPaths k m (some pwd)) (Moves m A) _
            (λ m'. ChangesPaths-Moves m A k pwd m' (λ a. (pwd, g, a)))
            (do_change_path-ChangesPaths k m (some pwd) (some b) op))
        (λ old new g. do_change_password-Moves kp m A k k' old new (λ a. (old, g, a))) w
        (all-AnyOf (words_of w.text)))
Step-Moves kp m m' (opens k c h e) = stays
Step-Moves kp m m' (makes_or_removes k d h ret e) = stays
Step-Moves kp m m' (unlinks k d h ret e) = stays
