-- ===== src/Syscalls/Edits.antt =====
-- reference-monitor/lib/reference_syscalls.c: what the three operations can change, and for whom.
use aos_project.Base.{
  ℕ, ◌≡◌, refl, sym, ◌⊎◌, inl, inr, true, not, ◌||◌, Option, none, some, List, arith, ◌==◌, ==→eq,
  Bool-cases, if-cases, ℤ, pos, negsuc, neg, is_nonzero, eperm, eacces, einval, ecanceled,
}
use aos_project.CString.{Bytes, c_string}
use mathlib.Core.Path.{subst}
use aos_project.Kernel.{Kernel, Run, ran, oops, ◌>>=◌, Lookup, failed, found}
use aos_project.RestrictList.{RcuRestrict, forbitten_path}
use aos_project.RestrictList.Edits.{Added, Removed, add_path-Added, del_path-Removed}
use aos_project.PathSolver.{fill_absolute_path}
use aos_project.Syscalls.{
  Monitor, Kprobes, check_pwd, rec_on, rec_off, is_op, add_step, del_step, change_entry,
  change_path_at, do_change_path, do_change_state, enter_state, switch_hooks, do_change_password,
}

-- An operation puts one path to the list or takes one from it.
abbrev pub Edited : List RcuRestrict → List RcuRestrict → Type 0
Edited l l' = ((p : Bytes) × Added p l l') ⊎ Removed l l'

module _ {P : Type 0} (k : Kernel) (m : Monitor P) where
  abbrev pub list_of : List RcuRestrict
  list_of = m.table.restrict_path_list

  -- Only the list changes, and by one path.
  abbrev pub EditsList : Monitor P → Type 0
  EditsList m' =
      (m'.current_state ≡ m.current_state)
      × (m'.pwd ≡ m.pwd)
      × Edited m.table.restrict_path_list m'.table.restrict_path_list

  same-Edited : Edited m.table.restrict_path_list m.table.restrict_path_list
  same-Edited = inr (inl refl)

  step-Edited :
      (p : Bytes) (dentry op : ℕ)
      → is_op (pos op) ≡ true
      → Edited m.table.restrict_path_list
          (del_step k p op (add_step k m.table p dentry op)).0.restrict_path_list
  unfolding add_step del_step
  step-Edited p dentry op h = elim (Bool-cases (op == 16)) [
    | inl e ↦
        subst
          (λ op.
            Edited m.table.restrict_path_list
              (del_step k p op (add_step k m.table p dentry op)).0.restrict_path_list)
          (sym (==→eq op 16 e)) (inl (p, add_path-Added k m.table p dentry))
    | inr e ↦
        let e' : op ≡ 32 = ground arith in
        subst
          (λ op.
            Edited m.table.restrict_path_list
              (del_step k p op (add_step k m.table p dentry op)).0.restrict_path_list)
          (sym e') (inr (del_path-Removed k m.table p))
  ]

  change_entry-EditsList :
      (p : Bytes) (op : ℕ) (look : Lookup)
      → is_op (pos op) ≡ true
      → EditsList (change_entry k m p op look).0
  unfolding change_entry
  change_entry-EditsList p op (failed n) h = (refl, refl, same-Edited)
  change_entry-EditsList p op (found dentry) h = (refl, refl, step-Edited p dentry op h)

  abbrev pub Held : (Monitor P → Type 0) → Run (Monitor P × ℤ) → Type 0
  Held Q (ran (m', ret)) = Q m'
  Held Q oops = Unit

  change_path_at-EditsList :
      (op : ℕ) (r : Run (Bytes × ℤ))
      → is_op (pos op) ≡ true
      → Held EditsList (r >>= change_path_at k m op)
  unfolding change_path_at
  change_path_at-EditsList op oops h = tt
  change_path_at-EditsList op (ran (b, ret)) h =
      if-cases (Held EditsList) (is_nonzero ret) (ran (m, ret)) _ (λ e. (refl, refl, same-Edited))
        (λ e.
          if-cases (Held EditsList) (forbitten_path m.single_file_name (some (c_string b)))
            (ran (m, neg einval))
            (ran (change_entry k m (c_string b) op (k.kern_path (c_string b))))
            (λ e. (refl, refl, same-Edited))
            (λ e. change_entry-EditsList (c_string b) op (k.kern_path (c_string b)) h))

  -- The monitor is as it was, or the caller may change the list, and has.
  abbrev pub ChangesPaths : Option Bytes → Monitor P → Type 0
  ChangesPaths the_pwd m' =
      (m' ≡ m)
      ⊎ ((k.euid ≡ m.admin)
          × (check_pwd k m the_pwd ≡ pos 0)
          × ((m.current_state ≡ rec_off) ⊎ (m.current_state ≡ rec_on))
          × EditsList m')

  pub Held-map :
      (Q R : Monitor P → Type 0) (r : Run (Monitor P × ℤ))
      → ((m' : Monitor P) → Q m' → R m')
      → Held Q r
      → Held R r
  Held-map Q R (ran (m', ret)) f h = f m' h
  Held-map Q R oops f h = tt

  pub do_change_path-ChangesPaths :
      (the_pwd b : Option Bytes) (op : ℤ)
      → Held (ChangesPaths the_pwd) (do_change_path k m the_pwd b op)
  unfolding do_change_path
  do_change_path-ChangesPaths the_pwd none op =
      if-cases (Held (ChangesPaths the_pwd)) (not (k.euid == m.admin)) (ran (m, neg eperm))
        (ran (m, neg einval)) (λ e. inl refl) (λ e. inl refl)
  do_change_path-ChangesPaths the_pwd (some b) (negsuc n) =
      if-cases (Held (ChangesPaths the_pwd)) (not (k.euid == m.admin)) (ran (m, neg eperm))
        (ran (m, neg einval)) (λ e. inl refl) (λ e. inl refl)
  do_change_path-ChangesPaths the_pwd (some b) (pos op) =
      let Q = Held (ChangesPaths the_pwd) in
      let changed = fill_absolute_path k b >>= change_path_at k m op in
      if-cases Q (not (k.euid == m.admin)) (ran (m, neg eperm)) _ (λ e. inl refl)
        (λ e1.
          if-cases Q (not (is_op (pos op))) (ran (m, neg einval)) _ (λ e. inl refl)
            (λ e2.
              if-cases Q (is_nonzero (check_pwd k m the_pwd)) (ran (m, neg eacces)) _
                (λ e. inl refl)
                (λ e3.
                  if-cases Q (not (m.current_state == rec_off || m.current_state == rec_on))
                    (ran (m, neg ecanceled)) changed (λ e. inl refl)
                    (λ e4.
                      Held-map EditsList (ChangesPaths the_pwd) changed
                        (λ m' h.
                          inr (ground (arith, e1), ground (arith, e3), ground (arith, e4), h))
                        (change_path_at-EditsList op (fill_absolute_path k b)
                          (ground (arith, e2)))))))

  -- The monitor has kept its state, its paths and its digest, or the caller may change the state.
  pub do_change_state-pwd :
      (kp : Kprobes P) (the_pwd : Option Bytes) (s : ℤ)
      → (do_change_state kp k m the_pwd s).0.pwd ≡ m.pwd
  unfolding do_change_state enter_state switch_hooks
  do_change_state-pwd kp the_pwd s = ground arith

  pub do_change_password-digest :
      (k' : Kernel) (old new : Option Bytes)
      → ((do_change_password k k' m old new).0.pwd ≡ m.pwd)
        ⊎ ((k.euid ≡ m.admin) × (check_pwd k m old ≡ pos 0))
  unfolding do_change_password
  do_change_password-digest k' none new = inl (ground arith)
  do_change_password-digest k' (some old) none = inl (ground arith)
  do_change_password-digest k' (some old) (some new) = ground arith
