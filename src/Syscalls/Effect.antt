-- ===== src/Syscalls/Effect.antt =====
-- reference-monitor/lib/reference_syscalls.c and reference_rcu_restrict_list.c: what do_change_path does
-- to the list, down to its entries.
use aos_project.Base.{
  ◌≡◌, refl, ap, ◌∙◌, ◌≢◌, ◌↔◌, ◌⊎◌, inl, inr, some, List, ◌∷◌, ℕ, ℤ, pos, neg, eexist,
}
use aos_project.CString.{Bytes}
use aos_project.Kernel.{Kernel, Run, ran}
use aos_project.RestrictList.{Table, RcuRestrict, entry_of, del_path}
use aos_project.RestrictList.Membership.{Listed}
use aos_project.RestrictList.Change.{Distinct, CanAdd, add_path_lem, NoExtension, del_path_exact}
use aos_project.Syscalls.{Monitor, do_change_path, add_path_op, remove_path_op}
use aos_project.Syscalls.Path.{MayChange, Target, do_change_path_add, do_change_path_remove}

module _ {P : Type 0} (k : Kernel) (m : Monitor P) (pwd b p : Bytes) (dentry : ℕ)
    (may : MayChange k m (some pwd) b) (target : Target k m (some pwd) b p dentry) where
  abbrev paths : List RcuRestrict
  paths = m.table.restrict_path_list

  -- The entry that an addition puts at the head of the list.
  abbrev pub with_entry : ℕ → Monitor P
  with_entry i = record m {
    table = record m.table { restrict_path_list = entry_of p (m.table.inodes i) ∷ paths };
  }

  -- The administrator, with the password and in REC_ON or REC_OFF, asks to add a path whose buffer is
  -- resolved to a path `p` that exists, has an inode and is not forbidden, with memory for the
  -- entry and 0 in the uninitialised `err`. Where `p` is not listed, the call gives 0, the entry
  -- of `p`, with the number, mode and flags of its inode, is the new head of the list, and
  -- nothing else changes; where it is, the call gives -EEXIST and nothing changes.
  pub do_change_path-adds :
      (i : ℕ)
      → CanAdd k m.table p dentry i
      → let changed = do_change_path k m (some pwd) (some b) (pos add_path_op) in
        ((¬ Listed p paths) × (changed ≡ ran (with_entry i, pos 0)))
        ⊎ (Listed p paths × (changed ≡ ran (m, neg eexist)))
  do_change_path-adds i can =
      let e = do_change_path_add k m (some pwd) b p dentry may target in
      let f : Table × ℤ → Run (Monitor P × ℤ) = λ r. ran (record m { table = r.0 }, r.1) in
      elim (add_path_lem k m.table p dentry i can) [
        | inl (a, n) ↦ inl (n, e ∙ ap f a)
        | inr (a, l) ↦ inr (l, e ∙ ap f a)
      ]

  -- The administrator, with the password and in REC_ON or REC_OFF, asks to remove a path whose buffer is
  -- resolved to a path `p` that exists and is not forbidden, with 0 in the uninitialised `err`, from
  -- a list of distinct paths of which none properly extends `p`. The call comes to an end, and the
  -- list has exactly the paths of before but `p`; neither the state, nor the digest, nor the probes
  -- change.
  pub do_change_path-removes :
      k.stack_err ≡ pos 0
      → Distinct paths
      → NoExtension k p paths
      → (q : Bytes)
      → (m' : Monitor P) × (ret : ℤ) × (do_change_path k m (some pwd) (some b) (pos remove_path_op)
          ≡ ran (m', ret))
        × (Listed q m'.table.restrict_path_list ↔ (Listed q paths × (q ≢ p)))
        × (m'.current_state ≡ m.current_state)
        × (m'.pwd ≡ m.pwd)
        × (m'.probes ≡ m.probes)
  do_change_path-removes clear distinct none q =
      let r = del_path k m.table (some p) in
      (
        record m { table = r.0 },
        r.1,
        do_change_path_remove k m (some pwd) b p dentry may target,
        del_path_exact k m.table p clear distinct none q,
        refl,
        refl,
        refl,
      )
