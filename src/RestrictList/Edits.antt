-- ===== src/RestrictList/Edits.antt =====
-- reference-monitor/lib/reference_rcu_restrict_list.c: what adding and deleting do to the list, on every
-- path.
use aos_project.Base.{
  ℕ, ◌≡◌, refl, ap, ◌⊎◌, inl, inr, not, Option, none, some, List, [], ◌∷◌, ◌++◌, arith, if-cases,
  length, ℤ, neg, is_nonzero, enoent, enomem, eexist,
}
use aos_project.CString.{Bytes, is_zero, same_n}
use aos_project.Kernel.{Kernel, Inodes, entry_block, entry_path}
use aos_project.RestrictList.{
  RcuRestrict, Table, add_path, insert_entry, entry_of, del_path, del_loop, is_path_in,
}
use aos_project.RestrictList.Membership.{Listed, is_path_in_iff}

-- One new entry at the head, or the list as it was.
abbrev pub Added : Bytes → List RcuRestrict → List RcuRestrict → Type 0
Added p l l' = (l' ≡ l) ⊎ ((¬ Listed p l) × ((e : RcuRestrict) × ((e.path ≡ p) × (l' ≡ e ∷ l))))

-- One entry less, or the list as it was.
abbrev pub Removed : List RcuRestrict → List RcuRestrict → Type 0
Removed l l' =
    (l' ≡ l)
    ⊎ ((before : List RcuRestrict) × ((e : RcuRestrict) × ((after : List RcuRestrict) × ((l
                ≡ before ++ e ∷ after)
              × (l' ≡ before ++ after)))))

insert_entry-Added :
    (t : Table) (p : Bytes) (i : Option ℕ)
    → ¬ Listed p t.restrict_path_list
    → Added p t.restrict_path_list (insert_entry t p i).0.restrict_path_list
unfolding insert_entry
insert_entry-Added t p none n = inl refl
insert_entry-Added t p (some i) n = inr (n, (entry_of p (t.inodes i), (refl, refl)))

pub add_path-Added :
    (k : Kernel) (t : Table) (p : Bytes) (dentry : ℕ)
    → Added p t.restrict_path_list (add_path k t (some p) dentry).0.restrict_path_list
unfolding add_path
add_path-Added k t p dentry =
    let Q : Table × ℤ → Type 0 = λ r. Added p t.restrict_path_list r.0.restrict_path_list in
    if-cases Q (is_zero (is_path_in t.restrict_path_list (some p))) (t, neg eexist) _
      (λ e. inl refl)
      (λ e.
        if-cases Q (is_nonzero k.stack_err) (t, k.stack_err) _ (λ e. inl refl)
          (λ e'.
            if-cases Q (not (k.allocates entry_block)) (t, neg enomem) _ (λ e. inl refl)
              (λ e'.
                if-cases Q (not (k.allocates entry_path)) (t, neg enomem)
                  (insert_entry t p (k.d_inode dentry)) (λ e. inl refl)
                  (λ e'.
                    insert_entry-Added t p (k.d_inode dentry)
                      (λ h. ground (arith, e, (is_path_in_iff t.restrict_path_list p).1 h))))))

Removed-behind :
    (e : RcuRestrict) (l l' : List RcuRestrict) → Removed l l' → Removed (e ∷ l) (e ∷ l')
Removed-behind e l l' (inl h) = inl (ap (◌∷◌ e) h)
Removed-behind e l l' (inr (before, (x, (after, (h, h'))))) =
    inr (e ∷ before, (x, (after, (ap (◌∷◌ e) h, ap (◌∷◌ e) h'))))

del_loop-Removed :
    (k : Kernel) (p : Bytes) (l : List RcuRestrict) (inodes : Inodes)
    → Removed l (del_loop k p l inodes).0.restrict_path_list
unfolding del_loop
del_loop-Removed k p [] inodes = inl refl
del_loop-Removed k p (e ∷ l) inodes =
    if-cases (λ (r : Table × ℤ). Removed (e ∷ l) r.0.restrict_path_list)
      (same_n (length p) p e.path) _ _ (λ h. inr ([], (e, (l, (refl, refl)))))
      (λ h. Removed-behind e l _ (del_loop-Removed k p l inodes))

pub del_path-Removed :
    (k : Kernel) (t : Table) (p : Bytes)
    → Removed t.restrict_path_list (del_path k t (some p)).0.restrict_path_list
unfolding del_path
del_path-Removed k t p =
    if-cases (λ (r : Table × ℤ). Removed t.restrict_path_list r.0.restrict_path_list)
      (is_nonzero k.stack_err) (t, neg enoent) (del_loop k p t.restrict_path_list t.inodes)
      (λ e. inl refl) (λ e. del_loop-Removed k p t.restrict_path_list t.inodes)
