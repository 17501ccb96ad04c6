-- ===== src/RestrictList/Change.antt =====
-- What `add_path` and `del_path` do to the list.
use aos_project.Base.{
  ℕ, suc, ◌≡◌, ◌≢◌, ◌↔◌, ◌⊎◌, true, false, some, List, [], ◌∷◌, ◌++◌, arith, length, All, AnyOf,
  pos, neg, is_nonzero, enoent, eexist,
}
use aos_project.CString.{Bytes, same_n, same_n_self, same_n-length-append}
use aos_project.Kernel.{Inodes, Kernel, entry_block, entry_path}
use aos_project.RestrictList.{
  RcuRestrict, Table, entry_of, add_path, restore_entry, del_loop, del_path,
}
use aos_project.RestrictList.Membership.{Listed, is_path_in_iff}

-- No path stands in the list twice.
abbrev pub Distinct : List RcuRestrict → Type 0
Distinct [] = Unit
Distinct (e ∷ l) = (¬ Listed e.path l) × Distinct l

-- What `add_path` needs besides the arguments that it is given.
pub record CanAdd (k : Kernel) (t : Table) (p : Bytes) (dentry i : ℕ) : Type 0 where
  pub stack_clear : k.stack_err ≡ pos 0
  pub entry : k.allocates entry_block ≡ true
  pub path : k.allocates entry_path ≡ true
  pub inode : k.d_inode dentry ≡ some i

module _ (k : Kernel) (t : Table) (p : Bytes) (dentry : ℕ) where
  -- With 0 in the uninitialised `err`, memory for the entry and an inode for the dentry: a new
  -- path goes to the head of the list with the inode number, mode and flags of its file; a path
  -- that is listed is refused with -EEXIST.
  pub add_path_lem :
      (i : ℕ)
      → CanAdd k t p dentry i
      → ((add_path k t (some p) dentry ≡ (
        record t { restrict_path_list = entry_of p (t.inodes i) ∷ t.restrict_path_list },
        pos 0,
      ))
          × ¬ Listed p t.restrict_path_list)
        ⊎ ((add_path k t (some p) dentry ≡ (t, neg eexist)) × Listed p t.restrict_path_list)
  unfolding add_path
  add_path_lem i c = ground (arith, is_path_in_iff t.restrict_path_list p)

  -- A call that does not return 0 changes neither the list nor an inode.
  pub add_path-atomic :
      (add_path k t (some p) dentry).1 ≢ pos 0 → (add_path k t (some p) dentry).0 ≡ t
  unfolding add_path
  add_path-atomic h = ground arith

  -- Paths stay distinct.
  pub add_path-Distinct :
      Distinct t.restrict_path_list → Distinct (add_path k t (some p) dentry).0.restrict_path_list
  unfolding add_path
  add_path-Distinct h = ground (arith, is_path_in_iff t.restrict_path_list p)

-- With garbage in the uninitialised `err`, a path that is not listed is not added, whatever the file.
pub add_path_garbage :
    (k : Kernel) (t : Table) (p : Bytes) (dentry : ℕ)
    → is_nonzero k.stack_err ≡ true
    → ¬ Listed p t.restrict_path_list
    → add_path k t (some p) dentry ≡ (t, k.stack_err)
unfolding add_path
add_path_garbage k t p dentry g h = ground (arith, is_path_in_iff t.restrict_path_list p)

abbrev pub NotPrefix : Bytes → RcuRestrict → Type 0
NotPrefix p e = same_n (length p) p e.path ≡ false

module _ (k : Kernel) (p : Bytes) where
  -- The loop stops at the first entry that starts with the path.
  del_loop_first :
      (before after : List RcuRestrict) (e : RcuRestrict) (inodes : Inodes)
      → All (NotPrefix p) before
      → same_n (length p) p e.path ≡ true
      → del_loop k p (before ++ e ∷ after) inodes ≡ (
        record {
          restrict_path_list = before ++ after;
          inodes = (restore_entry k (neg enoent) e inodes (k.kern_path e.path)).0;
        },
        (restore_entry k (neg enoent) e inodes (k.kern_path e.path)).1,
      )
  unfolding del_loop
  del_loop_first [] after e inodes h q = ground arith
  del_loop_first (b ∷ before) after e inodes h q =
      ground (arith, del_loop_first before after e inodes h.1 q)

  abbrev rest_of : List RcuRestrict → Inodes → List RcuRestrict
  rest_of l inodes = (del_loop k p l inodes).0.restrict_path_list

  del_loop-Listed :
      (l : List RcuRestrict) (inodes : Inodes) (q : Bytes)
      → Listed q (rest_of l inodes)
      → Listed q l
  unfolding del_loop
  del_loop-Listed [] inodes q h = h
  del_loop-Listed (e ∷ l) inodes q h = ground (arith, del_loop-Listed l inodes q)

  del_loop-Distinct :
      (l : List RcuRestrict) (inodes : Inodes) → Distinct l → Distinct (rest_of l inodes)
  unfolding del_loop
  del_loop-Distinct [] inodes h = tt
  del_loop-Distinct (e ∷ l) inodes h =
      ground (arith, del_loop-Distinct l inodes h.1, del_loop-Listed l inodes e.path)

  del_loop-length :
      (l : List RcuRestrict) (inodes : Inodes)
      → AnyOf (λ e. same_n (length p) p e.path ≡ true) l
      → length l ≡ suc (length (rest_of l inodes))
  unfolding del_loop
  del_loop-length [] inodes h = absurd h
  del_loop-length (e ∷ l) inodes h = ground (arith, del_loop-length l inodes)

  -- An entry that starts with the path is the path itself.
  abbrev pub NoExtension : List RcuRestrict → Type 0
  NoExtension = All (λ e. same_n (length p) p e.path ≡ true → p ≡ e.path)

  del_loop-keeps :
      (l : List RcuRestrict) (inodes : Inodes) (q : Bytes)
      → NoExtension l
      → q ≢ p
      → Listed q l
      → Listed q (rest_of l inodes)
  unfolding del_loop
  del_loop-keeps [] inodes q n d h = h
  del_loop-keeps (e ∷ l) inodes q n d h = ground (arith, n.0, del_loop-keeps l inodes q n.1 d)

  del_loop-removes :
      (l : List RcuRestrict) (inodes : Inodes)
      → NoExtension l
      → Distinct l
      → ¬ Listed p (rest_of l inodes)
  unfolding del_loop
  del_loop-removes [] inodes n d h = h
  del_loop-removes (e ∷ l) inodes n d h =
      ground (arith, n.0, del_loop-removes l inodes n.1 d.1, same_n_self (length p) p)

module _ (k : Kernel) (t : Table) (p : Bytes) where
  abbrev del_list : List RcuRestrict
  del_list = (del_path k t (some p)).0.restrict_path_list

  -- With 0 in the uninitialised `err`, and where no listed path properly extends it: a path of a
  -- list of distinct paths is gone once it is deleted, and exactly the other paths stay.
  pub del_path_exact :
      k.stack_err ≡ pos 0
      → Distinct t.restrict_path_list
      → NoExtension k p t.restrict_path_list
      → (q : Bytes) → Listed q del_list ↔ (Listed q t.restrict_path_list × (q ≢ p))
  unfolding del_path
  del_path_exact c d n q = rw c (
    (λ h. (del_loop-Listed k p _ _ q h, λ e. del_loop-removes k p _ _ n d (rw e at h))),
    (λ h. del_loop-keeps k p _ _ q n h.1 h.0),
  )

  -- With 0 in the uninitialised `err`, the first entry that starts with the bytes of the path is
  -- the one that is removed, and its file gets the saved mode and flags back.
  pub del_path_first :
      (before after : List RcuRestrict) (e : RcuRestrict)
      → k.stack_err ≡ pos 0
      → t.restrict_path_list ≡ before ++ e ∷ after
      → All (NotPrefix p) before
      → (r : Bytes) → e.path ≡ p ++ r
      → del_path k t (some p) ≡ (
        record {
          restrict_path_list = before ++ after;
          inodes = (restore_entry k (neg enoent) e t.inodes (k.kern_path e.path)).0;
        },
        (restore_entry k (neg enoent) e t.inodes (k.kern_path e.path)).1,
      )
  unfolding del_path
  del_path_first before after e c q h r x =
      rw (c, q) (del_loop_first k p before after e t.inodes h (rw x (same_n-length-append p r)))

  -- With 0 in the uninitialised `err`, an entry is lost whenever some listed path merely starts
  -- with the given bytes.
  pub del_path_prefix :
      k.stack_err ≡ pos 0
      → AnyOf (λ e. same_n (length p) p e.path ≡ true) t.restrict_path_list
      → length t.restrict_path_list ≡ suc (length del_list)
  unfolding del_path
  del_path_prefix c h = rw c (del_loop-length k p _ _ h)

  -- Paths stay distinct.
  pub del_path-Distinct : Distinct t.restrict_path_list → Distinct del_list
  unfolding del_path
  del_path-Distinct d = ground (arith, del_loop-Distinct k p t.restrict_path_list t.inodes d)
