-- ===== src/RestrictList/Restore.antt =====
-- What `restore_black_list_entries` leaves in the inodes.
use aos_project.Base.{
  ℕ, ◌≡◌, refl, ◌∙◌, ◌≢◌, true, Option, none, some, List, [], ◌∷◌, ◌++◌, arith, All, ℤ, pos,
}
use aos_project.Kernel.{Inode, Inodes, Lookup, failed, found, Kernel}
use aos_project.RestrictList.{
  RcuRestrict, Table, restored, restore_entry, restore_loop, restore_black_list_entries,
}

-- The inode that a lookup leads to.
abbrev pub inode_of : Kernel → Lookup → Option ℕ
inode_of k (failed n) = none
inode_of k (found d) = k.d_inode d

abbrev pub file_of : Kernel → RcuRestrict → Option ℕ
file_of k e = inode_of k (k.kern_path e.path)

-- No entry of the list leads to the inode.
abbrev pub Avoids : Kernel → ℕ → List RcuRestrict → Type 0
Avoids k i = All (λ e. file_of k e ≢ some i)

restore_entry_other :
    (k : Kernel) (missing : ℤ) (e : RcuRestrict) (inodes : Inodes) (i : ℕ) (look : Lookup)
    → inode_of k look ≢ some i
    → (restore_entry k missing e inodes look).0 i ≡ inodes i
unfolding restore_entry
restore_entry_other k missing e inodes i (failed n) h = refl
restore_entry_other k missing e inodes i (found d) h = ground arith

restore_entry_self :
    (k : Kernel) (missing : ℤ) (e : RcuRestrict) (inodes : Inodes) (i : ℕ) (look : Lookup)
    → inode_of k look ≡ some i
    → (restore_entry k missing e inodes look).0 i ≡ restored k e (inodes i)
unfolding restore_entry
restore_entry_self k missing e inodes i (failed n) h = ground arith
restore_entry_self k missing e inodes i (found d) h = ground arith

module _ (k : Kernel) where
  restore_loop_other :
      (l : List RcuRestrict) (inodes : Inodes) (ret : ℤ) (i : ℕ)
      → Avoids k i l
      → (restore_loop k l inodes ret).0 i ≡ inodes i
  unfolding restore_loop
  restore_loop_other [] inodes ret i h = refl
  restore_loop_other (e ∷ l) inodes ret i h =
      restore_loop_other l _ _ i h.1
      ∙ restore_entry_other k (pos 0) e inodes i (k.kern_path e.path) h.0

  abbrev pub Same : RcuRestrict → Inode → Type 0
  Same e v = (v.i_mode ≡ e.o_mode) × (v.i_flags ≡ e.o_flags) × (v.dirty ≡ true)

  restore_loop_last :
      (before after : List RcuRestrict) (e : RcuRestrict) (inodes : Inodes) (ret : ℤ) (i : ℕ)
      → file_of k e ≡ some i
      → Avoids k i after
      → Same e ((restore_loop k (before ++ e ∷ after) inodes ret).0 i)
  unfolding restore_loop
  restore_loop_last [] after e inodes ret i f h =
      rw
        (
          restore_loop_other after _ _ i h,
          restore_entry_self k (pos 0) e inodes i (k.kern_path e.path) f,
        )
        (refl, refl, refl)
  restore_loop_last (b ∷ before) after e inodes ret i f h =
      restore_loop_last before after e _ _ i f h

  -- Every listed file gets back the mode and the flags of the last entry that leads to it (the
  -- oldest, since new entries go to the head).
  pub restore_black_list_entries_last :
      (t : Table) (before after : List RcuRestrict) (e : RcuRestrict) (i : ℕ)
      → t.restrict_path_list ≡ before ++ e ∷ after
      → file_of k e ≡ some i
      → Avoids k i after
      → Same e ((restore_black_list_entries k t).0.inodes i)
  unfolding restore_black_list_entries
  restore_black_list_entries_last t before after e i q f h =
      rw q (restore_loop_last before after e _ _ i f h)

  -- The list, and every inode that no entry leads to, are as before.
  pub restore_black_list_entries_other :
      (t : Table) (i : ℕ)
      → Avoids k i t.restrict_path_list
      → ((restore_black_list_entries k t).0.inodes i ≡ t.inodes i)
        × ((restore_black_list_entries k t).0.restrict_path_list ≡ t.restrict_path_list)
  unfolding restore_black_list_entries
  restore_black_list_entries_other t i h = (restore_loop_other _ _ _ i h, refl)
