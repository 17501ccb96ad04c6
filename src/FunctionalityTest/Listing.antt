-- ===== src/FunctionalityTest/Listing.antt =====
-- test/functionality_test.c: what the list makes of the path that the test adds and removes.
use aos_project.Base.{ℕ, ◌≡◌, refl, true, some, [], ◌∷◌, length, pos, neg, enoent, eexist}
use aos_project.CString.{Bytes, same_self, same_n_self}
use aos_project.Kernel.{Kernel, Inodes, entry_block, entry_path, found}
use aos_project.RestrictList.{
  RcuRestrict, Table, add_path, del_path, entry_of, is_path_in, restore_entry,
}

module _ (k : Kernel) (name : Bytes) (dentry i : ℕ) where
  -- What a new entry and its removal ask of the kernel: a path with an inode, memory, and a local that
  -- happens to hold 0.
  pub record CanList : Type 0 where
    pub exists : k.kern_path name ≡ found dentry
    pub inode : k.d_inode dentry ≡ some i
    pub block : k.allocates entry_block ≡ true
    pub copy : k.allocates entry_path ≡ true
    pub clean : k.stack_err ≡ pos 0

  abbrev pub entry : Inodes → RcuRestrict
  entry inodes = entry_of name (inodes i)

  pub add_path-nil :
      (t : Table)
      → CanList
      → t.restrict_path_list ≡ []
      → add_path k t (some name) dentry
        ≡ (record t { restrict_path_list = entry t.inodes ∷ [] }, pos 0)
  unfolding add_path is_path_in
  add_path-nil t c e = rw (e, c.clean, c.block, c.copy, c.inode) refl

  pub add_path-again :
      (t : Table) (e : RcuRestrict)
      → e.path ≡ name
      → t.restrict_path_list ≡ e ∷ []
      → add_path k t (some name) dentry ≡ (t, neg eexist)
  unfolding add_path is_path_in
  add_path-again t e p q = rw (q, p, same_self name) refl

  pub del_path-only :
      (t : Table) (e : RcuRestrict)
      → CanList
      → e.path ≡ name
      → t.restrict_path_list ≡ e ∷ []
      → ((del_path k t (some name)).0.restrict_path_list ≡ [])
        × ((del_path k t (some name)).1 ≡ pos 0)
  unfolding del_path restore_entry
  del_path-only t e c p q =
      rw (q, c.clean, p, same_n_self (length name) name, c.exists, c.inode) (refl, refl)

  pub del_path-nil :
      (t : Table)
      → CanList
      → t.restrict_path_list ≡ []
      → ((del_path k t (some name)).0.restrict_path_list ≡ [])
        × ((del_path k t (some name)).1 ≡ neg enoent)
  unfolding del_path
  del_path-nil t c q = rw (q, c.clean) (refl, refl)
