-- ===== src/Syscalls/Path.antt =====
-- What `do_change_path` does on each of its paths.
use aos_project.Base.{
  ℕ, ◌≡◌, refl, ◌≢◌, ◌⊎◌, inl, inr, false, Option, none, some, arith, Bool-cases, ℤ, pos, neg,
  is_nonzero, eperm, eacces, einval, ecanceled,
}
use aos_project.CString.{Bytes, c_string}
use aos_project.Kernel.{Kernel, Lookup, failed, found, Run, ran, oops, ◌>>=◌}
use aos_project.RestrictList.{Table, add_path, del_path, forbitten_path}
use aos_project.RestrictList.Change.{Distinct, add_path-Distinct, del_path-Distinct}
use aos_project.PathSolver.{fill_absolute_path}
use aos_project.Syscalls.{
  Monitor, check_pwd, do_change_path, change_path_at, change_entry, to_ulong, add_step, del_step,
  add_path_op, remove_path_op, rec_on, rec_off,
}

module _ {P : Type 0} (m : Monitor P) where
  -- The paths are distinct, and nothing but the list and the inodes has changed.
  abbrev pub IsKept : Monitor P → Type 0
  IsKept m' =
      Distinct m'.table.restrict_path_list
      × (m'.current_state ≡ m.current_state)
      × (m'.probes ≡ m.probes)
      × (m'.pwd ≡ m.pwd)

  abbrev pub ResultIsKept : Run (Monitor P × ℤ) → Type 0
  ResultIsKept (ran (m', ret)) = IsKept m'
  ResultIsKept oops = Unit

module _ {P : Type 0} (k : Kernel) (m : Monitor P) (d : Distinct m.table.restrict_path_list) where
  add_step-Distinct :
      (p : Bytes) (dentry op : ℕ) → Distinct (add_step k m.table p dentry op).0.restrict_path_list
  unfolding add_step
  add_step-Distinct p dentry op = ground (arith, add_path-Distinct k m.table p dentry d)

  del_step-Distinct :
      (p : Bytes) (op : ℕ) (r : Table × ℤ)
      → Distinct r.0.restrict_path_list
      → Distinct (del_step k p op r).0.restrict_path_list
  unfolding del_step
  del_step-Distinct p op (t, ret) h = ground (arith, del_path-Distinct k t p h)

  change_entry-IsKept :
      (p : Bytes) (op : ℕ) (look : Lookup) → IsKept m (change_entry k m p op look).0
  unfolding change_entry
  change_entry-IsKept p op (failed n) = (d, refl, refl, refl)
  change_entry-IsKept p op (found dentry) = (
    del_step-Distinct p op (add_step k m.table p dentry op) (add_step-Distinct p dentry op),
    refl,
    refl,
    refl,
  )

  change_path_at-IsKept :
      (op : ℕ) (r : Run (Bytes × ℤ)) → ResultIsKept m (r >>= change_path_at k m op)
  unfolding change_path_at
  change_path_at-IsKept op oops = tt
  change_path_at-IsKept op (ran (b, ret)) = elim (Bool-cases (is_nonzero ret)) [
    | inl e ↦ rw e (d, refl, refl, refl)
    | inr e ↦ rw e (elim (Bool-cases (forbitten_path m.single_file_name (some (c_string b)))) [
      | inl f ↦ rw f (d, refl, refl, refl)
      | inr f ↦ rw f (change_entry-IsKept (c_string b) op (k.kern_path (c_string b)))
    ])
  ]

module _ {P : Type 0} (k : Kernel) (m : Monitor P) (the_pwd : Option Bytes) (b : Bytes) where
  -- Who may change the list, and when.
  pub record MayChange : Type 0 where
    pub is_admin : k.euid ≡ m.admin
    pub knows : check_pwd k m the_pwd ≡ pos 0
    pub reconfigures : (m.current_state ≡ rec_off) ⊎ (m.current_state ≡ rec_on)

  -- The buffer with the resolved path `p`, which the list may hold and which exists.
  pub record Target (p : Bytes) (dentry : ℕ) : Type 0 where
    pub buffer : Bytes
    pub fills : fill_absolute_path k b ≡ ran (buffer, pos 0)
    pub string : c_string buffer ≡ p
    pub allowed : forbitten_path m.single_file_name (some p) ≡ false
    pub exists : k.kern_path p ≡ found dentry

  -- The administrator, with the password and in REC_ON or REC_OFF, adds a path whose buffer is
  -- resolved to a path that exists and is not forbidden: the call does to the list what
  -- `add_path` does, and gives its result.
  pub do_change_path_add :
      (p : Bytes) (dentry : ℕ)
      → MayChange
      → Target p dentry
      → do_change_path k m the_pwd (some b) (pos add_path_op)
        ≡ ran (
          record m { table = (add_path k m.table (some p) dentry).0 },
          (add_path k m.table (some p) dentry).1,
        )
  unfolding do_change_path change_entry
  do_change_path_add p dentry c t =
      let entry : change_entry k m (c_string t.buffer) add_path_op (k.kern_path (c_string t.buffer))
          ≡ (
            record m { table = (add_path k m.table (some p) dentry).0 },
            (add_path k m.table (some p) dentry).1,
          ) =
        rw (t.string, t.exists) in
      ground (arith, t.fills, t.string)

  -- The administrator, with the password and in REC_ON or REC_OFF, removes a path whose buffer is
  -- resolved to a path that exists and is not forbidden: the call does to the list what
  -- `del_path` does, and gives its result.
  pub do_change_path_remove :
      (p : Bytes) (dentry : ℕ)
      → MayChange
      → Target p dentry
      → do_change_path k m the_pwd (some b) (pos remove_path_op)
        ≡ ran
            (record m { table = (del_path k m.table (some p)).0 }, (del_path k m.table (some p)).1)
  unfolding do_change_path change_entry
  do_change_path_remove p dentry c t =
      let entry : change_entry k m (c_string t.buffer) remove_path_op
            (k.kern_path (c_string t.buffer))
          ≡ (
            record m { table = (del_path k m.table (some p)).0 },
            (del_path k m.table (some p)).1,
          ) =
        rw (t.string, t.exists) in
      ground (arith, t.fills, t.string)

  abbrev changed : ℤ → Run (Monitor P × ℤ)
  changed = do_change_path k m the_pwd (some b)

  -- The monitor is as before, and the result is one of the errors of the tests.
  abbrev pub IsRefused : Run (Monitor P × ℤ) → Type 0
  IsRefused r =
      (r ≡ ran (m, neg eperm))
      ⊎ (r ≡ ran (m, neg einval))
      ⊎ (r ≡ ran (m, neg eacces))
      ⊎ (r ≡ ran (m, neg ecanceled))

  -- A caller who is not the administrator, or a call in another state than REC_ON and REC_OFF,
  -- gets -EPERM, -EINVAL, -EACCES or -ECANCELED, and the monitor stays as it is.
  pub do_change_path-IsRefused :
      (op : ℤ)
      → (k.euid ≢ m.admin)
        ⊎ (check_pwd k m the_pwd ≢ pos 0)
        ⊎ ((m.current_state ≢ rec_off) × (m.current_state ≢ rec_on))
      → IsRefused (changed op)
  unfolding do_change_path
  do_change_path-IsRefused op h = ground arith

-- Whatever the call is given, distinct paths stay distinct, and neither the state, nor the probes,
-- nor the password changes.
pub do_change_path-IsKept :
    {P : Type 0} (k : Kernel) (m : Monitor P) (the_pwd b : Option Bytes) (op : ℤ)
    → Distinct m.table.restrict_path_list
    → ResultIsKept m (do_change_path k m the_pwd b op)
unfolding do_change_path
do_change_path-IsKept k m the_pwd none op d = ground arith
do_change_path-IsKept k m the_pwd (some b) op d =
    ground (arith, change_path_at-IsKept k m d (to_ulong op) (fill_absolute_path k b))
