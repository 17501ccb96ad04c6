-- ===== src/RestrictList/Membership.antt =====
-- What `is_path_in` and `check_black_list` find.
use aos_project.Base.{
  ℕ, ◌≡◌, refl, ◌≢◌, ◌↔◌, ◌⊎◌, inl, inr, Bool, true, none, some, List, [], ◌∷◌, arith, Bool-cases,
  Option-cases, AnyOf, pos, neg, eexist,
}
use aos_project.CString.{Bytes, is_zero, same_iff}
use aos_project.Kernel.{Lookup, failed, found, Kernel, ran}
use aos_project.RestrictList.{
  RcuRestrict, Table, is_path_in, link_target, Target, no_target, null_inode, numbered,
  black_list_loop, path_scan, inode_target, check_black_list,
}

abbrev pub Listed : Bytes → List RcuRestrict → Type 0
Listed p = AnyOf (λ e. p ≡ e.path)

path_scan_iff : (l : List RcuRestrict) (p : Bytes) → (is_zero (path_scan l p) ≡ true) ↔ Listed p l
unfolding path_scan
path_scan_iff [] p = ground arith
path_scan_iff (e ∷ l) p = ground (arith, same_iff p e.path, path_scan_iff l p)

-- A path is found exactly when an entry has it.
pub is_path_in_iff :
    (l : List RcuRestrict) (p : Bytes) → (is_zero (is_path_in l (some p)) ≡ true) ↔ Listed p l
unfolding is_path_in
is_path_in_iff l p = path_scan_iff l p

-- An entry has this inode number.
abbrev pub Numbered : ℕ → List RcuRestrict → Type 0
Numbered n = AnyOf (λ e. e.i_ino ≡ n)

-- The path or, for an open, the file that it leads to is in the list.
abbrev pub Blacklisted : Kernel → Table → Bytes → Bool → Type 0
Blacklisted k t p is_open =
    Listed p t.restrict_path_list
    ⊎ ((is_open ≡ true)
        × (d : ℕ) × (i : ℕ) × (k.kern_path p ≡ found d)
        × (k.d_inode d ≡ some i)
        × Numbered (t.inodes i).i_ino t.restrict_path_list)

-- A dentry that a lookup gives has an inode.
abbrev pub PositiveLookup : Kernel → Bytes → Type 0
PositiveLookup k p = (d : ℕ) → k.kern_path p ≡ found d → k.d_inode d ≢ none

abbrev Hit : Target → Bytes → List RcuRestrict → Type 0
Hit no_target p l = Listed p l
Hit null_inode p l = ⊥
Hit (numbered n) p l = Listed p l ⊎ Numbered n l

black_list_loop-Hit :
    (link : Target) (p : Bytes) (l : List RcuRestrict)
    → link ≢ null_inode
    → ((black_list_loop p link l ≡ ran (pos 0)) × Hit link p l)
      ⊎ ((black_list_loop p link l ≡ ran (neg eexist)) × ¬ Hit link p l)
unfolding black_list_loop
black_list_loop-Hit no_target p [] h = ground arith
black_list_loop-Hit no_target p (e ∷ l) h =
    ground (arith, same_iff p e.path, black_list_loop-Hit no_target p l h)
black_list_loop-Hit null_inode p l h = absurd (h refl)
black_list_loop-Hit (numbered n) p [] h = ground arith
black_list_loop-Hit (numbered n) p (e ∷ l) h =
    ground (arith, same_iff p e.path, black_list_loop-Hit (numbered n) p l h)

module _ (k : Kernel) (t : Table) (p : Bytes) (is_open : Bool) (positive : PositiveLookup k p) where
  abbrev link_of : Lookup → Target
  link_of = link_target k t.inodes is_open

  link_of-ne-null_inode : (look : Lookup) → k.kern_path p ≡ look → link_of look ≢ null_inode
  unfolding link_target inode_target
  link_of-ne-null_inode (failed n) e = ground arith
  link_of-ne-null_inode (found d) e = ground (arith, positive d e)

  Hit-found :
      (d i : ℕ)
      → k.kern_path p ≡ found d
      → k.d_inode d ≡ some i
      → Hit (link_of (found d)) p t.restrict_path_list
      → Blacklisted k t p is_open
  unfolding link_target inode_target
  Hit-found d i e f h = elim (Bool-cases is_open) [
    | inl o ↦
        let either : Listed p t.restrict_path_list
            ⊎ Numbered (t.inodes i).i_ino t.restrict_path_list =
          ground arith in
        elim either [ inl a ↦ inl a | inr n ↦ inr (o, d, i, e, f, n) ]
    | inr c ↦ inl (ground arith)
  ]

  Hit-Blacklisted :
      (look : Lookup)
      → k.kern_path p ≡ look
      → Hit (link_of look) p t.restrict_path_list
      → Blacklisted k t p is_open
  unfolding link_target inode_target
  Hit-Blacklisted (failed n) e h = inl h
  Hit-Blacklisted (found d) e h = elim (Option-cases (k.d_inode d)) [
    | inl f ↦ absurd (positive d e f)
    | inr (i, f) ↦ Hit-found d i e f h
  ]

  Blacklisted-Hit :
      (look : Lookup)
      → k.kern_path p ≡ look
      → Blacklisted k t p is_open
      → Hit (link_of look) p t.restrict_path_list
  unfolding link_target inode_target
  Blacklisted-Hit (failed n) e h = ground arith
  Blacklisted-Hit (found d) e h = ground (arith, positive d e)

-- With lookups that give inodes, `check_black_list` answers 0 on a path that is in the list or, for
-- an open, that leads to a file with an inode number in the list; on every other path it answers
-- -EEXIST. It never faults.
pub check_black_list_decides :
    (k : Kernel) (t : Table) (p : Bytes) (is_open : Bool)
    → PositiveLookup k p
    → ((check_black_list k t (some p) is_open ≡ ran (pos 0)) × Blacklisted k t p is_open)
      ⊎ ((check_black_list k t (some p) is_open ≡ ran (neg eexist)) × ¬ Blacklisted k t p is_open)
unfolding check_black_list
check_black_list_decides k t p is_open positive = ground (
  arith,
  black_list_loop-Hit (link_target k t.inodes is_open (k.kern_path p)) p t.restrict_path_list
      (link_of-ne-null_inode k t p is_open positive (k.kern_path p) refl),
  Hit-Blacklisted k t p is_open positive (k.kern_path p) refl,
  Blacklisted-Hit k t p is_open positive (k.kern_path p) refl,
)
