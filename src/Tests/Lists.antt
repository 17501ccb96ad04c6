-- ===== src/Tests/Lists.antt =====
-- Runs of the list: lookups, additions, deletions, restoring.
use aos_project.Base.{
  ◌≡◌, refl, ◌≢◌, ◌↔◌, ◌⊎◌, true, false, some, [], ◌∷◌, arith, AnyOf, pos, neg, eexist,
}
use aos_project.CString.{same}
use aos_project.Kernel.{ran}
use aos_project.Tests.Fixtures.{
  dir, file, log, lookup-inode_at, kernel, file_entry, table, dir_table,
}
use aos_project.RestrictList.{
  add_path, del_path, check_black_list, restore_black_list_entries, forbitten_path,
}
use aos_project.RestrictList.Forbidden.{system_folders, StartsWith, forbitten_path_iff}
use aos_project.RestrictList.Membership.{Listed, Blacklisted, check_black_list_decides}
use aos_project.RestrictList.Change.{del_path_exact}
use aos_project.RestrictList.Restore.{Avoids, Same, restore_black_list_entries_last}

-- The listed file is found, another one is not.
check_black_list-table :
    (check_black_list kernel table (some file) true ≡ ran (pos 0))
    × (check_black_list kernel dir_table (some file) false ≡ ran (neg eexist))
unfolding check_black_list same
check_black_list-table = (refl, refl)

check_black_list_decides_example :
    ((check_black_list kernel table (some file) true ≡ ran (pos 0))
      × Blacklisted kernel table file true)
    ⊎ ((check_black_list kernel table (some file) true ≡ ran (neg eexist))
        × ¬ Blacklisted kernel table file true)
check_black_list_decides_example =
    check_black_list_decides kernel table file true (lookup-inode_at file)

forbitten_path_iff_example :
    (forbitten_path log (some file) ≡ true)
    ↔ ((file ≡ (b'/' ∷ [])) ⊎ AnyOf (StartsWith file) system_folders ⊎ (log ≡ file))
forbitten_path_iff_example = forbitten_path_iff log file

listed_again : (add_path kernel table (some file) 7).1 ≢ pos 0
unfolding add_path same
listed_again = ground arith

del_path_exact_example :
    Listed dir (del_path kernel table (some file)).0.restrict_path_list
    ↔ (Listed dir (file_entry ∷ []) × (dir ≢ file))
del_path_exact_example = del_path_exact kernel table file refl (λ x. x, tt) (λ x. refl, tt) dir

restore_black_list_entries_last_example :
    Same kernel file_entry ((restore_black_list_entries kernel table).0.inodes 70)
unfolding same
restore_black_list_entries_last_example =
    restore_black_list_entries_last kernel table [] [] file_entry 70 refl refl tt

elsewhere : Avoids kernel 60 (file_entry ∷ [])
unfolding same
elsewhere = (ground arith, tt)
