-- ===== src/FunctionalityTest/PathTest.antt =====
-- test/functionality_test.c: the test of the changes of the paths.
use aos_project.Base.{
  ◌+◌, bit_and, Bool, true, ◌||◌, none, some, List, [], ◌∷◌, if◌then◌else◌, ℤ, pos, negsuc,
  is_negative, eperm, enoent, eacces, eexist, einval, ecanceled,
}
use aos_project.Base.Bits.{has}
use aos_project.CString.{Bytes, is_zero}
use aos_project.Kernel.{Run, ran, oops}
use aos_project.Syscalls.{off, rec_on, rec_off, add_path_op, remove_path_op}
use aos_project.FunctionalityTest.{
  Test, goes, aborts, returns, ◌>>=◌, Calls, expect, expect_zero, or_return, forbitten_paths,
  other_user,
}

-- `current_state & REC_OFF || current_state & REC_ON`, of an int
unfoldable pub reconfigures : ℤ → Bool
reconfigures (pos s) = has s rec_off || has s rec_on
reconfigures (negsuc n) = true

-- `if (ret) exit(EXIT_FAILURE);`
unfoldable pub or_exit : {W : Type 0} → Run (W × ℤ) → Test W W
or_exit oops = aborts
or_exit (ran (w, ret)) = if is_zero ret then goes w else aborts

module _ {W : Type 0} (v : Calls W) (good_password bad_password test_exists_path : Bytes) where
  -- The loop over `forbitten_paths`.
  unfoldable pub test_forbitten_paths : List Bytes → W → Test W W
  unfolding expect
  test_forbitten_paths [] w = goes w
  test_forbitten_paths (p ∷ ps) w =
      expect einval (v.change_path_func 0 w good_password (some p) (pos add_path_op))
      >>= test_forbitten_paths ps

  -- The calls with arguments that no state of the monitor accepts.
  unfoldable pub test_bad_arguments : W → Test W W
  unfolding expect
  test_bad_arguments w = do
    w ←
        expect eperm
          (v.change_path other_user w good_password (some test_exists_path) (pos add_path_op))
    w ← expect einval (v.change_path_func 0 w good_password none (pos add_path_op))
    w ←
        expect einval
          (v.change_path_func 0 w good_password (some test_exists_path) (pos (add_path_op + 1000)))
    w ← expect einval (
        v.change_path_func 0 w bad_password (some test_exists_path)
          (pos (bit_and add_path_op remove_path_op)))
    expect einval (
        v.change_path_func 0 w bad_password (some test_exists_path)
          (pos (bit_and add_path_op remove_path_op)))

  -- The calls in a state that does not allow changes; `current_state` was read before.
  unfoldable pub test_canceled : W → Test W W
  unfolding expect or_exit reconfigures
  test_canceled w = do
    w ←
        (if reconfigures (v.get_state_from_sys w)
          then or_exit (v.change_state_func 0 w good_password (pos off))
          else goes w)
    w ←
        expect ecanceled
          (v.change_path_func 0 w good_password (some test_exists_path) (pos add_path_op))
    expect ecanceled
        (v.change_path_func 0 w good_password (some test_exists_path) (pos remove_path_op))

  -- The calls that succeed, and those on a path that is there or not. The test before them, of
  -- `current_state & REC_OFF & REC_ON`, is always true.
  unfoldable pub test_good : W → Test W W
  unfolding expect or_exit expect_zero
  test_good w = do
    w ← or_exit (v.change_state_func 0 w good_password (pos rec_off))
    w ← expect_zero (v.change_path_func 0 w good_password (some test_exists_path) (pos add_path_op))
    w ←
        expect eexist
          (v.change_path_func 0 w good_password (some test_exists_path) (pos add_path_op))
    w ←
        expect_zero
          (v.change_path_func 0 w good_password (some test_exists_path) (pos remove_path_op))
    expect enoent
        (v.change_path_func 0 w good_password (some test_exists_path) (pos remove_path_op))

  unfoldable pub test_change_path : W → Test W W
  unfolding test_bad_arguments test_forbitten_paths test_canceled test_good or_return expect
  test_change_path w = do
    w ← test_bad_arguments w
    w ← or_return (v.change_state_func 0 w good_password (pos rec_off))
    w ← (if is_negative (v.get_state_from_sys w) then returns w else goes w)
    w ← test_forbitten_paths forbitten_paths w
    w ←
        expect eacces
          (v.change_path_func 0 w bad_password (some test_exists_path) (pos add_path_op))
    w ← test_canceled w
    test_good w
