-- ===== src/FunctionalityTest/Runs.antt =====
-- test/functionality_test.c: the order of the calls in the test of the paths.
use aos_project.Base.{
  ◌≡◌, refl, true, false, some, pos, neg, is_negative, enoent, eacces, eexist, ecanceled,
}
use aos_project.CString.{Bytes}
use aos_project.Kernel.{ran}
use aos_project.Syscalls.{off, rec_off, add_path_op, remove_path_op}
use aos_project.FunctionalityTest.{goes, Calls, expect, expect_zero, or_return, forbitten_paths}
use aos_project.FunctionalityTest.PathTest.{
  reconfigures, or_exit, test_forbitten_paths, test_bad_arguments, test_canceled, test_good,
  test_change_path,
}
use aos_project.FunctionalityTest.PathRun.{v}

-- The parts of the test and the whole, on calls with these results.
pub test_good-run :
    {W : Type 0} (v : Calls W) (good bad path : Bytes) (w w1 w2 w3 w4 : W)
    → v.change_state_func 0 w good (pos rec_off) ≡ ran (w1, pos 0)
    → v.change_path_func 0 w1 good (some path) (pos add_path_op) ≡ ran (w2, pos 0)
    → v.change_path_func 0 w2 good (some path) (pos add_path_op) ≡ ran (w2, neg eexist)
    → v.change_path_func 0 w2 good (some path) (pos remove_path_op) ≡ ran (w3, pos 0)
    → v.change_path_func 0 w3 good (some path) (pos remove_path_op) ≡ ran (w4, neg enoent)
    → test_good v good bad path w ≡ goes w4
unfolding test_good expect or_exit expect_zero
test_good-run v good bad path w w1 w2 w3 w4 a b c d e = rw (a, b, c, d, e) refl

pub test_canceled-run :
    {W : Type 0} (v : Calls W) (good bad path : Bytes) (w w1 : W)
    → reconfigures (v.get_state_from_sys w) ≡ true
    → v.change_state_func 0 w good (pos off) ≡ ran (w1, pos 0)
    → expect ecanceled (v.change_path_func 0 w1 good (some path) (pos add_path_op)) ≡ goes w1
    → expect ecanceled (v.change_path_func 0 w1 good (some path) (pos remove_path_op)) ≡ goes w1
    → test_canceled v good bad path w ≡ goes w1
unfolding test_canceled or_exit
test_canceled-run v good bad path w w1 a b c d = rw (a, b, c, d) refl

pub test_change_path-run :
    {W : Type 0} (v : Calls W) (good bad path : Bytes) (w w1 w2 w3 : W)
    → test_bad_arguments v good bad path w ≡ goes w
    → v.change_state_func 0 w good (pos rec_off) ≡ ran (w1, pos 0)
    → is_negative (v.get_state_from_sys w1) ≡ false
    → test_forbitten_paths v good bad path forbitten_paths w1 ≡ goes w1
    → expect eacces (v.change_path_func 0 w1 bad (some path) (pos add_path_op)) ≡ goes w1
    → test_canceled v good bad path w1 ≡ goes w2
    → test_good v good bad path w2 ≡ goes w3
    → test_change_path v good bad path w ≡ goes w3
unfolding test_change_path or_return
test_change_path-run v good bad path w w1 w2 w3 a b c d e f g = rw (a, b, c, d, e, f, g) refl
