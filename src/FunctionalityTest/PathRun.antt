-- ===== src/FunctionalityTest/PathRun.antt =====
-- test/functionality_test.c: the test of the paths, on the monitor.
use aos_project.Base.{
  ℕ, ◌≡◌, refl, true, false, ◌||◌, none, some, List, [], ◌∷◌, arith, ◌==◌, All, pos, eperm, eacces,
  einval, ecanceled,
}
use aos_project.CString.{Bytes, c_string, zeros, overwrite}
use aos_project.Kernel.{Kernel, ran}
use aos_project.PathSolver.{path_max, fill_absolute_path}
use aos_project.RestrictList.{forbitten_path}
use aos_project.Syscalls.{
  Monitor, Kprobes, off, rec_off, add_path_op, remove_path_op, do_change_state, do_change_path,
}
use aos_project.FunctionalityTest.{goes, returns, Calls, expect, or_return, other_user}
use aos_project.FunctionalityTest.PathTest.{
  test_forbitten_paths, test_bad_arguments, test_change_path,
}
use aos_project.FunctionalityTest.StateRun.{as_user, monitor_calls, IsReady}

abbrev pub padded : Bytes → Bytes
padded p = overwrite p (zeros path_max)

module _ {P : Type 0} (kp : Kprobes P) (k : Kernel) (good bad path : Bytes) where
  abbrev pub v : Calls (Monitor P)
  v = monitor_calls kp k

  expect-other_user :
      (m : Monitor P)
      → IsReady kp k good bad m
      → expect eperm (v.change_path other_user m good (some path) (pos add_path_op)) ≡ goes m
  unfolding expect do_change_path
  expect-other_user m r = ground (arith, r.admin)

  expect_null :
      (m : Monitor P)
      → IsReady kp k good bad m
      → expect einval (v.change_path_func 0 m good none (pos add_path_op)) ≡ goes m
  unfolding expect do_change_path
  expect_null m r = ground (arith, r.admin)

  expect_bad_op :
      (m : Monitor P) (pwd : Bytes) (op : ℕ)
      → IsReady kp k good bad m
      → (op == add_path_op || op == remove_path_op) ≡ false
      → expect einval (v.change_path_func 0 m pwd (some path) (pos op)) ≡ goes m
  unfolding expect do_change_path
  expect_bad_op m pwd op r h = ground (arith, r.admin, h)

  pub test_bad_arguments_lem :
      (m : Monitor P) → IsReady kp k good bad m → test_bad_arguments v good bad path m ≡ goes m
  unfolding test_bad_arguments
  test_bad_arguments_lem m r =
      rw
        (
          expect-other_user m r,
          expect_null m r,
          expect_bad_op m good 1016 r refl,
          expect_bad_op m bad 0 r refl,
          expect_bad_op m bad 0 r refl,
        )
        refl

  -- Where the monitor is in REC_OFF already, the change to REC_OFF is refused, and the test returns
  -- there: no assertion on a path in the list, on a forbidden path or on a wrong password is
  -- reached.
  pub test_change_path_skipped :
      (m : Monitor P)
      → IsReady kp k good bad m
      → m.current_state ≡ rec_off
      → test_change_path v good bad path m ≡ returns m
  unfolding test_change_path or_return do_change_state
  test_change_path_skipped m r e =
      rw (test_bad_arguments_lem m r) (ground (arith, r.admin, r.accepts, e))

  -- A path of `forbitten_paths` that the kernel resolves to a path that the list refuses.
  pub record Forbidden (log p : Bytes) : Type 0 where
    pub buffer : Bytes
    pub fills : fill_absolute_path (as_user k 0) (padded p) ≡ ran (buffer, pos 0)
    pub refused : forbitten_path log (some (c_string buffer)) ≡ true

  expect-Forbidden :
      (m : Monitor P) (p : Bytes)
      → IsReady kp k good bad m
      → m.current_state ≡ rec_off
      → Forbidden m.single_file_name p
      → expect einval (v.change_path_func 0 m good (some p) (pos add_path_op)) ≡ goes m
  unfolding expect do_change_path
  expect-Forbidden m p r e f = ground (arith, r.admin, r.accepts, e, f.fills, f.refused)

  pub test_forbitten_paths_lem :
      (ps : List Bytes) (m : Monitor P)
      → IsReady kp k good bad m
      → m.current_state ≡ rec_off
      → All (Forbidden m.single_file_name) ps
      → test_forbitten_paths v good bad path ps m ≡ goes m
  unfolding test_forbitten_paths
  test_forbitten_paths_lem [] m r e h = refl
  test_forbitten_paths_lem (p ∷ ps) m r e (h, hs) =
      rw (expect-Forbidden m p r e h) (test_forbitten_paths_lem ps m r e hs)

  pub expect_bad_password :
      (m : Monitor P)
      → IsReady kp k good bad m
      → expect eacces (v.change_path_func 0 m bad (some path) (pos add_path_op)) ≡ goes m
  unfolding expect do_change_path
  expect_bad_password m r = ground (arith, r.admin, r.rejects)

  pub expect_canceled :
      (m : Monitor P) (op : ℕ)
      → IsReady kp k good bad m
      → m.current_state ≡ off
      → (op == add_path_op || op == remove_path_op) ≡ true
      → expect ecanceled (v.change_path_func 0 m good (some path) (pos op)) ≡ goes m
  unfolding expect do_change_path
  expect_canceled m op r e h = ground (arith, r.admin, r.accepts, e, h)
