-- ===== src/FunctionalityTest/Whole.antt =====
-- test/functionality_test.c: main, the two tests on the two sets of calls.
use aos_project.Base.{
  ℕ, zero, suc, ◌≡◌, sym, ap, ◌∙◌, ◌≢◌, inl, inr, false, [], arith, ◌==◌, if◌then◌else◌, ==→eq,
  Bool-cases, All, ℤ, pos, neg, ecanceled,
}
use aos_project.CString.{Bytes, is_zero}
use mathlib.Core.Path.{subst}
use aos_project.Kernel.{Kernel, Run, ran, oops}
use aos_project.Syscalls.{Monitor, Kprobes, rec_off}
use aos_project.Syscalls.State.{IsState}
use aos_project.FunctionalityTest.{
  Test, goes, aborts, returns, ◌>>=◌, Calls, test_change_state, forbitten_paths,
}
use aos_project.FunctionalityTest.PathTest.{test_change_path}
use aos_project.FunctionalityTest.StateRun.{
  as_user, monitor_calls, IsReady, entered, entered-IsReady, entered-keeps, change_state-entered,
  change_state-present, test_change_state_lem,
}
use aos_project.FunctionalityTest.PathRun.{Forbidden, test_change_path_skipped}
use aos_project.FunctionalityTest.Passes.{GoodPath, test_change_path_lem}

-- A call whose result is not looked at.
unfoldable pub ignored : {W : Type 0} → Run (W × ℤ) → Test W W
ignored oops = aborts
ignored (ran (w, ret)) = goes w

-- What the caller of a test goes on with.
unfoldable pub finished : {W : Type 0} → Test W W → Test W W
finished (goes w) = goes w
finished aborts = aborts
finished (returns w) = goes w

-- Both tests on one set of calls.
unfoldable pub run_tests : {W : Type 0} → Calls W → Bytes → Bytes → Bytes → ℤ → W → Test W W
unfolding ignored finished
run_tests v good bad path before_state w = do
  r ← test_change_state v good bad w before_state
  w ← ignored (v.change_state 0 r.0 good before_state)
  finished (test_change_path v good bad path w)

-- The program, from the arguments on, with the system calls and the calls through the access point.
unfoldable pub test_main :
    {W : Type 0} → Calls W → Calls W → Bytes → Bytes → Bytes → ℤ → W → Test W W
unfolding run_tests
test_main v v' good bad path before_state w = if is_zero before_state then aborts else do
  w ← run_tests v good bad path before_state w
  w ← ignored (v.change_state 0 w good before_state)
  run_tests v' good bad path before_state w

run_tests-run :
    {W : Type 0} (v : Calls W) (good bad path : Bytes) (s c : ℤ) (w w1 w2 w3 : W)
    → test_change_state v good bad w s ≡ goes (w1, c)
    → ignored (v.change_state 0 w1 good s) ≡ goes w2
    → finished (test_change_path v good bad path w2) ≡ goes w3
    → run_tests v good bad path s w ≡ goes w3
unfolding run_tests
run_tests-run v good bad path s c w w1 w2 w3 a b d = rw (a, b) d

test_main-run :
    {W : Type 0} (v v' : Calls W) (good bad path : Bytes) (s : ℕ) (w w1 w2 w3 : W)
    → (s == 0) ≡ false
    → run_tests v good bad path (pos s) w ≡ goes w1
    → ignored (v.change_state 0 w1 good (pos s)) ≡ goes w2
    → run_tests v' good bad path (pos s) w2 ≡ goes w3
    → test_main v v' good bad path (pos s) w ≡ goes w3
unfolding test_main
test_main-run v v' good bad path zero w w1 w2 w3 z a b c = absurd (ground arith)
test_main-run v v' good bad path (suc s) w w1 w2 w3 z a b c = rw (a, b) c

module _ {P : Type 0} (kp : Kprobes P) (k : Kernel) (good bad path log name : Bytes) (dentry i : ℕ)
    (p : GoodPath (as_user k 0) log path name dentry i)
    (f : All (Forbidden kp k good bad path log) forbitten_paths) where
  -- A ready monitor in this state, with this log and an empty list.
  pub record IsPrepared (s : ℕ) (m : Monitor P) : Type 0 where
    pub ready : IsReady kp k good bad m
    pub state : m.current_state ≡ s
    pub logs : m.single_file_name ≡ log
    pub list : m.table.restrict_path_list ≡ []

  abbrev v : Calls (Monitor P)
  v = monitor_calls kp k

  abbrev Prepares : ℕ → Test (Monitor P) (Monitor P) → Type 0
  Prepares s t = (m : Monitor P) × (t ≡ goes m) × IsPrepared s m

  -- The change back to the state of before, which may be the present one.
  restored :
      (m : Monitor P) (s : ℕ)
      → IsState s
      → IsPrepared rec_off m
      → Prepares s (ignored (v.change_state 0 m good (pos s)))
  unfolding ignored
  restored m s h g = elim (Bool-cases (m.current_state == s)) [
    | inl x ↦
        let e : m.current_state ≡ s = ==→eq m.current_state s x in
        (
          m,
          ap ignored (
              subst (λ u. v.change_state 0 m good (pos u) ≡ ran (m, neg ecanceled)) e
                (change_state-present kp k good bad m g.ready (subst IsState (sym e) h))),
          record { ready = g.ready; state = e; logs = g.logs; list = g.list },
        )
    | inr x ↦
        let (r, e) = entered-IsReady kp k good bad m s g.ready in
        let (a, b) = entered-keeps kp k good bad m s in
        let n : m.current_state ≢ s = λ y. ground (arith, x, y) in
        (
          entered kp k good bad m s,
          ap ignored (change_state-entered kp k good bad m s g.ready h n),
          record { ready = r; state = e; logs = a ∙ g.logs; list = b ∙ g.list },
        )
  ]

  path_test :
      (m : Monitor P) (s : ℕ)
      → IsPrepared s m
      → Prepares rec_off (finished (test_change_path v good bad path m))
  unfolding finished
  path_test m s g = elim (Bool-cases (m.current_state == rec_off)) [
    | inl x ↦
        let e = ==→eq m.current_state rec_off x in
        (
          m,
          ap finished (test_change_path_skipped kp k good bad path m g.ready e),
          record { ready = g.ready; state = e; logs = g.logs; list = g.list },
        )
    | inr x ↦
        let n : m.current_state ≢ rec_off = λ y. ground (arith, x, y) in
        let (m', e, a, b, r, l) =
          test_change_path_lem kp k good bad path log name dentry i p m g.ready n g.logs g.list f in
        (m', ap finished e, record { ready = r; state = a; logs = l; list = b })
  ]

  run_tests_lem :
      (m : Monitor P) (s : ℕ)
      → IsState s
      → IsPrepared s m
      → Prepares rec_off (run_tests v good bad path (pos s) m)
  run_tests_lem m s h g =
      let e = g.state in
      let (m1, t, r, q, (a, b)) =
        test_change_state_lem kp k good bad m g.ready (subst IsState (sym e) h) in
      let t' = subst (λ u. test_change_state v good bad m (pos u) ≡ goes (m1, pos rec_off)) e t in
      let (m2, t2, g2) =
        restored m1 s h (record { ready = r; state = q; logs = a ∙ g.logs; list = b ∙ g.list }) in
      let (m3, t3, g3) = path_test m2 s g2 in
      (m3, run_tests-run v good bad path (pos s) (pos rec_off) m m1 m2 m3 t' t2 t3, g3)

  -- The whole test passes on a monitor in any of the four states, when both sets of calls do what the
  -- monitor does, the superuser is the administrator, one password is accepted and the other is not,
  -- the list is empty, the path can be listed, and the forbidden paths are resolved to paths that
  -- the list refuses: no assertion fails, the program does not exit early, and the monitor ends in
  -- REC_OFF with an empty list, the passwords and the log being as before.
  pub test_main_lem :
      (m : Monitor P) (s : ℕ)
      → IsState s
      → IsPrepared s m
      → (m' : Monitor P) × (test_main
            (monitor_calls kp k)
            (monitor_calls kp k)
            good
            bad
            path
            (pos s)
            m
          ≡ goes m')
        × IsPrepared rec_off m'
  test_main_lem m s h g =
      let (m1, t1, g1) = run_tests_lem m s h g in
      let (m2, t2, g2) = restored m1 s h g1 in
      let (m3, t3, g3) = run_tests_lem m2 s h g2 in
      let z : (s == 0) ≡ false = ground (arith, h) in
      (m3, test_main-run v v good bad path s m m1 m2 m3 z t1 t2 t3, g3)
