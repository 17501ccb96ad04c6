-- ===== src/FunctionalityTest/Passes.antt =====
-- test/functionality_test.c: the test of the paths passes.
use aos_project.Base.{
  ℕ, ◌≡◌, refl, sym, ap, ◌∙◌, ◌≢◌, inl, false, ◌||◌, some, List, [], ◌∷◌, arith, All, ℤ, pos, neg,
  enoent, eexist,
}
use aos_project.Base.Bits.{has}
use aos_project.CString.{Bytes, c_string}
use mathlib.Core.Path.{subst}
use aos_project.Kernel.{Kernel, Run, ran}
use aos_project.PathSolver.{fill_absolute_path}
use aos_project.RestrictList.{RcuRestrict, Table, forbitten_path, del_path}
use aos_project.Syscalls.{
  Monitor, Kprobes, off, rec_on, rec_off, add_path_op, remove_path_op, do_change_path, check_pwd,
}
use aos_project.Syscalls.Path.{MayChange, Target, do_change_path_add, do_change_path_remove}
use aos_project.FunctionalityTest.{goes, forbitten_paths}
use aos_project.FunctionalityTest.PathTest.{
  reconfigures, test_canceled, test_good, test_change_path,
}
use aos_project.FunctionalityTest.StateRun.{
  as_user, monitor_calls, IsReady, entered, entered-IsReady, entered-keeps, change_state-entered,
}
use aos_project.FunctionalityTest.PathRun.{
  padded, Forbidden, test_bad_arguments_lem, test_forbitten_paths_lem, expect_bad_password,
  expect_canceled,
}
use aos_project.FunctionalityTest.Listing.{
  CanList, entry, add_path-nil, add_path-again, del_path-only, del_path-nil,
}
use aos_project.FunctionalityTest.Runs.{test_good-run, test_canceled-run, test_change_path-run}

-- The path of the test: the kernel resolves it to a name that the list takes and can hold.
pub record GoodPath (k : Kernel) (log path name : Bytes) (dentry i : ℕ) : Type 0 where
  pub buffer : Bytes
  pub fills : fill_absolute_path k (padded path) ≡ ran (buffer, pos 0)
  pub string : c_string buffer ≡ name
  pub allowed : forbitten_path log (some name) ≡ false
  pub listable : CanList k name dentry i

module _ {P : Type 0} (kp : Kprobes P) (k : Kernel) (good bad path log name : Bytes) (dentry i : ℕ)
    (p : GoodPath (as_user k 0) log path name dentry i) where
  -- A ready monitor in a state, with the log and the list of the test.
  record Stage (s : ℕ) (l : List RcuRestrict) (m : Monitor P) : Type 0 where
    ready : IsReady kp k good bad m
    state : m.current_state ≡ s
    logs : m.single_file_name ≡ log
    list : m.table.restrict_path_list ≡ l

  may_change :
      (l : List RcuRestrict) (m : Monitor P)
      → Stage rec_off l m
      → MayChange (as_user k 0) m (some good) (padded path)
  may_change l m g = record {
    is_admin = sym g.ready.admin;
    knows = g.ready.accepts;
    reconfigures = inl g.state;
  }

  target :
      (l : List RcuRestrict) (m : Monitor P)
      → Stage rec_off l m
      → Target (as_user k 0) m (some good) (padded path) name dentry
  target l m g = record {
    buffer = p.buffer;
    fills = p.fills;
    string = p.string;
    allowed = ap (λ s. forbitten_path s (some name)) g.logs ∙ p.allowed;
    exists = p.listable.exists;
  }

  entered-Stage :
      (s : ℕ) (l : List RcuRestrict) (m : Monitor P) (t : ℕ)
      → Stage s l m
      → Stage t l (entered kp k good bad m t)
  entered-Stage s l m t g =
      let (r, e) = entered-IsReady kp k good bad m t g.ready in
      let (a, b) = entered-keeps kp k good bad m t in
      record { ready = r; state = e; logs = a ∙ g.logs; list = b ∙ g.list }

  call_path : Monitor P → ℕ → Run (Monitor P × ℤ)
  call_path m op = do_change_path (as_user k 0) m (some good) (some (padded path)) (pos op)

  -- A monitor with another list is as ready as before.
  with_table-Stage :
      (l l' : List RcuRestrict) (m : Monitor P) (t : Table)
      → Stage rec_off l m
      → t.restrict_path_list ≡ l'
      → Stage rec_off l' (record m { table = t })
  unfolding check_pwd
  with_table-Stage l l' m t g e = record {
    ready = record { admin = g.ready.admin; accepts = g.ready.accepts; rejects = g.ready.rejects };
    state = g.state;
    logs = g.logs;
    list = e;
  }

  -- The entry of the path: what it holds is of no interest here.
  abbrev HasEntry : Monitor P → Type 0
  HasEntry m = (e : RcuRestrict) × (e.path ≡ name) × Stage rec_off (e ∷ []) m

  call_add-nil :
      (m : Monitor P)
      → Stage rec_off [] m
      → (m' : Monitor P) × (call_path m add_path_op ≡ ran (m', pos 0)) × HasEntry m'
  unfolding call_path
  call_add-nil m g =
      let a = add_path-nil (as_user k 0) name dentry i m.table p.listable g.list in
      let e = entry (as_user k 0) name dentry i m.table.inodes in
      let t : Table = record m.table { restrict_path_list = e ∷ [] } in
      (
        record m { table = t },
        do_change_path_add (as_user k 0) m (some good) (padded path) name dentry (may_change [] m g)
              (target [] m g)
            ∙ ap (λ r. ran (record m { table = r.0 }, r.1)) a,
        (e, refl, with_table-Stage [] (e ∷ []) m t g refl),
      )

  call_add-again : (m : Monitor P) → HasEntry m → call_path m add_path_op ≡ ran (m, neg eexist)
  unfolding call_path
  call_add-again m (e, q, g) =
      do_change_path_add (as_user k 0) m (some good) (padded path) name dentry
        (may_change (e ∷ []) m g) (target (e ∷ []) m g)
      ∙ ap (λ r. ran (record m { table = r.0 }, r.1))
          (add_path-again (as_user k 0) name dentry i m.table e q g.list)

  -- A removal from this list leaves it empty, with this result.
  Removes : Monitor P → ℤ → Type 0
  Removes m ret =
      (m' : Monitor P) × (call_path m remove_path_op ≡ ran (m', ret)) × Stage rec_off [] m'

  removed :
      (l : List RcuRestrict) (m : Monitor P) (ret : ℤ)
      → Stage rec_off l m
      → let r = del_path (as_user k 0) m.table (some name) in
        r.0.restrict_path_list ≡ [] → r.1 ≡ ret → Removes m ret
  unfolding call_path Removes
  removed l m ret g a b =
      let t = (del_path (as_user k 0) m.table (some name)).0 in
      (
        record m { table = t },
        do_change_path_remove (as_user k 0) m (some good) (padded path) name dentry
              (may_change l m g) (target l m g)
            ∙ ap (λ v. ran (record m { table = t }, v)) b,
        with_table-Stage l [] m t g a,
      )

  call_remove-only : (m : Monitor P) → HasEntry m → Removes m (pos 0)
  call_remove-only m (e, q, g) =
      let (a, b) = del_path-only (as_user k 0) name dentry i m.table e p.listable q g.list in
      removed (e ∷ []) m (pos 0) g a b

  call_remove-nil : (m : Monitor P) → Stage rec_off [] m → Removes m (neg enoent)
  call_remove-nil m g =
      let (a, b) = del_path-nil (as_user k 0) name dentry i m.table p.listable g.list in
      removed [] m (neg enoent) g a b

  off-ne-rec_off : (m : Monitor P) → Stage off [] m → m.current_state ≢ rec_off
  off-ne-rec_off m g e = ground (arith, g.state, e)

  test_good_lem :
      (m : Monitor P)
      → Stage off [] m
      → (m' : Monitor P) × (test_good (monitor_calls kp k) good bad path m ≡ goes m')
        × Stage rec_off [] m'
  unfolding call_path Removes
  test_good_lem m g =
      let m1 = entered kp k good bad m rec_off in
      let e1 =
        change_state-entered kp k good bad m rec_off g.ready (ground arith) (off-ne-rec_off m g) in
      let (m2, e2, h2) = call_add-nil m1 (entered-Stage off [] m rec_off g) in
      let e3 = call_add-again m2 h2 in
      let (m4, e4, g4) = call_remove-only m2 h2 in
      let (m5, e5, g5) = call_remove-nil m4 g4 in
      (m5, test_good-run (monitor_calls kp k) good bad path m m1 m2 m4 m5 e1 e2 e3 e4 e5, g5)

  test_canceled_lem :
      (m : Monitor P)
      → Stage rec_off [] m
      → (m' : Monitor P) × (test_canceled (monitor_calls kp k) good bad path m ≡ goes m')
        × Stage off [] m'
  unfolding reconfigures
  test_canceled_lem m g =
      let m1 = entered kp k good bad m off in
      let g1 = entered-Stage rec_off [] m off g in
      let n : m.current_state ≢ off = λ e. ground (arith, g.state, e) in
      (
        m1,
        test_canceled-run (monitor_calls kp k) good bad path m m1
            (ap (λ s. has s rec_off || has s rec_on) g.state)
            (change_state-entered kp k good bad m off g.ready (ground arith) n)
            (expect_canceled kp k good bad path m1 add_path_op g1.ready g1.state refl)
            (expect_canceled kp k good bad path m1 remove_path_op g1.ready g1.state refl),
        g1,
      )

  -- The test of the paths passes on a ready monitor with an empty list that is in another state than
  -- REC_OFF, with a path that the list takes and that the kernel finds, and with the forbidden paths
  -- resolved to paths that the list refuses: no assertion fails, the test is not left early, and
  -- it ends ready in REC_OFF with an empty list and the same log.
  pub test_change_path_lem :
      (m : Monitor P)
      → IsReady kp k good bad m
      → m.current_state ≢ rec_off
      → m.single_file_name ≡ log
      → m.table.restrict_path_list ≡ []
      → All (Forbidden kp k good bad path log) forbitten_paths
      → (m' : Monitor P) × (test_change_path (monitor_calls kp k) good bad path m ≡ goes m')
        × (m'.current_state ≡ rec_off)
        × (m'.table.restrict_path_list ≡ [])
        × IsReady kp k good bad m'
        × (m'.single_file_name ≡ log)
  test_change_path_lem m r n e l f =
      let g : Stage m.current_state [] m = record { ready = r; state = refl; logs = e; list = l } in
      let m1 = entered kp k good bad m rec_off in
      let g1 = entered-Stage m.current_state [] m rec_off g in
      let (m2, e2, g2) = test_canceled_lem m1 g1 in
      let (m3, e3, g3) = test_good_lem m2 g2 in
      let f1 = subst (λ s. All (Forbidden kp k good bad path s) forbitten_paths) (sym g1.logs) f in
      (
        m3,
        test_change_path-run (monitor_calls kp k) good bad path m m1 m2 m3
            (test_bad_arguments_lem kp k good bad path m r)
            (change_state-entered kp k good bad m rec_off r (ground arith) n) refl
            (test_forbitten_paths_lem kp k good bad path forbitten_paths m1 g1.ready g1.state f1)
            (expect_bad_password kp k good bad path m1 g1.ready) e2 e3,
        g3.state,
        g3.list,
        g3.ready,
        g3.logs,
      )
