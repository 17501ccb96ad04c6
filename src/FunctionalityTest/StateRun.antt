-- ===== src/FunctionalityTest/StateRun.antt =====
-- test/functionality_test.c: the test of the state, on the monitor.
use aos_project.Base.{
  ℕ, ◌≡◌, refl, ap, ◌≢◌, inl, inr, true, false, Option, none, some, List, [], ◌∷◌, map, arith, ◌==◌,
  ==→eq, ==_iff, Bool-cases, if-cases, All, ℤ, pos, eperm, eacces, einval, ecanceled,
}
use aos_project.CString.{Bytes, zeros, overwrite}
use mathlib.Core.Path.{subst}
use aos_project.Base.{◌∙◌, neg}
use aos_project.Kernel.{Kernel, Run, ran}
use aos_project.PathSolver.{path_max}
use aos_project.RestrictList.{restore_black_list_entries}
use aos_project.Syscalls.{
  Monitor, Kprobes, on, off, rec_on, rec_off, do_change_state, do_change_path, check_pwd, is_state,
  switch_hooks, hooks_on,
}
use aos_project.Syscalls.State.{IsState}
use aos_project.FunctionalityTest.{
  Test, goes, Calls, expect, expect_zero, bad_state, other_user, test_bad_states, test_transitions,
  test_change_state,
}

abbrev pub as_user : Kernel → ℕ → Kernel
as_user k user = record k { euid = user }

-- The calls of the monitor, made by a user on strings. The path stands in a zeroed buffer.
abbrev pub change_path_as :
    {P : Type 0} → Kernel → ℕ → Monitor P → Bytes → Option Bytes → ℤ → Run (Monitor P × ℤ)
change_path_as k user m pwd none op = do_change_path (as_user k user) m (some pwd) none op
change_path_as k user m pwd (some p) op =
    do_change_path (as_user k user) m (some pwd) (some (overwrite p (zeros path_max))) op

abbrev pub monitor_calls : {P : Type 0} → Kprobes P → Kernel → Calls (Monitor P)
monitor_calls kp k = record {
  change_state_func = λ user m pwd s. ran (do_change_state kp (as_user k user) m (some pwd) s);
  change_path_func = change_path_as k;
  change_state = λ user m pwd s. ran (do_change_state kp (as_user k user) m (some pwd) s);
  change_path = change_path_as k;
  get_state_from_sys = λ m. pos m.current_state;
}

module _ {P : Type 0} (kp : Kprobes P) (k : Kernel) (good bad : Bytes) where
  -- The superuser is the administrator, one password is accepted and the other is not.
  pub record IsReady (m : Monitor P) : Type 0 where
    pub admin : m.admin ≡ 0
    pub accepts : check_pwd (as_user k 0) m (some good) ≡ pos 0
    pub rejects : check_pwd (as_user k 0) m (some bad) ≢ pos 0

  abbrev pub call : Monitor P → Bytes → ℤ → Run (Monitor P × ℤ)
  call m pwd s = ran (do_change_state kp (as_user k 0) m (some pwd) s)

  expect_other :
      (m : Monitor P)
      → IsReady m
      → expect eperm (ran (do_change_state kp (as_user k other_user) m (some good) (pos on)))
        ≡ goes m
  unfolding expect do_change_state
  expect_other m r = ground (arith, r.admin)

  expect_bad : (m : Monitor P) → IsReady m → expect eacces (call m bad (pos on)) ≡ goes m
  unfolding expect do_change_state
  expect_bad m r = ground (arith, r.admin, r.rejects)

  expect_invalid :
      (m : Monitor P) (pwd : Bytes) (s : ℤ)
      → IsReady m
      → is_state s ≡ false
      → expect einval (call m pwd s) ≡ goes m
  unfolding expect do_change_state
  expect_invalid m pwd s r h = ground (arith, r.admin, h)

  pub change_state-present :
      (m : Monitor P)
      → IsReady m
      → IsState m.current_state
      → call m good (pos m.current_state) ≡ ran (m, neg ecanceled)
  unfolding do_change_state
  change_state-present m r h = ground (arith, r.admin, r.accepts)

  expect_present :
      (m : Monitor P)
      → IsReady m
      → IsState m.current_state
      → expect ecanceled (call m good (pos m.current_state)) ≡ goes m
  unfolding expect
  expect_present m r h = ap (expect ecanceled) (change_state-present m r h)

  -- The monitor after a change of state.
  unfoldable pub entered : Monitor P → ℕ → Monitor P
  entered m s = switch_hooks kp (as_user k 0) (record m { current_state = s })

  -- A change to another state succeeds.
  pub change_state-entered :
      (m : Monitor P) (s : ℕ)
      → IsReady m
      → IsState s
      → m.current_state ≢ s
      → call m good (pos s) ≡ ran (entered m s, pos 0)
  unfolding do_change_state entered
  change_state-entered m s r h n = ground (arith, r.admin, r.accepts)

  expect_zero_state :
      (m : Monitor P) (s : ℕ)
      → IsReady m
      → IsState s
      → m.current_state ≢ s
      → expect_zero (call m good (pos s)) ≡ goes (entered m s)
  unfolding expect_zero
  expect_zero_state m s r h n = ap expect_zero (change_state-entered m s r h n)

  pub entered-keeps :
      (m : Monitor P) (s : ℕ)
      → ((entered m s).single_file_name ≡ m.single_file_name)
        × ((entered m s).table.restrict_path_list ≡ m.table.restrict_path_list)
  unfolding entered switch_hooks restore_black_list_entries
  entered-keeps m s =
      if-cases
        (λ (m' : Monitor P).
          (m'.single_file_name ≡ m.single_file_name)
          × (m'.table.restrict_path_list ≡ m.table.restrict_path_list))
        (hooks_on s) _ _ (λ e. (refl, refl)) (λ e. (refl, refl))

  pub entered-IsReady :
      (m : Monitor P) (s : ℕ)
      → IsReady m
      → IsReady (entered m s) × ((entered m s).current_state ≡ s)
  unfolding entered switch_hooks check_pwd
  entered-IsReady m s r =
      if-cases (λ (m' : Monitor P). IsReady m' × (m'.current_state ≡ s)) (hooks_on s) _ _
        (λ e. (record { admin = r.admin; accepts = r.accepts; rejects = r.rejects }, refl))
        (λ e. (record { admin = r.admin; accepts = r.accepts; rejects = r.rejects }, refl))

  test_bad_states_lem :
      (ss : List ℤ) (m : Monitor P)
      → IsReady m
      → All (λ s. is_state s ≡ false) ss
      → test_bad_states (monitor_calls kp k) good bad ss m ≡ goes m
  unfolding test_bad_states
  test_bad_states_lem [] m r h = refl
  test_bad_states_lem (s ∷ ss) m r (h, hs) =
      rw (expect_invalid m bad s r h, expect_invalid m good s r h) (test_bad_states_lem ss m r hs)

  last_of : ℕ → List ℕ → ℕ
  last_of s [] = s
  last_of s (t ∷ ts) = last_of t ts

  -- The log and the list are those of another monitor.
  abbrev pub Keeps : Monitor P → Monitor P → Type 0
  Keeps m m' =
      (m'.single_file_name ≡ m.single_file_name)
      × (m'.table.restrict_path_list ≡ m.table.restrict_path_list)

  -- A test that goes on with a ready monitor in this state, with the log and the list of before.
  abbrev EndsIn : Monitor P → ℕ → Test (Monitor P) (Monitor P × ℤ) → Type 0
  EndsIn m0 s t =
      (m : Monitor P) × (t ≡ goes (m, pos s)) × IsReady m × (m.current_state ≡ s) × Keeps m0 m

  test_transitions_lem :
      (ss : List ℕ) (m : Monitor P) (s : ℕ)
      → IsReady m
      → m.current_state ≡ s
      → All IsState ss
      → EndsIn m
          (last_of s ss)
          (test_transitions (monitor_calls kp k) good bad (map pos ss) m (pos s))
  unfolding test_transitions last_of
  test_transitions_lem [] m s r e h = (m, refl, r, e, (refl, refl))
  test_transitions_lem (t ∷ ts) m s r e (h, hs) = elim (Bool-cases (s == t)) [
    | inl x ↦ rw (x) (
        subst
          (λ u.
            EndsIn m (last_of u ts)
              (test_transitions (monitor_calls kp k) good bad (map pos ts) m (pos s)))
          (==→eq s t x) (test_transitions_lem ts m s r e hs))
    | inr x ↦
        let m' = entered m t in
        let (r', e') = entered-IsReady m t r in
        let n : m.current_state ≢ t = λ y. ground (arith, e, x, y) in
        let z : (m'.current_state == t) ≡ true = (==_iff _ _).1 e' in
        let (a, b) = entered-keeps m t in
        let (m'', f, r'', e'', (a', b')) = test_transitions_lem ts m' t r' e' hs in
        rw (x, expect_zero_state m t r h n, z) (m'', f, r'', e'', (a' ∙ a, b' ∙ b))
  ]

  bad_state_invalid : All (λ s. is_state s ≡ false) bad_state
  bad_state_invalid = (refl, (refl, (refl, (refl, (refl, (refl, tt))))))

  All-IsState : All IsState (on ∷ off ∷ rec_on ∷ rec_off ∷ [])
  All-IsState = (ground arith, (ground arith, (ground arith, (ground arith, tt))))

  -- The test of the state passes on a monitor in one of the four states, whose administrator is the
  -- superuser, with a password that it accepts and one that it rejects: no assertion fails, and it
  -- ends in REC_OFF with the passwords and the paths as before, whatever the state was.
  pub test_change_state_lem :
      (m : Monitor P)
      → IsReady m
      → IsState m.current_state
      → (m' : Monitor P) × (test_change_state (monitor_calls kp k) good bad m (pos m.current_state)
          ≡ goes (m', pos rec_off))
        × IsReady m'
        × (m'.current_state ≡ rec_off)
        × Keeps m m'
  unfolding test_change_state last_of
  test_change_state_lem m r h =
      let all =
        test_transitions_lem (on ∷ off ∷ rec_on ∷ rec_off ∷ []) m m.current_state r refl
          All-IsState in
      rw
        (
          expect_other m r,
          expect_bad m r,
          test_bad_states_lem bad_state m r bad_state_invalid,
          expect_present m r h,
        )
        all
