-- ===== src/Vfs/Writes.antt =====
-- reference-monitor/lib/reference_path_based_syscall.c: whatever is written to the access point, the
-- monitor is changed by a call of one of its three operations, with words of the text as passwords, or
-- not at all.
use aos_project.Base.{
  ℕ, All, zero, suc, inl, inr, true, not, ◌||◌, Option, none, some, List, [], ◌∷◌, arith, ltb, leb,
  ◌==◌, if◌then◌else◌, if-cases, Option-cases, length, ℤ, pos, negsuc, neg, enomem, einval, ebadmsg,
}
use aos_project.CString.{Bytes, is_zero, same}
use mathlib.Core.Path.{subst}
use aos_project.Vfs.Given.{
  IsGiven, PathIsGiven, all_state_args-IsGiven, all_path_args-IsGiven, password_args-IsGiven,
}
use aos_project.Hooks.Audit.{Holds}
use aos_project.Kernel.{Kernel, Run, ran, oops, ◌>>=◌, wrapper_path, proc_buffer}
use aos_project.Syscalls.{Monitor, Kprobes, do_change_state, do_change_path, do_change_password}
use aos_project.Syscalls.Edits.{Held}
use aos_project.CommandLine.{null_text, is_null_text, words_of, check_avilable_sys_list}
use aos_project.Vfs.{
  all_state_args, change_state_vfs_sys_wrapper, PathArgs, all_path_args, call_change_path,
  change_path_vfs_sys_wrapper, password_args, call_change_password, change_password_vfs_sys_wrapper,
  Written, max_written, written_result, dispatch, run_words, syscall_proc_write,
}

module _ {P : Type 0} (kp : Kprobes P) (k k' : Kernel) (m : Monitor P) (Q : Monitor P → Type 0)
    (Given : Bytes → Type 0) (stays : Q m)
    (state : (pwd : Bytes) (s : ℤ) → Given pwd → Q (do_change_state kp k m (some pwd) s).0)
    (paths : (pwd b : Bytes) (op : ℤ)
      → Given pwd
      → Held k m Q (do_change_path k m (some pwd) (some b) op))
    (password : (old new : Bytes)
      → Given old
      → Q (do_change_password k k' m (some old) (some new)).0) where
  abbrev IsHeld : Run (Monitor P × ℤ) → Type 0
  IsHeld = Held k m Q

  >>=-IsHeld :
      {A : Type 0} (R : A → Type 0) (r : Run A) (f : A → Run (Monitor P × ℤ))
      → Holds R r
      → ((a : A) → R a → IsHeld (f a))
      → IsHeld (r >>= f)
  >>=-IsHeld R (ran a) f g h = h a g
  >>=-IsHeld R oops f g h = tt

  state_call :
      (pwd : Option Bytes) (s : ℤ)
      → IsGiven Given pwd
      → IsHeld
          (if is_null_text pwd then ran (m, neg einval) else ran (do_change_state kp k m pwd s))
  state_call none s g = stays
  state_call (some p) s g =
      if-cases IsHeld (same p null_text) (ran (m, neg einval))
        (ran (do_change_state kp k m (some p) s)) (λ e. stays) (λ e. state p s g)

  state_wrapper :
      (argv : List Bytes) (format : ℕ)
      → All Given argv
      → IsHeld (change_state_vfs_sys_wrapper kp k m argv format)
  unfolding change_state_vfs_sys_wrapper
  state_wrapper argv format g =
      if-cases IsHeld (not (format == 4)) (ran (m, neg einval)) _ (λ e. stays)
        (λ e.
          >>=-IsHeld (λ r. IsGiven Given r.0) (all_state_args argv) _
            (all_state_args-IsGiven Given argv g) (λ r. state_call r.0 r.1))

  path_call : (a : Option PathArgs) → PathIsGiven Given a → IsHeld (call_change_path k m a)
  unfolding call_change_path
  path_call none g = stays
  path_call (some a) g = elim (Option-cases a.pwd) [
    | inl e ↦ rw (e) stays
    | inr (p, e') ↦ rw (e') (
        if-cases IsHeld (same p null_text) (ran (m, neg einval))
          (do_change_path k m (some p) (some a.pathname) a.op) (λ e. stays)
          (λ e. paths p a.pathname a.op (subst (IsGiven Given) e' g)))
  ]

  path_wrapper :
      (argv : List Bytes) (format : ℕ)
      → All Given argv
      → IsHeld (change_path_vfs_sys_wrapper k m argv format)
  unfolding change_path_vfs_sys_wrapper
  path_wrapper argv format g =
      if-cases IsHeld (not (format == 6)) (ran (m, neg einval)) _ (λ e. stays)
        (λ e.
          if-cases IsHeld (not (k.allocates wrapper_path)) (ran (m, neg enomem)) _ (λ e. stays)
            (λ e.
              >>=-IsHeld (PathIsGiven Given) (all_path_args argv) _
                (all_path_args-IsGiven Given argv g) path_call))

  password_call :
      (old new : Option Bytes) → IsGiven Given old → Q (call_change_password k k' m (old, new)).0
  unfolding call_change_password
  password_call none new g = stays
  password_call (some old) none g =
      if-cases (λ (r : Monitor P × ℤ). Q r.0) (same old null_text || true) (m, neg einval)
        (do_change_password k k' m (some old) none) (λ e. stays) (λ e. absurd (ground arith))
  password_call (some old) (some new) g =
      if-cases (λ (r : Monitor P × ℤ). Q r.0) (same old null_text || same new null_text)
        (m, neg einval) (do_change_password k k' m (some old) (some new)) (λ e. stays)
        (λ e. password old new g)

  password_wrapper :
      (argv : List Bytes) (format : ℕ)
      → All Given argv
      → IsHeld (change_password_vfs_sys_wrapper k k' m argv format)
  unfolding change_password_vfs_sys_wrapper
  password_wrapper argv format g =
      if-cases IsHeld (not (format == 4)) (ran (m, neg einval)) _ (λ e. stays)
        (λ e.
          password_call (password_args argv none none).0 (password_args argv none none).1
            (password_args-IsGiven Given argv none none g tt))

  other_call :
      (args : List Bytes) (i : ℤ)
      → All Given args
      → IsHeld (elim i [
        | pos (suc zero) ↦ change_path_vfs_sys_wrapper k m args (length args)
        | pos (suc (suc zero)) ↦ change_password_vfs_sys_wrapper k k' m args (length args)
        | _ ↦ ran (m, neg ebadmsg)
      ])
  other_call args (negsuc n) g = stays
  other_call args (pos zero) g = stays
  other_call args (pos (suc zero)) g = path_wrapper args (length args) g
  other_call args (pos (suc (suc zero))) g = password_wrapper args (length args) g
  other_call args (pos (suc (suc (suc n)))) g = stays

  dispatch-IsHeld :
      (name : Bytes) (args : List Bytes) → All Given args → IsHeld (dispatch kp k k' m name args)
  unfolding dispatch
  dispatch-IsHeld name args g =
      if-cases IsHeld (is_zero (check_avilable_sys_list name)) _ _
        (λ e. state_wrapper args (length args) g)
        (λ e. other_call args (check_avilable_sys_list name) g)

  run_words-IsHeld : (ws : List Bytes) → All Given ws → IsHeld (run_words kp k k' m ws)
  unfolding run_words
  run_words-IsHeld [] g = tt
  run_words-IsHeld (name ∷ args) (n, g) =
      if-cases IsHeld (leb 15 (length args)) oops _ (λ e. tt) (λ e. dispatch-IsHeld name args g)

  result-IsHeld : (len : ℕ) (r : Monitor P × ℤ) → Q r.0 → Q (written_result len r).0
  unfolding written_result
  result-IsHeld len (w, pos n) h = h
  result-IsHeld len (w, negsuc n) h = h

  written-IsHeld :
      (len : ℕ) (r : Run (Monitor P × ℤ))
      → IsHeld r
      → IsHeld (r >>= (λ x. ran (written_result len x)))
  written-IsHeld len (ran r) h = result-IsHeld len r h
  written-IsHeld len oops h = tt

  -- What holds of the monitor, and of what each of the three calls makes of it with passwords that
  -- the text gives, holds after every write.
  pub syscall_proc_write-Held :
      (w : Written) → All Given (words_of w.text) → Held k m Q (syscall_proc_write kp k k' m w)
  unfolding syscall_proc_write
  syscall_proc_write-Held w g =
      if-cases IsHeld (leb max_written (length w.text)) (ran (m, negsuc 0)) _ (λ e. stays)
        (λ e.
          if-cases IsHeld (not (k.allocates proc_buffer)) (ran (m, neg enomem)) _ (λ e. stays)
            (λ e.
              if-cases IsHeld (ltb 0 w.copy_ret) (ran (m, negsuc 0)) _ (λ e. stays)
                (λ e. written-IsHeld (length w.text) _ (run_words-IsHeld (words_of w.text) g))))
