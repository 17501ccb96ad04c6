-- ===== src/Vfs/Command.antt =====
-- reference-monitor/lib/reference_path_based_syscall.c and user/lib/ref_syscall.c: what a command
-- that the user's library writes does.
use aos_project.Base.{
  ℕ, ◌<◌, ◌≡◌, refl, sym, ap, ◌∙◌, ◌⊎◌, inl, inr, true, false, none, some, [], ◌∷◌, ◌++◌, arith,
  leb, length, ℤ, pos,
}
use aos_project.CString.{Bytes, strncmp, same, same_n, same_n_self}
use mathlib.Core.Path.{subst}
use aos_project.Kernel.{Kernel, proc_buffer, ran}
use aos_project.Syscalls.{
  Monitor, Kprobes, on, off, rec_on, rec_off, is_state, do_change_state, do_change_password,
}
use aos_project.CommandLine.{
  pwd_key, opt_key, pth_key, old_key, new_key, null_text, split, words_of, check_avilable_sys_list,
  parse_opt, take_options, last_options, cngst, cngpwd, or_flags, option_flag, first_word, push,
  command_at,
}
use aos_project.Vfs.{
  max_written, state_args, all_state_args, change_state_vfs_sys_wrapper, password_args,
  call_change_password, change_password_vfs_sys_wrapper, dispatch, run_words, written_result,
  syscall_proc_write,
}
use aos_project.UserLib.{get_str_state, path_change_state, path_change_password}
use aos_project.CommandLine.Words.{
  pwd_key-Plain, opt_key-Plain, Plain, words_of-Plain, words_of-append,
}

-- An argument that the parser takes as a value: one word, which starts with none of -pwd, -opt,
-- -old and -new and is not "(null)".
abbrev pub IsArgument : Bytes → Type 0
IsArgument s =
    Plain s
    × ((same s null_text ≡ false)
        × ((same_n 4 s pwd_key ≡ false)
            × ((same_n 4 s opt_key ≡ false)
                × ((same_n 4 s old_key ≡ false) × (same_n 4 s new_key ≡ false)))))

by_state :
    (Q : ℕ → Type 0) → Q on → Q off → Q rec_on → Q rec_off → (s : ℕ) → is_state (pos s) ≡ true → Q s
by_state Q a b c d s h =
    let e : (s ≡ on) ⊎ ((s ≡ off) ⊎ ((s ≡ rec_on) ⊎ (s ≡ rec_off))) = ground arith in
    elim e [
      | inl x ↦ subst Q (sym x) a
      | inr (inl x) ↦ subst Q (sym x) b
      | inr (inr (inl x)) ↦ subst Q (sym x) c
      | inr (inr (inr x)) ↦ subst Q (sym x) d
    ]

get_str_state-Plain : (s : ℕ) → is_state (pos s) ≡ true → Plain (get_str_state s)
unfolding get_str_state
get_str_state-Plain =
    by_state (λ s. Plain (get_str_state s)) (refl, (refl, tt)) (refl, (refl, (refl, tt)))
      (refl, (refl, (refl, tt))) (refl, (refl, (refl, tt)))

parse_opt-get_str_state :
    (s : ℕ)
    → is_state (pos s) ≡ true
    → parse_opt (some (get_str_state s)) ≡ ran (pos s, get_str_state s)
unfolding get_str_state parse_opt or_flags option_flag split push first_word same_n strncmp
parse_opt-get_str_state =
    by_state (λ s. parse_opt (some (get_str_state s)) ≡ ran (pos s, get_str_state s)) refl refl refl
      refl

-- No word for a state is a key.
get_str_state-IsNoKey :
    (s : ℕ)
    → is_state (pos s) ≡ true
    → (same_n 4 (get_str_state s) opt_key ≡ false) × (same_n 4 (get_str_state s) pwd_key ≡ false)
unfolding get_str_state same_n strncmp
get_str_state-IsNoKey =
    by_state
      (λ s.
        (same_n 4 (get_str_state s) opt_key ≡ false) × (same_n 4 (get_str_state s) pwd_key ≡ false))
      (refl, refl) (refl, refl) (refl, refl) (refl, refl)

keys_differ :
    (same_n 4 pwd_key opt_key ≡ false)
    × ((same_n 4 opt_key pwd_key ≡ false)
        × ((same_n 4 pth_key pwd_key ≡ false)
            × ((same_n 4 old_key new_key ≡ false) × (same_n 4 new_key old_key ≡ false))))
unfolding same_n strncmp
keys_differ = (refl, (refl, (refl, (refl, refl))))

cngst-Plain : Plain cngst
cngst-Plain = (refl, (refl, (refl, (refl, (refl, tt)))))

cngpwd-Plain : Plain cngpwd
cngpwd-Plain = (refl, (refl, (refl, (refl, (refl, (refl, tt))))))

old_key-Plain : Plain old_key
old_key-Plain = (refl, (refl, (refl, (refl, tt))))

new_key-Plain : Plain new_key
new_key-Plain = (refl, (refl, (refl, (refl, tt))))

words_of-path_change_state :
    (pwd : Bytes) (s : ℕ)
    → Plain pwd
    → is_state (pos s) ≡ true
    → words_of (path_change_state pwd s) ≡ cngst ∷ pwd_key ∷ pwd ∷ opt_key ∷ get_str_state s ∷ []
unfolding path_change_state
words_of-path_change_state pwd s pl h =
    let w = get_str_state s in
    let t = opt_key ++ b' ' ∷ w in
    words_of-append cngst (pwd_key ++ b' ' ∷ (pwd ++ b' ' ∷ t)) cngst-Plain
    ∙ ap (λ u. cngst ∷ u) (words_of-append pwd_key (pwd ++ b' ' ∷ t) pwd_key-Plain)
    ∙ ap (λ u. cngst ∷ pwd_key ∷ u) (words_of-append pwd t pl)
    ∙ ap (λ u. cngst ∷ pwd_key ∷ pwd ∷ u) (words_of-append opt_key w opt_key-Plain)
    ∙ ap (λ u. cngst ∷ pwd_key ∷ pwd ∷ opt_key ∷ u) (words_of-Plain w (get_str_state-Plain s h))

all_state_args_lem :
    (pwd : Bytes) (s : ℕ)
    → IsArgument pwd
    → is_state (pos s) ≡ true
    → all_state_args (pwd_key ∷ pwd ∷ opt_key ∷ get_str_state s ∷ []) ≡ ran (some pwd, pos s)
unfolding all_state_args state_args take_options last_options
all_state_args_lem pwd s (pl, (nl, (np, (nopt, r)))) h =
    let (kpo, (kop, r')) = keys_differ in
    let (wo, wp) = get_str_state-IsNoKey s h in
    let sp = same_n_self 4 pwd_key in
    let so = same_n_self 4 opt_key in
    rw (kpo, nopt, so, parse_opt-get_str_state s h, wo, sp, np, kop, wp) refl

words_of-path_change_password :
    (old new : Bytes)
    → Plain old
    → Plain new
    → words_of (path_change_password old new) ≡ cngpwd ∷ old_key ∷ old ∷ new_key ∷ new ∷ []
unfolding path_change_password
words_of-path_change_password old new o n =
    let t = new_key ++ b' ' ∷ new in
    words_of-append cngpwd (old_key ++ b' ' ∷ (old ++ b' ' ∷ t)) cngpwd-Plain
    ∙ ap (λ u. cngpwd ∷ u) (words_of-append old_key (old ++ b' ' ∷ t) old_key-Plain)
    ∙ ap (λ u. cngpwd ∷ old_key ∷ u) (words_of-append old t o)
    ∙ ap (λ u. cngpwd ∷ old_key ∷ old ∷ u) (words_of-append new_key new new_key-Plain)
    ∙ ap (λ u. cngpwd ∷ old_key ∷ old ∷ new_key ∷ u) (words_of-Plain new n)

password_args_lem :
    (old new : Bytes)
    → IsArgument old
    → IsArgument new
    → password_args (old_key ∷ old ∷ new_key ∷ new ∷ []) none none ≡ (some old, some new)
unfolding password_args
password_args_lem old new (op, (on', (opw, (oo, (oold, onew)))))
      (np, (nn, (npw, (nopt, (nold, nnew))))) =
    let (a, (b, (c, (d, e)))) = keys_differ in
    let so = same_n_self 4 old_key in
    let sn = same_n_self 4 new_key in rw (so, d, oold, onew, e, sn, nold, nnew) refl

module _ {P : Type 0} (kp : Kprobes P) (k k' : Kernel)
    (allocates : k.allocates proc_buffer ≡ true) where
  write_words :
      (m : Monitor P) (text : Bytes) (r : Monitor P × ℤ)
      → length text < max_written
      → run_words kp k k' m (words_of text) ≡ ran r
      → syscall_proc_write kp k k' m (record { text = text; copy_ret = 0 })
        ≡ ran (written_result (length text) r)
  unfolding syscall_proc_write
  write_words m text r h e =
      let b : leb max_written (length text) ≡ false = ground arith in rw (b, allocates, e) refl

  change_state_command :
      (m : Monitor P) (pwd : Bytes) (s : ℕ)
      → IsArgument pwd
      → is_state (pos s) ≡ true
      → run_words kp k k' m (words_of (path_change_state pwd s))
        ≡ ran (do_change_state kp k m (some pwd) (pos s))
  unfolding run_words dispatch change_state_vfs_sys_wrapper check_avilable_sys_list command_at
      same_n strncmp
  change_state_command m pwd s a h =
      rw (words_of-path_change_state pwd s a.0 h, all_state_args_lem pwd s a h, a.1.0) refl

  run_words-cngpwd :
      (m : Monitor P) (a b c d : Bytes)
      → run_words kp k k' m (cngpwd ∷ a ∷ b ∷ c ∷ d ∷ [])
        ≡ ran (call_change_password k k' m (password_args (a ∷ b ∷ c ∷ d ∷ []) none none))
  unfolding run_words dispatch change_password_vfs_sys_wrapper check_avilable_sys_list command_at
      same_n strncmp
  run_words-cngpwd m a b c d = refl

  call_change_password_lem :
      (m : Monitor P) (old new : Bytes)
      → same old null_text ≡ false
      → same new null_text ≡ false
      → call_change_password k k' m (some old, some new)
        ≡ do_change_password k k' m (some old) (some new)
  unfolding call_change_password
  call_change_password_lem m old new e e' = rw (e, e') refl

  change_password_command :
      (m : Monitor P) (old new : Bytes)
      → IsArgument old
      → IsArgument new
      → run_words kp k k' m (words_of (path_change_password old new))
        ≡ ran (do_change_password k k' m (some old) (some new))
  change_password_command m old new a b =
      ap (run_words kp k k' m) (words_of-path_change_password old new a.0 b.0)
      ∙ run_words-cngpwd m old_key old new_key new
      ∙ ap (λ r. ran (call_change_password k k' m r)) (password_args_lem old new a b)
      ∙ ap ran (call_change_password_lem m old new a.1.0 b.1.0)

  -- What the user's library writes to change the state calls `do_change_state` with its password
  -- and its state. The result of the write is the error of the call, or the length of the text.
  -- The password is one word that starts with none of -pwd, -opt, -old and -new and is not
  -- "(null)", the state is one of the four, the text is below the limit, and the buffer can be
  -- allocated and copied to.
  pub write-path_change_state :
      (m : Monitor P) (pwd : Bytes) (s : ℕ)
      → IsArgument pwd
      → is_state (pos s) ≡ true
      → length (path_change_state pwd s) < max_written
      → syscall_proc_write kp k k' m (record { text = path_change_state pwd s; copy_ret = 0 })
        ≡ ran (
            written_result
              (length (path_change_state pwd s))
              (do_change_state kp k m (some pwd) (pos s)))
  write-path_change_state m pwd s a h l =
      write_words m (path_change_state pwd s) (do_change_state kp k m (some pwd) (pos s)) l
        (change_state_command m pwd s a h)

  -- What the user's library writes to change the password calls `do_change_password` with both
  -- passwords. The result of the write is the error of the call, or the length of the text. Each
  -- password is one word that starts with none of -pwd, -opt, -old and -new and is not "(null)",
  -- the text is below the limit, and the buffer can be allocated and copied to.
  pub write-path_change_password :
      (m : Monitor P) (old new : Bytes)
      → IsArgument old
      → IsArgument new
      → length (path_change_password old new) < max_written
      → syscall_proc_write kp k k' m (record { text = path_change_password old new; copy_ret = 0 })
        ≡ ran (
            written_result
              (length (path_change_password old new))
              (do_change_password k k' m (some old) (some new)))
  write-path_change_password m old new a b l =
      write_words m (path_change_password old new) (do_change_password k k' m (some old) (some new))
        l (change_password_command m old new a b)
