-- ===== src/Vfs/PathCommand.antt =====
-- reference-monitor/lib/reference_path_based_syscall.c and user/lib/ref_syscall.c: what a command to
-- change the paths does.
use mathlib.Core.Path.{subst}
use aos_project.Base.{
  ℕ, ◌<◌, ◌≡◌, refl, sym, ap, ◌∙◌, ◌⊎◌, inl, inr, true, false, none, some, [], ◌∷◌, ◌++◌, arith,
  leb, length, ℤ, pos, negsuc,
}
use aos_project.CString.{Bytes, overwrite, same, same_n, same_n_self, strncmp, zeros}
use aos_project.Kernel.{Kernel, wrapper_path, proc_buffer, Run, ran, ◌>>=◌}
use aos_project.PathSolver.{path_max}
use aos_project.Syscalls.{Monitor, Kprobes, add_path_op, remove_path_op, do_change_path}
use aos_project.CommandLine.{
  pwd_key, opt_key, pth_key, null_text, split, words_of, check_avilable_sys_list, parse_opt,
  take_options, last_options, cngpth, or_flags, option_flag, first_word, push, command_at,
}
use aos_project.CommandLine.Words.{
  pwd_key-Plain, opt_key-Plain, Plain, words_of-Plain, words_of-append,
}
use aos_project.Vfs.{
  max_written, path_args, take_path, call_change_path, no_path_args, change_path_vfs_sys_wrapper,
  dispatch, run_words, written_result, syscall_proc_write,
}
use aos_project.UserLib.{get_str_path, path_change_path}

-- An argument that the parser takes as a value: one word, which starts with none of -pwd, -opt
-- and -pth and is not "(null)".
abbrev pub IsPathArgument : Bytes → Type 0
IsPathArgument s =
    Plain s
    × (same s null_text ≡ false)
    × (same_n 4 s pwd_key ≡ false)
    × (same_n 4 s opt_key ≡ false)
    × (same_n 4 s pth_key ≡ false)

abbrev IsOp : ℕ → Type 0
IsOp op = (op ≡ add_path_op) ⊎ (op ≡ remove_path_op)

-- What holds of the word of an operation.
abbrev IsWordOf : ℕ → Type 0
IsWordOf op =
    Plain (get_str_path op)
    × (parse_opt (some (get_str_path op)) ≡ ran (pos op, get_str_path op))
    × (same_n 4 (get_str_path op) opt_key ≡ false)
    × (same_n 4 (get_str_path op) pwd_key ≡ false)
    × (same_n 4 (get_str_path op) pth_key ≡ false)

get_str_path-IsWordOf : (op : ℕ) → IsOp op → IsWordOf op
unfolding get_str_path parse_opt or_flags option_flag split push first_word same_n strncmp
get_str_path-IsWordOf op (inl e) =
    subst IsWordOf (sym e) ((refl, (refl, (refl, (refl, (refl, tt))))), refl, refl, refl, refl)
get_str_path-IsWordOf op (inr e) =
    subst IsWordOf (sym e) ((refl, (refl, (refl, (refl, (refl, tt))))), refl, refl, refl, refl)

path_keys_differ :
    (same_n 4 pwd_key opt_key ≡ false)
    × (same_n 4 pwd_key pth_key ≡ false)
    × (same_n 4 pth_key pwd_key ≡ false)
    × (same_n 4 pth_key opt_key ≡ false)
    × (same_n 4 opt_key pwd_key ≡ false)
    × (same_n 4 opt_key pth_key ≡ false)
unfolding same_n strncmp
path_keys_differ = (refl, refl, refl, refl, refl, refl)

path_args_lem :
    (pwd path b : Bytes) (op : ℕ)
    → IsPathArgument pwd
    → IsPathArgument path
    → leb path_max (length path) ≡ false
    → IsOp op
    → path_args pwd_key
        (pwd ∷ pth_key ∷ path ∷ opt_key ∷ get_str_path op ∷ [])
        (record { pwd = none; pathname = b; op = negsuc 0 })
      ≡ ran (some (record { pwd = some pwd; pathname = overwrite path b; op = pos op }))
unfolding path_args take_path take_options last_options
path_args_lem pwd path b op (p1, p2, p3, p4, p5) (q1, q2, q3, q4, q5) l o =
    let (k1, k2, k3, k4, k5, k6) = path_keys_differ in
    let (w1, w2, w3, w4, w5) = get_str_path-IsWordOf op o in
    let s1 = same_n_self 4 pwd_key in
    let s2 = same_n_self 4 pth_key in
    let s3 = same_n_self 4 opt_key in
    rw (k2, k1, p5, p4, s2, q2, l, k4, q5, q4, k6, s3, w2, w5, w3, w4, s1, p3, k3, q3, k5) refl

cngpth-Plain : Plain cngpth
cngpth-Plain = (refl, (refl, (refl, (refl, (refl, (refl, tt))))))

pth_key-Plain : Plain pth_key
pth_key-Plain = (refl, (refl, (refl, (refl, tt))))

words_of-path_change_path :
    (pwd path : Bytes) (op : ℕ)
    → Plain pwd
    → Plain path
    → IsOp op
    → words_of (path_change_path pwd path op)
      ≡ cngpth ∷ pwd_key ∷ pwd ∷ pth_key ∷ path ∷ opt_key ∷ get_str_path op ∷ []
unfolding path_change_path
words_of-path_change_path pwd path op p q o =
    let w = get_str_path op in
    let t = opt_key ++ b' ' ∷ w in
    let u = pth_key ++ b' ' ∷ (path ++ b' ' ∷ t) in
    words_of-append cngpth (pwd_key ++ b' ' ∷ (pwd ++ b' ' ∷ u)) cngpth-Plain
    ∙ ap (λ r. cngpth ∷ r) (words_of-append pwd_key (pwd ++ b' ' ∷ u) pwd_key-Plain)
    ∙ ap (λ r. cngpth ∷ pwd_key ∷ r) (words_of-append pwd u p)
    ∙ ap (λ r. cngpth ∷ pwd_key ∷ pwd ∷ r)
        (words_of-append pth_key (path ++ b' ' ∷ t) pth_key-Plain)
    ∙ ap (λ r. cngpth ∷ pwd_key ∷ pwd ∷ pth_key ∷ r) (words_of-append path t q)
    ∙ ap (λ r. cngpth ∷ pwd_key ∷ pwd ∷ pth_key ∷ path ∷ r)
        (words_of-append opt_key w opt_key-Plain)
    ∙ ap (λ r. cngpth ∷ pwd_key ∷ pwd ∷ pth_key ∷ path ∷ opt_key ∷ r)
        (words_of-Plain w (get_str_path-IsWordOf op o).0)

-- The result of the write, from the result of `do_change_path`.
abbrev pub answer : {P : Type 0} → ℕ → Run (Monitor P × ℤ) → Run (Monitor P × ℤ)
answer len r = r >>= (λ x. ran (written_result len x))

module _ {P : Type 0} (kp : Kprobes P) (k k' : Kernel) (m : Monitor P) where
  run_words-cngpth :
      (b c d e f : Bytes)
      → k.allocates wrapper_path ≡ true
      → run_words kp k k' m (cngpth ∷ pwd_key ∷ b ∷ c ∷ d ∷ e ∷ f ∷ [])
        ≡ path_args pwd_key (b ∷ c ∷ d ∷ e ∷ f ∷ []) no_path_args >>= call_change_path k m
  unfolding run_words dispatch change_path_vfs_sys_wrapper check_avilable_sys_list command_at same_n
      strncmp
  run_words-cngpth b c d e f h = rw h refl

  write_words :
      (text : Bytes) (r : Run (Monitor P × ℤ))
      → k.allocates proc_buffer ≡ true
      → length text < max_written
      → run_words kp k k' m (words_of text) ≡ r
      → syscall_proc_write kp k k' m (record { text = text; copy_ret = 0 }) ≡ answer (length text) r
  unfolding syscall_proc_write
  write_words text r a h e =
      let b : leb max_written (length text) ≡ false = ground arith in rw (b, a, e) refl

  -- What the user's library writes to change the paths calls `do_change_path` with its password,
  -- the path in a buffer of NULs, and its operation. The result of the write is the error of the
  -- call, or the length of the text. Password and path are one word each, start with none of
  -- -pwd, -opt and -pth and are not "(null)", the path is shorter than PATH_MAX, the operation is
  -- one of the two, the text is below the limit, and the buffers can be allocated and copied to.
  pub write-path_change_path :
      (pwd path : Bytes) (op : ℕ)
      → k.allocates proc_buffer ≡ true
      → k.allocates wrapper_path ≡ true
      → IsPathArgument pwd
      → IsPathArgument path
      → length path < path_max
      → (op ≡ add_path_op) ⊎ (op ≡ remove_path_op)
      → length (path_change_path pwd path op) < max_written
      → syscall_proc_write kp k k' m (record { text = path_change_path pwd path op; copy_ret = 0 })
        ≡ answer
            (length (path_change_path pwd path op))
            (do_change_path k m (some pwd) (some (overwrite path (zeros path_max))) (pos op))
  unfolding call_change_path
  write-path_change_path pwd path op a a' p q l o h =
      let l' : leb path_max (length path) ≡ false = ground arith in
      write_words (path_change_path pwd path op) _ a h (
        ap (run_words kp k k' m) (words_of-path_change_path pwd path op p.0 q.0 o)
        ∙ run_words-cngpth pwd pth_key path opt_key (get_str_path op) a'
        ∙ ap (λ r. r >>= call_change_path k m) (path_args_lem pwd path (zeros path_max) op p q l' o)
        ∙ rw (p.1) refl)
