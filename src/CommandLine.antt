-- ===== src/CommandLine.antt =====
-- reference-monitor/lib/reference_path_based_syscall.c: the words of a command and of its options.
use aos_project.Base.{
  ℕ, zero, suc, ◌+◌, ◌-◌, ◌*◌, ◌/◌, ◌%◌, ◌^◌, ◌≤◌, ◌<◌, min, max, bit_and, bit_or, ◌≡◌, refl, sym,
  ap, ◌∙◌, fun_ext, ◌≢◌, ◌↔◌, ◌⊎◌, inl, inr, Bool, true, false, not, ◌&&◌, ◌||◌, Option, none, some,
  List, [], ◌∷◌, ◌++◌, map, append-nil, append_assoc, arith, ltb, leb, ◌==◌, if◌then◌else◌, ltb→lt,
  ltb→le, ==→eq, ==_iff, ==-self, Bool-cases, Option-cases, length, get_elem?, get_or, set, take,
  drop, replicate, All, AnyOf, length-append, length-take, length-drop, length-replicate,
  take-append, drop-append, take_at, drop_at, take_split, drop_split, set_at, get_or_at,
  take_of_length-le, drop_of_length-le, take-append-drop, drop-nil, drop-replicate, ℤ, pos, negsuc,
  neg, is_nonzero, is_negative, eperm, enoent, eio, ebadf, enomem, eacces, efault, eexist, einval,
  efbig, ebadmsg, ecanceled,
}
use aos_project.Base.Bits.{has, and_zero, and_assoc, and_self, or-and}
use aos_project.CString.{
  Bytes, strncmp, strcmp, is_zero, same, same_n, same_iff, same_n_iff, same_self, same_n_self,
  same_n-length-append, same_n-length-prefix, c_string, NoNul, zeros, overwrite, c_string-append,
  c_string-zeros, c_string-NoNul, c_string_of_NoNul, strncmp_iff, c_string-zero,
  c_string-drop-zeros, drop-zeros-append, zeros-append, NoNul-append,
}
pub mod Words
use aos_project.Kernel.{Run, ran, oops}
use aos_project.Syscalls.{on, off, rec_on, rec_off, add_path_op, remove_path_op}

-- CHANGE_STATE, CHANGE_PATH, CHANGE_PASSWORD
abbrev pub cngst : Bytes
cngst = b'c' ∷ b'n' ∷ b'g' ∷ b's' ∷ b't' ∷ []

abbrev pub cngpth : Bytes
cngpth = b'c' ∷ b'n' ∷ b'g' ∷ b'p' ∷ b't' ∷ b'h' ∷ []

abbrev pub cngpwd : Bytes
cngpwd = b'c' ∷ b'n' ∷ b'g' ∷ b'p' ∷ b'w' ∷ b'd' ∷ []

-- PWD, OPT, PTH, OLD_PWD, NEW_PWD
abbrev pub pwd_key : Bytes
pwd_key = b'-' ∷ b'p' ∷ b'w' ∷ b'd' ∷ []

abbrev pub opt_key : Bytes
opt_key = b'-' ∷ b'o' ∷ b'p' ∷ b't' ∷ []

abbrev pub pth_key : Bytes
pth_key = b'-' ∷ b'p' ∷ b't' ∷ b'h' ∷ []

abbrev pub old_key : Bytes
old_key = b'-' ∷ b'o' ∷ b'l' ∷ b'd' ∷ []

abbrev pub new_key : Bytes
new_key = b'-' ∷ b'n' ∷ b'e' ∷ b'w' ∷ []

-- The words of the options.
abbrev pub word_on : Bytes
word_on = b'O' ∷ b'N' ∷ []

abbrev pub word_off : Bytes
word_off = b'O' ∷ b'F' ∷ b'F' ∷ []

abbrev pub word_rec_on : Bytes
word_rec_on = b'R' ∷ b'O' ∷ b'N' ∷ []

abbrev pub word_rec_off : Bytes
word_rec_off = b'R' ∷ b'O' ∷ b'F' ∷ []

abbrev pub word_add_path : Bytes
word_add_path = b'A' ∷ b'D' ∷ b'P' ∷ b'T' ∷ b'H' ∷ []

abbrev pub word_remove_path : Bytes
word_remove_path = b'R' ∷ b'M' ∷ b'P' ∷ b'T' ∷ b'H' ∷ []

-- "(null)"
abbrev pub null_text : Bytes
null_text = b'(' ∷ b'n' ∷ b'u' ∷ b'l' ∷ b'l' ∷ b')' ∷ []

unfoldable pub command_at : ℕ → List Bytes → Bytes → ℤ
command_at i [] sys_name = neg einval
command_at i (c ∷ cs) sys_name =
    if same_n (length sys_name) c sys_name then pos i else command_at (i + 1) cs sys_name

unfoldable pub check_avilable_sys_list : Bytes → ℤ
unfolding command_at
check_avilable_sys_list = command_at 0 (cngst ∷ cngpth ∷ cngpwd ∷ [])

-- The pieces between the separators, which the code overwrites by NULs.
unfoldable pub push : ℕ → List Bytes → List Bytes
push c [] = (c ∷ []) ∷ []
push c (w ∷ ws) = (c ∷ w) ∷ ws

unfoldable pub split : ℕ → Bytes → List Bytes
unfolding push
split sep [] = [] ∷ []
split sep (c ∷ s) = if c == sep then [] ∷ split sep s else push c (split sep s)

-- `op_str[i] -= 32`
abbrev pub upper : ℕ → ℕ
upper c = if leb b'a' c && leb c b'z' then c - 32 else c

unfoldable pub option_flag : Bytes → ℕ
option_flag w =
    let len = length w in
    if same_n len w word_on
    then on
    else if same_n len w word_off
    then off
    else if same_n len w word_rec_on
    then rec_on
    else if same_n len w word_rec_off
    then rec_off
    else if same_n len w word_add_path
    then add_path_op
    else if same_n len w word_remove_path
    then remove_path_op
    else 0

unfoldable pub or_flags : ℕ → List Bytes → ℕ
unfolding option_flag
or_flags ret [] = ret
or_flags ret (w ∷ ws) = or_flags (bit_or ret (option_flag w)) ws

unfoldable pub first_word : List Bytes → Bytes
first_word [] = []
first_word (w ∷ ws) = w

-- The options, and what is left of the string. `argv` has room for eight words and a NULL.
unfoldable pub parse_opt : Option Bytes → Run (ℤ × Bytes)
unfolding split or_flags first_word
parse_opt none = oops
parse_opt (some op_str) =
    let words = split b'|' (map upper op_str) in
    if leb 9 (length words) then oops else ran (pos (or_flags 0 words), first_word words)

-- `if (!strncmp(argv[i], key, 4)) v = argv[i + 1];`
abbrev pub take_value : Bytes → Bytes → Option Bytes → Option Bytes → Option Bytes
take_value key arg next v = if same_n 4 arg key then next else v

-- The next word, which `parse_opt` may have cut, and the options so far.
unfoldable pub take_options : Bytes → Bytes → ℤ → Run (ℤ × Bytes)
unfolding parse_opt
take_options arg next op = if same_n 4 arg opt_key then parse_opt (some next) else ran (op, next)

-- An option key with no word behind it gives `parse_opt` a NULL.
unfoldable pub last_options : Bytes → ℤ → Run (ℤ × Bytes)
last_options arg op = if same_n 4 arg opt_key then oops else ran (op, [])

-- `argv`: the pieces between spaces, each up to its first NUL or newline.
unfoldable pub words_of : Bytes → List Bytes
unfolding split
words_of text = map c_string (split b' ' (map (λ c. if c == b'\n' then 0 else c) text))

abbrev pub is_null_text : Option Bytes → Bool
is_null_text none = true
is_null_text (some s) = same s null_text
