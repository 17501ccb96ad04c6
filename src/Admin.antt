-- ===== src/Admin.antt =====
-- user/admin.c: the administrator's program, as a function of what stands on its standard input.
use aos_project.Base.{
  ℕ, zero, suc, ◌+◌, ◌-◌, ◌*◌, ◌/◌, ◌%◌, ◌^◌, ◌≤◌, ◌<◌, min, max, bit_and, bit_or, ◌≡◌, refl, sym,
  ap, ◌∙◌, fun_ext, ◌≢◌, ◌↔◌, ◌⊎◌, inl, inr, Bool, true, false, not, ◌&&◌, ◌||◌, Option, none, some,
  List, [], ◌∷◌, ◌++◌, map, append-nil, append_assoc, arith, ltb, leb, ◌==◌, if◌then◌else◌, ltb→lt,
  ltb→le, ==→eq, ==_iff, ==-self, Bool-cases, if-cases, Option-cases, length, get_elem?, get_or,
  set, take, drop, replicate, All, AnyOf, length-append, length-take, length-drop, length-replicate,
  take-append, drop-append, take_at, drop_at, take_split, drop_split, set_at, get_or_at,
  take_of_length-le, drop_of_length-le, take-append-drop, drop-nil, drop-replicate, ℤ, pos, negsuc,
  neg, is_nonzero, is_negative, eperm, enoent, eio, ebadf, enomem, eacces, efault, eexist, einval,
  efbig, ebadmsg, ecanceled,
}
use aos_project.Base.Bits.{has, and_zero, and_assoc, and_self, or-and}
use aos_project.CString.{
  Bytes, strncmp, strcmp, is_zero, same, same_n, same_iff, same_n_iff, same_self, same_n_self,
  same_n-length-append, same_n-length-prefix, c_string, NoNul, zeros, overwrite, c_string-append,
  c_string-zeros, c_string-NoNul, c_string_of_NoNul, strncmp_iff, c_string-zero,
  c_string-drop-zeros, drop-zeros-append, zeros-append, NoNul-append,
}
pub mod Lines
pub mod Script
pub mod Handlers
pub mod Session
pub mod Endless
pub mod Show
use aos_project.Kernel.{Run, ran, oops, ◌>>=◌}
use aos_project.Syscalls.{on, off, rec_on, rec_off, add_path_op, remove_path_op}
use aos_project.UserLib.{get_str_state, minus_one}
use aos_project.UserLib.Numbers.{atoi}
use aos_project.CommandLine.{word_on}

-- MAX_PASSWORD, PATH_MAX, MAX_COMMAND
abbrev pub max_password : ℕ
max_password = 64

abbrev pub path_size : ℕ
path_size = 4096

abbrev pub max_command : ℕ
max_command = 32

-- `tolower` in the C locale
abbrev pub tolower : ℕ → ℕ
tolower c = if leb b'A' c && leb c b'Z' then c + 32 else c

abbrev pub to_lowercase : Bytes → Bytes
to_lowercase = map tolower

-- `fgets` of the C library: up to n bytes, through the first newline, and what is left.
unfoldable pub take_line : ℕ → Bytes → Bytes × Bytes
take_line zero s = ([], s)
take_line (suc n) [] = ([], [])
take_line (suc n) (c ∷ s) =
    let (line, rest) = take_line n s in if c == b'\n' then (c ∷ [], s) else (c ∷ line, rest)

unfoldable pub fgets : ℕ → Bytes → Option (Bytes × Bytes)
unfolding take_line
fgets size [] = none
fgets size (c ∷ s) = some (take_line (size - 1) (c ∷ s))

-- `if (len > 0 && buffer[len - 1] == '\n') buffer[len - 1] = '\0';`
unfoldable pub strip_newline : Bytes → Bytes
strip_newline [] = []
strip_newline (c ∷ []) = if c == b'\n' then [] else c ∷ []
strip_newline (c ∷ d ∷ s) = c ∷ strip_newline (d ∷ s)

-- The string in the buffer, and what is left; at the end of the input the buffer stays as it is.
unfoldable pub read_line : Bytes → ℕ → Bytes → Bytes × Bytes
unfolding fgets strip_newline
read_line buffer size stdin = elim (fgets size stdin) [
  | none ↦ (buffer, stdin)
  | some (line, rest) ↦ (strip_newline (c_string line), rest)
]

-- The arrays of the program, whose contents are those of the stack before they are read into.
pub data Buffer : Type 0 where
  password_buffer input_buffer path_buffer old_password_buffer new_password_buffer command_buffer :
      Buffer

-- What the program prints behind a prompt.
pub data Message : Type 0 where
  invalid_state invalid_op invalid_command help canceled exiting no_privilege : Message
  state_changed state_failed : ℕ → Message
  path_changed path_failed : Bytes → ℕ → Message
  password_changed password_failed : Message
  actual_state : ℤ → Bytes → Message
  cannot_open : Message
  black_list : Bytes → Message

-- The user's library, and the two files that the program reads; `none` is a failure of fopen.
pub record Services (W : Type 0) : Type 0 where
  pub change_state : W → Bytes → ℕ → Run (W × ℤ)
  pub change_path : W → Bytes → Bytes → ℕ → Run (W × ℤ)
  pub change_password : W → Bytes → Bytes → Run (W × ℤ)
  pub current_state_file : W → Option Bytes
  pub access_point_file : W → Option Bytes

-- The state that a choice names, the tests in the order of the program.
unfoldable pub chosen_state : Bytes → Option ℕ
chosen_state input =
    if same input (b'0' ∷ []) || same input (b'o' ∷ b'n' ∷ [])
    then some on
    else if same input (b'1' ∷ []) || same input (b'o' ∷ b'f' ∷ b'f' ∷ [])
    then some off
    else if same input (b'2' ∷ []) || same input (b'r' ∷ b'e' ∷ b'c' ∷ b'_' ∷ b'o' ∷ b'n' ∷ [])
    then some rec_on
    else if same input (b'3' ∷ [])
        || same input (b'r' ∷ b'e' ∷ b'c' ∷ b'_' ∷ b'o' ∷ b'f' ∷ b'f' ∷ [])
    then some rec_off
    else none

abbrev pub addpath : Bytes
addpath = b'a' ∷ b'd' ∷ b'd' ∷ b'p' ∷ b'a' ∷ b't' ∷ b'h' ∷ []

abbrev pub rmpath : Bytes
rmpath = b'r' ∷ b'm' ∷ b'p' ∷ b'a' ∷ b't' ∷ b'h' ∷ []

unfoldable pub chosen_op : Bytes → Option ℕ
chosen_op input =
    if same input (b'0' ∷ []) || same input addpath
    then some add_path_op
    else if same input (b'1' ∷ []) || same input rmpath
    then some remove_path_op
    else none

-- `tolower(input[0]) == 'y'`
abbrev pub is_yes : Bytes → Bool
is_yes [] = false
is_yes (c ∷ s) = tolower c == b'y'

-- `buff[read_bytes - 1] = 0` behind an empty read is out of bounds.
unfoldable pub print_actual_state : Option Bytes → Run Message
unfolding atoi get_str_state
print_actual_state none = ran cannot_open
print_actual_state (some text) = elim (take 16 text) [
  | [] ↦ oops
  | c ∷ s ↦
      let the_state = atoi (c_string (take (length s) (c ∷ s))) in
      ran
        (actual_state the_state (elim the_state [ pos n ↦ get_str_state n | negsuc n ↦ minus_one ]))
]

-- The loop that prints the list line by line; each round takes a byte at least.
unfoldable pub print_lines : ℕ → Bytes → Bytes
unfolding fgets
print_lines zero s = []
print_lines (suc fuel) s = elim (fgets path_size s) [
  | none ↦ []
  | some (line, rest) ↦ c_string line ++ print_lines fuel rest
]

unfoldable pub print_black_list : Option Bytes → Message
unfolding print_lines
print_black_list none = cannot_open
print_black_list (some text) = black_list (print_lines (suc (length text)) text)

-- What a handler leaves: the world, the rest of the input, and what was printed.
pub record Turn (W : Type 0) : Type 0 where
  pub world : W
  pub stdin : Bytes
  pub message : Message

module _ {W : Type 0} (v : Services W) (stack : Buffer → Bytes) where
  report : Bytes → Message → Message → W × ℤ → Run (Turn W)
  report stdin good bad (w, ret) =
      ran (record { world = w; stdin = stdin; message = if is_negative ret then bad else good })

  unfoldable pub handle_change_state : W → Bytes → Run (Turn W)
  unfolding report read_line chosen_state
  handle_change_state w s0 =
      let (password, s1) = read_line (stack password_buffer) max_password s0 in
      let (input, s2) = read_line (stack input_buffer) max_command s1 in
      elim (chosen_state (to_lowercase input)) [
        | none ↦ ran (record { world = w; stdin = s2; message = invalid_state })
        | some state ↦
            v.change_state w password state >>= report s2 (state_changed state) (state_failed state)
      ]

  unfoldable pub handle_change_path : W → Bytes → Run (Turn W)
  unfolding report read_line chosen_op
  handle_change_path w s0 =
      let (password, s1) = read_line (stack password_buffer) max_password s0 in
      let (input, s2) = read_line (stack input_buffer) max_command s1 in
      elim (chosen_op (to_lowercase input)) [
        | none ↦ ran (record { world = w; stdin = s2; message = invalid_op })
        | some op ↦
            let (path, s3) = read_line (stack path_buffer) path_size s2 in
            v.change_path w password path op
            >>= report s3 (path_changed path op) (path_failed path op)
      ]

  unfoldable pub handle_change_password : W → Bytes → Run (Turn W)
  unfolding report read_line
  handle_change_password w s0 =
      let (old_password, s1) = read_line (stack old_password_buffer) max_password s0 in
      let (new_password, s2) = read_line (stack new_password_buffer) max_password s1 in
      let (input, s3) = read_line (stack input_buffer) max_command s2 in
      if is_yes input
      then v.change_password w old_password new_password
        >>= report s3 password_changed password_failed
      else ran (record { world = w; stdin = s3; message = canceled })

-- The words of the commands.
abbrev pub change_state_word : Bytes
change_state_word =
    b'c' ∷ b'h' ∷ b'a' ∷ b'n' ∷ b'g' ∷ b'e' ∷ b'_' ∷ b's' ∷ b't' ∷ b'a' ∷ b't' ∷ b'e' ∷ []

abbrev pub change_path_word : Bytes
change_path_word = b'c' ∷ b'h' ∷ b'a' ∷ b'n' ∷ b'g' ∷ b'e' ∷ b'_' ∷ b'p' ∷ b'a' ∷ b't' ∷ b'h' ∷ []

abbrev pub change_password_word : Bytes
change_password_word =
    b'c' ∷ b'h' ∷ b'a' ∷ b'n' ∷ b'g' ∷ b'e' ∷ b'_' ∷ b'p' ∷ b'a' ∷ b's' ∷ b's' ∷ b'w' ∷ b'o' ∷ b'r'
    ∷ b'd' ∷ []

abbrev pub get_state_word : Bytes
get_state_word = b'g' ∷ b'e' ∷ b't' ∷ b'_' ∷ b's' ∷ b't' ∷ b'a' ∷ b't' ∷ b'e' ∷ []

abbrev pub blacklist_word : Bytes
blacklist_word = b'b' ∷ b'l' ∷ b'a' ∷ b'c' ∷ b'k' ∷ b'l' ∷ b'i' ∷ b's' ∷ b't' ∷ []

abbrev pub help_word : Bytes
help_word = b'h' ∷ b'e' ∷ b'l' ∷ b'p' ∷ []

abbrev pub quit_word : Bytes
quit_word = b'q' ∷ b'u' ∷ b'i' ∷ b't' ∷ []

module _ {W : Type 0} (v : Services W) (stack : Buffer → Bytes) where
  printed : W → Bytes → Message → Turn W
  printed w stdin message = record { world = w; stdin = stdin; message = message }

  -- A round of the loop whose command is not "quit".
  unfoldable pub run_command : W → Bytes → Bytes → Run (Turn W)
  unfolding handle_change_state handle_change_path handle_change_password print_actual_state
      print_black_list printed
  run_command w stdin input =
      if same input (b'0' ∷ []) || same input change_state_word
      then handle_change_state v stack w stdin
      else if same input (b'1' ∷ []) || same input change_path_word
      then handle_change_path v stack w stdin
      else if same input (b'2' ∷ []) || same input change_password_word
      then handle_change_password v stack w stdin
      else if same input (b'3' ∷ []) || same input get_state_word
      then print_actual_state (v.current_state_file w) >>= (λ m. ran (printed w stdin m))
      else if same input (b'4' ∷ []) || same input blacklist_word
      then ran (printed w stdin (print_black_list (v.access_point_file w)))
      else if same input (b'5' ∷ []) || same input help_word
      then ran (printed w stdin help)
      else ran (printed w stdin invalid_command)

  -- The loop; `none` is a loop that goes on when the fuel is spent.
  unfoldable pub main_loop : ℕ → W → Bytes → Bytes → List Message → Run (Option (W × List Message))
  unfolding run_command read_line
  main_loop zero w stdin buffer log = ran none
  main_loop (suc fuel) w stdin buffer log =
      let (line, rest) = read_line buffer max_command stdin in
      let input = to_lowercase line in
      if same input quit_word
      then ran (some (w, log ++ exiting ∷ []))
      else run_command w rest input
        >>= (λ t. main_loop fuel t.world t.stdin input (log ++ t.message ∷ []))

  -- The first argument is the effective user.
  unfoldable pub main : ℕ → ℕ → W → Bytes → Run (Option (W × List Message))
  unfolding main_loop
  main geteuid fuel w stdin =
      if not (geteuid == 0)
      then ran (some (w, no_privilege ∷ []))
      else main_loop fuel w stdin (stack command_buffer) (help ∷ [])
