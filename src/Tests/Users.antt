-- ===== src/Tests/Users.antt =====
-- The user's side: sessions of the administrator's program, and the calls of the library.
use aos_project.Base.{
  ℕ, ◌+◌, ◌<◌, ◌≡◌, refl, inl, inr, Bool, true, none, some, List, [], ◌∷◌, ◌++◌, arith, length, ℤ,
  pos, negsuc,
}
use aos_project.CString.{Bytes, same, zeros, overwrite}
use aos_project.Kernel.{ran}
use aos_project.PathSolver.{path_max}
use aos_project.Syscalls.{
  Monitor, on, off, rec_off, remove_path_op, do_change_state, do_change_path, do_change_password,
}
use aos_project.Syscalls.Results.{StateResults, do_change_state-Results}
use aos_project.UserLib.{path_change_state, path_change_path, path_change_password}
use aos_project.Decimal.{decimal}
use aos_project.UserLib.Numbers.{no_numbers}
use aos_project.UserLib.Printed.{numbers_text, three, joined, words}
use aos_project.UserLib.Calls.{
  Arguments, state_arguments, path_arguments, password_arguments, change_state, change_path,
  change_password,
}
use aos_project.UserLib.Installed.{calls-IsInstalled}
use aos_project.UserLib.Send.{send, called, written, send-IsCalled}
use aos_project.Admin.{Buffer, Services, print_actual_state, main, help, quit_word}
use aos_project.Admin.Script.{
  set_state, show_help, names_rec_off, Types, types_state, types_help, typed, Script, quits, asks,
  performs,
}
use aos_project.Admin.Session.{main-Script}
use aos_project.Admin.Endless.{Unfinished, Answers, main-Unfinished}
use aos_project.Tests.Fixtures.{kernel, kprobes, monitor, secret, new_secret, file}
use aos_project.Tests.Calls.{
  secret-IsArgument, new_secret-IsArgument, secret-IsPathArgument, file-IsPathArgument,
}
use aos_project.Tests.Loads.{machine, loaded, loaded_restore, loader, machine-IsLoaded}

-- The library on a monitor, without the kernel between them.
abbrev services : Services (Monitor Bool)
services = record {
  change_state = λ m pwd s. ran (do_change_state kprobes kernel m (some pwd) (pos s));
  change_path = λ m pwd path op. do_change_path kernel m (some pwd) (some path) (pos op);
  change_password = λ m old new. ran (do_change_password kernel kernel m (some old) (some new));
  current_state_file = λ m. none;
  access_point_file = λ m. some file;
}

-- Arrays that hold nothing.
abbrev stack : Buffer → Bytes
stack b = []

-- "Rec_Off"
abbrev choice : Bytes
choice = b'R' ∷ b'e' ∷ b'c' ∷ b'_' ∷ b'O' ∷ b'f' ∷ b'f' ∷ []

abbrev ended : Bytes
ended = quit_word ++ b'\n' ∷ []

-- "0", the password, the choice and "help", then the end of the text.
abbrev session : Bytes → Bytes
session rest = typed ((b'0' ∷ []) ∷ secret ∷ choice ∷ []) (typed ((b'5' ∷ []) ∷ []) rest)

choice-Types : Types ((b'0' ∷ []) ∷ secret ∷ choice ∷ []) (set_state secret rec_off)
choice-Types =
    types_state (b'0' ∷ []) secret choice rec_off (inl refl) (ground arith) (ground arith)
      (ground arith) (names_rec_off choice (inr refl))

five-Types : Types ((b'5' ∷ []) ∷ []) show_help
five-Types = types_help (b'5' ∷ []) (inl refl) (ground arith)

session-Script : Script (session ended) (set_state secret rec_off ∷ show_help ∷ [])
session-Script =
    asks _ _ _ _ choice-Types (asks _ _ _ _ five-Types (quits quit_word [] refl (ground arith)))

main-Script_example :
    main services stack 0 3 monitor (session ended)
    ≡ performs services monitor (help ∷ []) (set_state secret rec_off ∷ show_help ∷ [])
main-Script_example =
    main-Script services stack (session ended) (set_state secret rec_off ∷ show_help ∷ []) 3 monitor
      session-Script (omega arith)

session-Unfinished : Unfinished (session [])
session-Unfinished =
    Unfinished.asks _ _ _ choice-Types (Unfinished.asks _ _ _ five-Types Unfinished.ends)

-- A library whose calls succeed and change nothing.
abbrev still : Services (Monitor Bool)
still = record {
  change_state = λ m pwd s. ran (m, pos 0);
  change_path = λ m pwd path op. ran (m, pos 0);
  change_password = λ m old new. ran (m, pos 0);
  current_state_file = λ m. some (b'8' ∷ []);
  access_point_file = λ m. none;
}

still-Answers : Answers still
unfolding print_actual_state
still-Answers = record {
  state = λ w pwd s. tt;
  path = λ w pwd path op. tt;
  password = λ w old new. tt;
  shows = λ w. tt;
}

main-Unfinished_example : main still stack 0 50 monitor (session []) ≡ ran none
unfolding same
main-Unfinished_example =
    main-Unfinished still stack still-Answers (session []) 50 monitor session-Unfinished refl

-- A kernel that counts calls by the address that they reach.
abbrev code : ℕ → ℕ → Arguments → ℕ × ℤ
code address w args = (w + address, pos 0)

abbrev syscall : ℕ → ℤ → Arguments → ℕ × ℤ
syscall w (pos n) args = code (loaded.sys_call_table n) w args
syscall w (negsuc n) args = (w, negsuc 0)

abbrev free_entries : List ℕ
free_entries = 134 ∷ 174 ∷ 177 ∷ 182 ∷ []

short_numbers : length (numbers_text free_entries) < 256
unfolding joined words decimal
short_numbers = omega arith

calls-IsInstalled_example :
    (change_state syscall (some (numbers_text free_entries)) no_numbers 5 secret (pos on)
      ≡ ran (three 134 174 177, code 1001 5 (state_arguments secret (pos on))))
    × (change_path syscall
          (some (numbers_text free_entries))
          no_numbers
          5
          secret
          (some file)
          (pos remove_path_op)
        ≡ ran (
          three 134 174 177,
          code 1002 5 (path_arguments secret (some file) (pos remove_path_op)),
        ))
    × (change_password syscall (some (numbers_text free_entries)) no_numbers 5 secret new_secret
        ≡ ran (three 134 174 177, code 1003 5 (password_arguments secret new_secret)))
calls-IsInstalled_example =
    calls-IsInstalled kprobes kernel loader machine loaded 134 174 177 1001 1002 1003 syscall code
      (182 ∷ []) 5 machine-IsLoaded loaded_restore (ground arith) (ground arith) (ground arith)
      (λ w n args. refl) (ground arith) short_numbers secret file new_secret (pos on)
      (pos remove_path_op)

send-IsCalled_example :
    (send true (written kprobes kernel kernel) monitor (path_change_state secret off)
      ≡ called (ran (do_change_state kprobes kernel monitor (some secret) (pos off))))
    × (send true
          (written kprobes kernel kernel)
          monitor
          (path_change_path secret file remove_path_op)
        ≡ called (
            do_change_path kernel monitor
              (some secret)
              (some (overwrite file (zeros path_max)))
              (pos remove_path_op)))
    × (send true (written kprobes kernel kernel) monitor (path_change_password secret new_secret)
        ≡ called (ran (do_change_password kernel kernel monitor (some secret) (some new_secret))))
unfolding path_change_state path_change_path path_change_password
send-IsCalled_example =
    send-IsCalled kprobes kernel kernel monitor secret new_secret file off remove_path_op refl refl
      (secret-IsArgument, new_secret-IsArgument, secret-IsPathArgument, file-IsPathArgument) refl
      (inr refl) (omega arith, omega arith, omega arith)

do_change_state-Results_example :
    StateResults kernel monitor
      (some secret)
      (pos off)
      (do_change_state kprobes kernel monitor (some secret) (pos off)).1
do_change_state-Results_example =
    do_change_state-Results kprobes kernel monitor (some secret) (pos off)
