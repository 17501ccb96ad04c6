-- ===== src/Admin/Script.antt =====
-- user/admin.c: a session of the administrator, from the text that is typed to the calls it makes.
use aos_project.Base.{
  ℕ, ◌≡◌, ◌⊎◌, true, false, Option, some, List, [], ◌∷◌, ◌++◌, if◌then◌else◌, ℤ, is_negative,
}
use aos_project.CString.{Bytes}
use aos_project.Kernel.{Run, ran, ◌>>=◌}
use aos_project.Syscalls.{on, off, rec_on, rec_off, add_path_op, remove_path_op}
use aos_project.Admin.{
  max_password, path_size, max_command, to_lowercase, Message, exiting, help, canceled,
  state_changed, state_failed, path_changed, path_failed, password_changed, password_failed,
  Services, is_yes, print_actual_state, print_black_list, change_state_word, change_path_word,
  change_password_word, get_state_word, blacklist_word, help_word, quit_word, addpath, rmpath,
}
use aos_project.Admin.Lines.{IsLine}

-- What the administrator asks for.
pub data Command : Type 0 where
  set_state : Bytes → ℕ → Command
  set_path : Bytes → ℕ → Bytes → Command
  set_password : Bytes → Bytes → Command
  keep_password show_state show_list show_help : Command

-- A word of a menu: its digit or its name, in capitals or not.
abbrev pub Named : ℕ → Bytes → Bytes → Type 0
Named digit name word = (to_lowercase word ≡ digit ∷ []) ⊎ (to_lowercase word ≡ name)

pub data NamesState : Bytes → ℕ → Type 0 where
  names_on : (w : Bytes) → Named b'0' (b'o' ∷ b'n' ∷ []) w → NamesState w on
  names_off : (w : Bytes) → Named b'1' (b'o' ∷ b'f' ∷ b'f' ∷ []) w → NamesState w off
  names_rec_on :
      (w : Bytes)
      → Named b'2' (b'r' ∷ b'e' ∷ b'c' ∷ b'_' ∷ b'o' ∷ b'n' ∷ []) w
      → NamesState w rec_on
  names_rec_off :
      (w : Bytes)
      → Named b'3' (b'r' ∷ b'e' ∷ b'c' ∷ b'_' ∷ b'o' ∷ b'f' ∷ b'f' ∷ []) w
      → NamesState w rec_off

pub data NamesOp : Bytes → ℕ → Type 0 where
  names_add : (w : Bytes) → Named b'0' addpath w → NamesOp w add_path_op
  names_remove : (w : Bytes) → Named b'1' rmpath w → NamesOp w remove_path_op

-- The lines that ask for a command; passwords and paths are taken as they are.
pub data Types : List Bytes → Command → Type 0 where
  types_state :
      (word pwd choice : Bytes) (s : ℕ)
      → Named b'0' change_state_word word
      → IsLine max_command word
      → IsLine max_password pwd
      → IsLine max_command choice
      → NamesState choice s
      → Types (word ∷ pwd ∷ choice ∷ []) (set_state pwd s)
  types_path :
      (word pwd choice path : Bytes) (op : ℕ)
      → Named b'1' change_path_word word
      → IsLine max_command word
      → IsLine max_password pwd
      → IsLine max_command choice
      → IsLine path_size path
      → NamesOp choice op
      → Types (word ∷ pwd ∷ choice ∷ path ∷ []) (set_path pwd op path)
  types_password :
      (word old new answer : Bytes)
      → Named b'2' change_password_word word
      → IsLine max_command word
      → IsLine max_password old
      → IsLine max_password new
      → IsLine max_command answer
      → is_yes answer ≡ true
      → Types (word ∷ old ∷ new ∷ answer ∷ []) (set_password old new)
  types_cancel :
      (word old new answer : Bytes)
      → Named b'2' change_password_word word
      → IsLine max_command word
      → IsLine max_password old
      → IsLine max_password new
      → IsLine max_command answer
      → is_yes answer ≡ false
      → Types (word ∷ old ∷ new ∷ answer ∷ []) keep_password
  types_show_state :
      (word : Bytes)
      → Named b'3' get_state_word word
      → IsLine max_command word
      → Types (word ∷ []) show_state
  types_show_list :
      (word : Bytes)
      → Named b'4' blacklist_word word
      → IsLine max_command word
      → Types (word ∷ []) show_list
  types_help :
      (word : Bytes)
      → Named b'5' help_word word
      → IsLine max_command word
      → Types (word ∷ []) show_help

unfoldable pub typed : List Bytes → Bytes → Bytes
typed [] rest = rest
typed (l ∷ ls) rest = l ++ b'\n' ∷ typed ls rest

-- A text that asks for commands one after the other and ends with "quit".
pub data Script : Bytes → List Command → Type 0 where
  quits :
      (word rest : Bytes)
      → to_lowercase word ≡ quit_word
      → IsLine max_command word
      → Script (word ++ b'\n' ∷ rest) []
  asks :
      (ls : List Bytes) (c : Command) (text : Bytes) (cs : List Command)
      → Types ls c
      → Script text cs
      → Script (typed ls text) (c ∷ cs)

module _ {W : Type 0} (v : Services W) where
  abbrev pub reply : Message → Message → W × ℤ → Run (W × Message)
  reply good bad (w, ret) = ran (w, if is_negative ret then bad else good)

  abbrev pub with_world : W → Message → Run (W × Message)
  with_world w m = ran (w, m)

  -- What a command does, and what the program says.
  unfoldable pub perform : W → Command → Run (W × Message)
  perform w (set_state pwd s) = v.change_state w pwd s >>= reply (state_changed s) (state_failed s)
  perform w (set_path pwd op path) =
      v.change_path w pwd path op >>= reply (path_changed path op) (path_failed path op)
  perform w (set_password old new) =
      v.change_password w old new >>= reply password_changed password_failed
  perform w keep_password = ran (w, canceled)
  perform w show_state = print_actual_state (v.current_state_file w) >>= with_world w
  perform w show_list = ran (w, print_black_list (v.access_point_file w))
  perform w show_help = ran (w, help)

  -- The commands one after the other, each in the world that the one before leaves.
  unfoldable pub performs : W → List Message → List Command → Run (Option (W × List Message))
  unfolding perform
  performs w log [] = ran (some (w, log ++ exiting ∷ []))
  performs w log (c ∷ cs) = perform w c >>= (λ r. performs r.0 (log ++ r.1 ∷ []) cs)
