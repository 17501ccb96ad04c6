-- ===== src/Admin/Session.antt =====
-- user/admin.c: the program does what the lines that are typed ask for.
use aos_project.Base.{
  ℕ, zero, suc, ◌<◌, ◌≡◌, refl, sym, ap, ◌∙◌, true, false, List, [], ◌∷◌, ◌++◌, arith, length,
}
use aos_project.CString.{Bytes, strcmp, same, same_self}
use aos_project.Kernel.{Run, ran, oops, ◌>>=◌}
use aos_project.Admin.{
  max_command, to_lowercase, Buffer, Message, help, Services, print_actual_state, Turn, run_command,
  main_loop, main, change_state_word, change_path_word, change_password_word, get_state_word,
  blacklist_word, help_word, quit_word,
}
use aos_project.Admin.Handlers.{
  to_lowercase_twice, >>=_assoc, by_name, turn, handle_change_state_lem, handle_change_path_lem,
  handle_change_password_yes, handle_change_password_no,
}
use aos_project.Admin.Lines.{IsLine, read_line-line}
use aos_project.Admin.Script.{
  Command, set_state, set_path, set_password, keep_password, show_state, show_list, show_help,
  Types, types_state, types_path, types_password, types_cancel, types_show_state, types_show_list,
  types_help, typed, Script, quits, asks, with_world, perform, performs,
}

module _ {W : Type 0} (v : Services W) (stack : Buffer → Bytes) where
  -- A round of the loop on lines that ask for a command.
  pub record Round (w : W) (ls : List Bytes) (c : Command) (rest : Bytes) : Type 0 where
    word : Bytes
    tail : Bytes
    text : typed ls rest ≡ word ++ b'\n' ∷ tail
    fits : IsLine max_command word
    goes_on : same (to_lowercase word) quit_word ≡ false
    result : run_command v stack w tail (to_lowercase word) ≡ (perform v w c >>= turn v stack rest)

  abbrev IsRun : W → Bytes → Run (Turn W) → Bytes → Type 0
  IsRun w tail r input = (same input quit_word ≡ false) × (run_command v stack w tail input ≡ r)

  round_of :
      (w : W) (ls : List Bytes) (c : Command) (rest word tail : Bytes)
      → typed ls rest ≡ word ++ b'\n' ∷ tail
      → IsLine max_command word
      → IsRun w tail (perform v w c >>= turn v stack rest) (to_lowercase word)
      → Round w ls c rest
  round_of w ls c rest word tail e f (g, r) = record {
    word = word;
    tail = tail;
    text = e;
    fits = f;
    goes_on = g;
    result = r;
  }

  pub Types-Round :
      (w : W) (ls : List Bytes) (c : Command) (rest : Bytes) → Types ls c → Round w ls c rest
  unfolding run_command same strcmp typed perform
  Types-Round w _ _ rest (types_state word pwd choice s n f a b k) =
      let e = handle_change_state_lem v stack w pwd choice rest s a b k in
      let tail = typed (pwd ∷ choice ∷ []) rest in
      round_of w _ (set_state pwd s) rest word tail refl f
        (by_name (IsRun w tail _) b'0' change_state_word word n (refl, e) (refl, e))
  Types-Round w _ _ rest (types_path word pwd choice path op n f a b d k) =
      let e = handle_change_path_lem v stack w pwd choice path rest op a b d k in
      let tail = typed (pwd ∷ choice ∷ path ∷ []) rest in
      round_of w _ (set_path pwd op path) rest word tail refl f
        (by_name (IsRun w tail _) b'1' change_path_word word n (refl, e) (refl, e))
  Types-Round w _ _ rest (types_password word old new a n f p q r y) =
      let e = handle_change_password_yes v stack w old new a rest p q r y in
      let tail = typed (old ∷ new ∷ a ∷ []) rest in
      round_of w _ (set_password old new) rest word tail refl f
        (by_name (IsRun w tail _) b'2' change_password_word word n (refl, e) (refl, e))
  Types-Round w _ _ rest (types_cancel word old new a n f p q r y) =
      let e = handle_change_password_no v stack w old new a rest p q r y in
      let tail = typed (old ∷ new ∷ a ∷ []) rest in
      round_of w _ keep_password rest word tail refl f
        (by_name (IsRun w tail _) b'2' change_password_word word n (refl, e) (refl, e))
  Types-Round w _ _ rest (types_show_state word n f) =
      let e = sym (
        >>=_assoc (print_actual_state (v.current_state_file w)) (with_world v w)
          (turn v stack rest)) in
      round_of w _ show_state rest word rest refl f
        (by_name (IsRun w rest _) b'3' get_state_word word n (refl, e) (refl, e))
  Types-Round w _ _ rest (types_show_list word n f) =
      round_of w _ show_list rest word rest refl f
        (by_name (IsRun w rest _) b'4' blacklist_word word n (refl, refl) (refl, refl))
  Types-Round w _ _ rest (types_help word n f) =
      round_of w _ show_help rest word rest refl f
        (by_name (IsRun w rest _) b'5' help_word word n (refl, refl) (refl, refl))

  pub main_loop-round :
      (fuel : ℕ) (w : W) (ls : List Bytes) (c : Command) (rest buffer : Bytes) (log : List Message)
      → Round w ls c rest
      → (next : Bytes) × (same (to_lowercase next) quit_word ≡ false)
        × (main_loop v stack (suc fuel) w (typed ls rest) buffer log
            ≡ (perform v w c >>= (λ r. main_loop v stack fuel r.0 rest next (log ++ r.1 ∷ []))))
  unfolding main_loop
  main_loop-round fuel w ls c rest buffer log r = (
    to_lowercase r.word,
    ap (λ u. same u quit_word) (to_lowercase_twice r.word) ∙ r.goes_on,
    rw (r.text, read_line-line buffer max_command r.word r.tail r.fits, r.goes_on, r.result)
        (>>=_assoc (perform v w c) (turn v stack rest) (λ t.
          main_loop v stack fuel t.world t.stdin (to_lowercase r.word) (log ++ t.message ∷ []))),
  )

  >>=-cong :
      {A B : Type 0} (r : Run A) (f g : A → Run B) → ((a : A) → f a ≡ g a) → (r >>= f) ≡ (r >>= g)
  >>=-cong (ran a) f g h = h a
  >>=-cong oops f g h = refl

  -- The loop on a script, with a round for each command and one for "quit".
  main_loop-Script :
      (text : Bytes) (cs : List Command) (fuel : ℕ) (w : W) (buffer : Bytes) (log : List Message)
      → Script text cs
      → length cs < fuel
      → main_loop v stack fuel w text buffer log ≡ performs v w log cs
  unfolding main_loop performs
  main_loop-Script _ _ zero w buffer log s h = absurd (omega arith)
  main_loop-Script _ _ (suc fuel) w buffer log (quits word rest e f) h =
      let z : same (to_lowercase word) quit_word ≡ true =
        ap (λ u. same u quit_word) e ∙ same_self quit_word in
      rw (read_line-line buffer max_command word rest f, z) refl
  main_loop-Script _ _ (suc fuel) w buffer log (asks ls c text cs t s) h =
      let (next, g, e) = main_loop-round fuel w ls c text buffer log (Types-Round w ls c text t) in
      e
      ∙ >>=-cong (perform v w c) (λ r. main_loop v stack fuel r.0 text next (log ++ r.1 ∷ []))
          (λ r. performs v r.0 (log ++ r.1 ∷ []) cs)
          (λ r. main_loop-Script text cs fuel r.0 next (log ++ r.1 ∷ []) s (omega arith))

  -- On a text that asks for commands line by line and ends with "quit", the program run by the
  -- superuser makes the calls that the lines ask for, in their order and each in the world that the
  -- one before leaves, prints what they gave, and ends, whatever its arrays held before. Fuel for a
  -- round more than there are commands is enough.
  pub main-Script :
      (text : Bytes) (cs : List Command) (fuel : ℕ) (w : W)
      → Script text cs
      → length cs < fuel
      → main v stack 0 fuel w text ≡ performs v w (help ∷ []) cs
  unfolding main
  main-Script text cs fuel w s h = main_loop-Script text cs fuel w _ _ s h
