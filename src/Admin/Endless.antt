-- ===== src/Admin/Endless.antt =====
-- user/admin.c: what the program does when its input ends before "quit".
use aos_project.Base.{
  ℕ, zero, suc, ◌≡◌, ap, ◌∙◌, inl, inr, Bool, true, false, ◌||◌, Option, none, refl, List, [], ◌∷◌,
  if◌then◌else◌, Bool-cases, Option-cases,
}
use aos_project.CString.{Bytes, same}
use aos_project.Kernel.{Run, ran, oops, ◌>>=◌}
use aos_project.Admin.{
  to_lowercase, read_line, fgets, Buffer, Message, Services, chosen_state, chosen_op, is_yes,
  print_actual_state, print_black_list, Turn, handle_change_state, handle_change_path,
  handle_change_password, run_command, main_loop, main, blacklist_word, help_word, quit_word,
  command_buffer,
}
use aos_project.Admin.{
  help, invalid_command, input_buffer, password_buffer, path_buffer, old_password_buffer,
  new_password_buffer,
}
use aos_project.Admin.Handlers.{to_lowercase_twice}
use aos_project.Admin.Script.{
  set_state, set_path, set_password, keep_password, show_state, show_list, show_help, Command,
  Types, typed, perform,
}
use aos_project.Admin.Session.{main_loop-round, Types-Round}

-- A text that asks for commands and ends.
pub data Unfinished : Bytes → Type 0 where
  ends : Unfinished []
  asks :
      (ls : List Bytes) (c : Command) (text : Bytes)
      → Types ls c
      → Unfinished text
      → Unfinished (typed ls text)

-- The run comes to an end.
abbrev pub Ends : {A : Type 0} → Run A → Type 0
Ends (ran a) = Unit
Ends oops = ⊥

-- The library's calls come to an end, and the file of the state is not empty where it is read.
pub record Answers {W : Type 0} (v : Services W) : Type 0 where
  pub state : (w : W) (pwd : Bytes) (s : ℕ) → Ends (v.change_state w pwd s)
  pub path : (w : W) (pwd path : Bytes) (op : ℕ) → Ends (v.change_path w pwd path op)
  pub password : (w : W) (old new : Bytes) → Ends (v.change_password w old new)
  pub shows : (w : W) → Ends (print_actual_state (v.current_state_file w))

module _ {W : Type 0} (v : Services W) (stack : Buffer → Bytes) (answers : Answers v) where
  -- Nothing is left of the input after a turn.
  data IsDrained : Run (Turn W) → Type 0 where
    drained :
        (w : W) (m : Message) → IsDrained (ran (record { world = w; stdin = []; message = m }))

  >>=-IsDrained :
      {A : Type 0} (r : Run A) (f : A → Run (Turn W))
      → Ends r
      → ((a : A) → IsDrained (f a))
      → IsDrained (r >>= f)
  >>=-IsDrained (ran a) f g h = h a
  >>=-IsDrained oops f g h = absurd g

  handle_change_state-IsDrained : (w : W) → IsDrained (handle_change_state v stack w [])
  unfolding handle_change_state read_line fgets same
  handle_change_state-IsDrained w =
      elim (Option-cases (chosen_state (to_lowercase (stack input_buffer)))) [
        | inl e ↦ rw (e) (drained _ _)
        | inr (s, e) ↦ rw (e) (
            >>=-IsDrained (v.change_state w (stack password_buffer) s) _ (answers.state w _ s)
              (λ a. drained _ _))
      ]

  handle_change_path-IsDrained : (w : W) → IsDrained (handle_change_path v stack w [])
  unfolding handle_change_path read_line fgets same
  handle_change_path-IsDrained w =
      elim (Option-cases (chosen_op (to_lowercase (stack input_buffer)))) [
        | inl e ↦ rw (e) (drained _ _)
        | inr (s, e) ↦ rw (e) (
            >>=-IsDrained (v.change_path w (stack password_buffer) (stack path_buffer) s) _
              (answers.path w _ _ s) (λ a. drained _ _))
      ]

  handle_change_password-IsDrained : (w : W) → IsDrained (handle_change_password v stack w [])
  unfolding handle_change_password read_line fgets
  handle_change_password-IsDrained w = elim (Bool-cases (is_yes (stack input_buffer))) [
    | inl e ↦ rw (e) (
        >>=-IsDrained (v.change_password w (stack old_password_buffer) (stack new_password_buffer))
          _ (answers.password w _ _) (λ a. drained _ _))
    | inr e ↦ rw (e) (drained _ _)
  ]

  if-IsDrained :
      (b : Bool) (x y : Run (Turn W)) → IsDrained x → IsDrained y → IsDrained (if b then x else y)
  if-IsDrained true x y h k = h
  if-IsDrained false x y h k = k

  run_command-IsDrained : (w : W) (input : Bytes) → IsDrained (run_command v stack w [] input)
  unfolding run_command
  run_command-IsDrained w input = if-IsDrained _ _ _ (handle_change_state-IsDrained w) (
      if-IsDrained _ _ _ (handle_change_path-IsDrained w) (
        if-IsDrained _ _ _ (handle_change_password-IsDrained w) (
          if-IsDrained _ _ _
            (>>=-IsDrained (print_actual_state (v.current_state_file w)) _ (answers.shows w)
              (λ m. drained _ _))
            (if-IsDrained (same input (b'4' ∷ []) || same input blacklist_word) _ _
              (drained w (print_black_list (v.access_point_file w)))
              (if-IsDrained (same input (b'5' ∷ []) || same input help_word) _ _ (drained w help)
                (drained w invalid_command))))))

  drained-none :
      {A : Type 0} (r : Run (Turn W)) (f : Turn W → Run (Option A))
      → IsDrained r
      → ((w : W) (m : Message) → f (record { world = w; stdin = []; message = m }) ≡ ran none)
      → (r >>= f) ≡ ran none
  drained-none _ f (drained w m) h = h w m

  -- No number of rounds is enough for a loop that has no input left and does not see "quit".
  main_loop-nil :
      (fuel : ℕ) (w : W) (buffer : Bytes) (log : List Message)
      → same (to_lowercase buffer) quit_word ≡ false
      → main_loop v stack fuel w [] buffer log ≡ ran none
  unfolding main_loop read_line fgets
  main_loop-nil zero w buffer log h = refl
  main_loop-nil (suc fuel) w buffer log h = rw (h) (
      drained-none (run_command v stack w [] (to_lowercase buffer)) _
        (run_command-IsDrained w (to_lowercase buffer))
        (λ w' m.
          main_loop-nil fuel w' (to_lowercase buffer) _
            (ap (λ u. same u quit_word) (to_lowercase_twice buffer) ∙ h)))

  >>=-none :
      {A B : Type 0} (r : Run A) (f : A → Run (Option B))
      → Ends r
      → ((a : A) → f a ≡ ran none)
      → (r >>= f) ≡ ran none
  >>=-none (ran a) f g h = h a
  >>=-none oops f g h = absurd g

  Ends->>= :
      {A B : Type 0} (r : Run A) (f : A → Run B) → Ends r → ((a : A) → Ends (f a)) → Ends (r >>= f)
  Ends->>= (ran a) f g h = h a
  Ends->>= oops f g h = absurd g

  perform-Ends : (w : W) (c : Command) → Ends (perform v w c)
  unfolding perform
  perform-Ends w (set_state pwd s) =
      Ends->>= (v.change_state w pwd s) _ (answers.state w pwd s) (λ a. tt)
  perform-Ends w (set_path pwd op path) =
      Ends->>= (v.change_path w pwd path op) _ (answers.path w pwd path op) (λ a. tt)
  perform-Ends w (set_password old new) =
      Ends->>= (v.change_password w old new) _ (answers.password w old new) (λ a. tt)
  perform-Ends w keep_password = tt
  perform-Ends w show_state =
      Ends->>= (print_actual_state (v.current_state_file w)) _ (answers.shows w) (λ a. tt)
  perform-Ends w show_list = tt
  perform-Ends w show_help = tt

  main_loop-zero :
      (w : W) (text buffer : Bytes) (log : List Message)
      → main_loop v stack zero w text buffer log ≡ ran none
  unfolding main_loop
  main_loop-zero w text buffer log = refl

  main_loop-Unfinished :
      (text : Bytes) (fuel : ℕ) (w : W) (buffer : Bytes) (log : List Message)
      → Unfinished text
      → same (to_lowercase buffer) quit_word ≡ false
      → main_loop v stack fuel w text buffer log ≡ ran none
  main_loop-Unfinished _ fuel w buffer log ends h = main_loop-nil fuel w buffer log h
  main_loop-Unfinished _ zero w buffer log (asks ls c text t u) h = main_loop-zero w _ buffer log
  main_loop-Unfinished _ (suc fuel) w buffer log (asks ls c text t u) h =
      let (next, g, e) =
        main_loop-round v stack fuel w ls c text buffer log (Types-Round v stack w ls c text t) in
      e
      ∙ >>=-none (perform v w c) _ (perform-Ends w c)
          (λ s. main_loop-Unfinished text fuel s.0 next _ u g)

  -- The input is any number of complete commands, each typed as its dialogue asks, and then ends
  -- without "quit"; the library's calls come to an end, the file of the state is not empty, and the
  -- array of the command did not hold "quit" to begin with. Then the program of the superuser runs
  -- for ever: after any number of rounds it has neither ended nor crashed.
  pub main-Unfinished :
      (text : Bytes) (fuel : ℕ) (w : W)
      → Unfinished text
      → same (to_lowercase (stack command_buffer)) quit_word ≡ false
      → main v stack 0 fuel w text ≡ ran none
  unfolding main
  main-Unfinished text fuel w u h = main_loop-Unfinished text fuel w (stack command_buffer) _ u h
