-- ===== src/Admin/Handlers.antt =====
-- user/admin.c: the handlers on the lines that their menus ask for.
use aos_project.Base.{
  ℕ, ◌≡◌, refl, sym, ap, inl, inr, true, false, some, [], ◌∷◌, ◌++◌, arith, if◌then◌else◌, ℤ,
  is_negative,
}
use aos_project.CString.{Bytes, strcmp, same}
use aos_project.Kernel.{Run, ran, oops, ◌>>=◌}
use aos_project.Admin.{
  max_password, path_size, max_command, to_lowercase, tolower, Buffer, Message, state_changed,
  state_failed, path_changed, path_failed, password_changed, password_failed, Services,
  chosen_state, chosen_op, is_yes, Turn, handle_change_state, handle_change_path,
  handle_change_password,
}
use mathlib.Core.Path.{subst}
use aos_project.Admin.Lines.{IsLine, read_line-line}
use aos_project.Admin.Script.{
  set_state, set_path, set_password, keep_password, Named, NamesState, names_on, names_off,
  names_rec_on, names_rec_off, NamesOp, names_add, names_remove, reply, perform,
}

pub to_lowercase_twice : (s : Bytes) → to_lowercase (to_lowercase s) ≡ to_lowercase s
to_lowercase_twice [] = refl
to_lowercase_twice (c ∷ s) =
    let e : tolower (tolower c) ≡ tolower c = ground arith in (λ i. e i ∷ to_lowercase_twice s i)

pub >>=_assoc :
    {A B C : Type 0} (r : Run A) (f : A → Run B) (g : B → Run C)
    → (r >>= f >>= g) ≡ (r >>= (λ a. f a >>= g))
>>=_assoc (ran a) f g = refl
>>=_assoc oops f g = refl

chosen_state-NamesState :
    (w : Bytes) (s : ℕ) → NamesState w s → chosen_state (to_lowercase w) ≡ some s
unfolding chosen_state same strcmp
chosen_state-NamesState _ _ (names_on w (inl e)) = ap chosen_state e
chosen_state-NamesState _ _ (names_on w (inr e)) = ap chosen_state e
chosen_state-NamesState _ _ (names_off w (inl e)) = ap chosen_state e
chosen_state-NamesState _ _ (names_off w (inr e)) = ap chosen_state e
chosen_state-NamesState _ _ (names_rec_on w (inl e)) = ap chosen_state e
chosen_state-NamesState _ _ (names_rec_on w (inr e)) = ap chosen_state e
chosen_state-NamesState _ _ (names_rec_off w (inl e)) = ap chosen_state e
chosen_state-NamesState _ _ (names_rec_off w (inr e)) = ap chosen_state e

chosen_op-NamesOp : (w : Bytes) (op : ℕ) → NamesOp w op → chosen_op (to_lowercase w) ≡ some op
unfolding chosen_op same strcmp
chosen_op-NamesOp _ _ (names_add w (inl e)) = ap chosen_op e
chosen_op-NamesOp _ _ (names_add w (inr e)) = ap chosen_op e
chosen_op-NamesOp _ _ (names_remove w (inl e)) = ap chosen_op e
chosen_op-NamesOp _ _ (names_remove w (inr e)) = ap chosen_op e

pub by_name :
    (Q : Bytes → Type 0) (digit : ℕ) (name word : Bytes)
    → Named digit name word
    → Q (digit ∷ [])
    → Q name
    → Q (to_lowercase word)
by_name Q digit name word (inl e) p q = subst Q (sym e) p
by_name Q digit name word (inr e) p q = subst Q (sym e) q

module _ {W : Type 0} (v : Services W) (stack : Buffer → Bytes) where
  -- The turn that a command gives, with this rest of the input.
  abbrev pub turn : Bytes → W × Message → Run (Turn W)
  turn rest (w, m) = ran (record { world = w; stdin = rest; message = m })

  abbrev reported : Bytes → Message → Message → W × ℤ → Run (Turn W)
  reported rest good bad (w, ret) =
      ran (record { world = w; stdin = rest; message = if is_negative ret then bad else good })

  pub handle_change_state_lem :
      (w : W) (pwd choice rest : Bytes) (s : ℕ)
      → IsLine max_password pwd
      → IsLine max_command choice
      → NamesState choice s
      → handle_change_state v stack w (pwd ++ b'\n' ∷ (choice ++ b'\n' ∷ rest))
        ≡ (perform v w (set_state pwd s) >>= turn rest)
  unfolding handle_change_state perform
  handle_change_state_lem w pwd choice rest s a b n =
      rw
        (
          handle_change_state,
          read_line-line _ max_password pwd (choice ++ b'\n' ∷ rest) a,
          read_line-line _ max_command choice rest b,
          chosen_state-NamesState choice s n,
          read_line-line _ max_password pwd (choice ++ b'\n' ∷ rest) a,
          read_line-line _ max_command choice rest b,
        )
        (sym (
          >>=_assoc (v.change_state w pwd s) (reply v (state_changed s) (state_failed s))
            (turn rest)))

  pub handle_change_path_lem :
      (w : W) (pwd choice path rest : Bytes) (op : ℕ)
      → IsLine max_password pwd
      → IsLine max_command choice
      → IsLine path_size path
      → NamesOp choice op
      → handle_change_path v stack w (pwd ++ b'\n' ∷ (choice ++ b'\n' ∷ (path ++ b'\n' ∷ rest)))
        ≡ (perform v w (set_path pwd op path) >>= turn rest)
  unfolding handle_change_path perform
  handle_change_path_lem w pwd choice path rest op a b c n =
      rw
        (
          handle_change_path,
          read_line-line _ max_password pwd (choice ++ b'\n' ∷ (path ++ b'\n' ∷ rest)) a,
          read_line-line _ max_command choice (path ++ b'\n' ∷ rest) b,
          chosen_op-NamesOp choice op n,
          read_line-line _ max_password pwd (choice ++ b'\n' ∷ (path ++ b'\n' ∷ rest)) a,
          read_line-line _ max_command choice (path ++ b'\n' ∷ rest) b,
          read_line-line _ path_size path rest c,
        )
        (sym (
          >>=_assoc (v.change_path w pwd path op)
            (reply v (path_changed path op) (path_failed path op)) (turn rest)))

  module _ (w : W) (old new a rest : Bytes) (p : IsLine max_password old)
      (q : IsLine max_password new) (r : IsLine max_command a) where
    abbrev typed_password : Bytes
    typed_password = old ++ b'\n' ∷ (new ++ b'\n' ∷ (a ++ b'\n' ∷ rest))

    pub handle_change_password_yes :
        is_yes a ≡ true
        → handle_change_password v stack w typed_password
          ≡ (perform v w (set_password old new) >>= turn rest)
    unfolding handle_change_password perform
    handle_change_password_yes y =
        rw
          (
            handle_change_password,
            read_line-line _ max_password old (new ++ b'\n' ∷ (a ++ b'\n' ∷ rest)) p,
            read_line-line _ max_password new (a ++ b'\n' ∷ rest) q,
            read_line-line _ max_command a rest r,
            y,
          )
          (sym (
            >>=_assoc (v.change_password w old new) (reply v password_changed password_failed)
              (turn rest)))

    pub handle_change_password_no :
        is_yes a ≡ false
        → handle_change_password v stack w typed_password
          ≡ (perform v w keep_password >>= turn rest)
    unfolding handle_change_password perform
    handle_change_password_no y =
        rw
          (
            handle_change_password,
            read_line-line _ max_password old (new ++ b'\n' ∷ (a ++ b'\n' ∷ rest)) p,
            read_line-line _ max_password new (a ++ b'\n' ∷ rest) q,
            read_line-line _ max_command a rest r,
            y,
          )
          refl
