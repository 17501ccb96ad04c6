-- ===== src/FunctionalityTest.antt =====
-- test/functionality_test.c: the two tests of the calls, as sequences of calls with their assertions.
use aos_project.Base.{
  ℕ, zero, suc, ◌+◌, ◌-◌, ◌*◌, ◌/◌, ◌%◌, ◌^◌, ◌≤◌, ◌<◌, min, max, bit_and, bit_or, ◌≡◌, refl, sym,
  ap, ◌∙◌, fun_ext, ◌≢◌, ◌↔◌, ◌⊎◌, inl, inr, Bool, true, false, not, ◌&&◌, ◌||◌, Option, none, some,
  List, [], ◌∷◌, ◌++◌, map, append-nil, append_assoc, arith, ltb, leb, ◌==◌, if◌then◌else◌, ltb→lt,
  ltb→le, ==→eq, ==_iff, ==-self, Bool-cases, if-cases, Option-cases, length, get_elem?, get_or,
  set, take, drop, replicate, All, AnyOf, length-append, length-take, length-drop, length-replicate,
  take-append, drop-append, take_at, drop_at, take_split, drop_split, set_at, get_or_at,
  take_of_length-le, drop_of_length-le, take-append-drop, drop-nil, drop-replicate, ℤ, pos, negsuc,
  neg, is_nonzero, is_negative, eperm, enoent, eio, ebadf, enomem, eacces, efault, eexist, einval,
  efbig, ebadmsg, ecanceled,
}
use aos_project.Base.Bits.{has, and_zero, and_assoc, and_self, or-and}
use aos_project.CString.{
  Bytes, strncmp, strcmp, is_zero, same, same_n, same_iff, same_n_iff, same_self, same_n_self,
  same_n-length-append, same_n-length-prefix, c_string, NoNul, zeros, overwrite, c_string-append,
  c_string-zeros, c_string-NoNul, c_string_of_NoNul, strncmp_iff, c_string-zero,
  c_string-drop-zeros, drop-zeros-append, zeros-append, NoNul-append,
}
pub mod PathTest
pub mod StateRun
pub mod PathRun
pub mod Listing
pub mod Runs
pub mod Passes
pub mod Whole
use aos_project.Kernel.{Run, ran, oops}
use aos_project.Syscalls.{on, off, rec_on, rec_off, add_path_op, remove_path_op}
use aos_project.RestrictList.{proc, sys, run, var, tmp}

-- How a test goes on: with a value, not at all after an assertion that fails or an exit, or by a
-- return before its end.
pub data Test (W A : Type 0) : Type 0 where
  goes : A → Test W A
  aborts : Test W A
  returns : W → Test W A

infixl 5 ◌>>=◌
abbrev pub ◌>>=◌ : {W A B : Type 0} → Test W A → (A → Test W B) → Test W B
goes a >>= f = f a
aborts >>= f = aborts
returns w >>= f = returns w

-- The calls of the library that a test is given, and `change_state` and `change_path`, which are
-- called by their names, with the effective user that makes them: the world they leave, and 0 or the
-- error that is then in errno, below 0.
pub record Calls (W : Type 0) : Type 0 where
  pub change_state_func : ℕ → W → Bytes → ℤ → Run (W × ℤ)
  pub change_path_func : ℕ → W → Bytes → Option Bytes → ℤ → Run (W × ℤ)
  pub change_state : ℕ → W → Bytes → ℤ → Run (W × ℤ)
  pub change_path : ℕ → W → Bytes → Option Bytes → ℤ → Run (W × ℤ)
  pub get_state_from_sys : W → ℤ

is_error : ℕ → ℤ → Bool
is_error e (pos n) = false
is_error e (negsuc n) = suc n == e

-- `assert(ret < 0); assert(errno == e);`
unfoldable pub expect : {W : Type 0} → ℕ → Run (W × ℤ) → Test W W
unfolding is_error
expect e oops = aborts
expect e (ran (w, ret)) = if is_error e ret then goes w else aborts

-- `assert(ret == 0);`
unfoldable pub expect_zero : {W : Type 0} → Run (W × ℤ) → Test W W
expect_zero oops = aborts
expect_zero (ran (w, ret)) = if is_zero ret then goes w else aborts

-- `if (ret) return;`
unfoldable pub or_return : {W : Type 0} → Run (W × ℤ) → Test W W
or_return oops = aborts
or_return (ran (w, ret)) = if is_zero ret then goes w else returns w

equal : ℤ → ℤ → Bool
equal (pos n) (pos m) = n == m
equal (negsuc n) (negsuc m) = n == m
equal (pos n) (negsuc m) = false
equal (negsuc n) (pos m) = false

-- `all_state`, and `bad_state` up to its last element
abbrev pub all_state : List ℤ
all_state = pos on ∷ pos off ∷ pos rec_on ∷ pos rec_off ∷ []

abbrev pub bad_state : List ℤ
bad_state =
    pos 0
    ∷ pos (bit_or on off)
    ∷ pos (bit_or rec_off rec_on)
    ∷ pos (bit_or (bit_or on off) (bit_or rec_on rec_off))
    ∷ pos 0x40
    ∷ negsuc 0
    ∷ []

abbrev pub forbitten_paths : List Bytes
forbitten_paths = proc ∷ sys ∷ run ∷ var ∷ tmp ∷ []

-- The user of `seteuid(1000)`.
abbrev pub other_user : ℕ
other_user = 1000

module _ {W : Type 0} (v : Calls W) (good_password bad_password : Bytes) where
  -- The loop over `bad_state`.
  unfoldable pub test_bad_states : List ℤ → W → Test W W
  unfolding expect
  test_bad_states [] w = goes w
  test_bad_states (s ∷ ss) w =
      expect einval (v.change_state_func 0 w bad_password s)
      >>= (λ w. expect einval (v.change_state_func 0 w good_password s))
      >>= test_bad_states ss

  assert_state : ℤ → W → Test W W
  unfolding equal
  assert_state s w = if equal (v.get_state_from_sys w) s then goes w else aborts

  -- The loop over `all_state`, with `current_state`.
  unfoldable pub test_transitions : List ℤ → W → ℤ → Test W (W × ℤ)
  unfolding expect_zero assert_state equal
  test_transitions [] w current = goes (w, current)
  test_transitions (s ∷ ss) w current =
      if equal current s
      then test_transitions ss w current
      else expect_zero (v.change_state_func 0 w good_password s)
        >>= assert_state s
        >>= (λ w. test_transitions ss w s)

  unfoldable pub test_change_state : W → ℤ → Test W (W × ℤ)
  unfolding test_bad_states test_transitions expect
  test_change_state w current_state =
      expect eperm (v.change_state_func other_user w good_password (pos on))
      >>= (λ w. expect eacces (v.change_state_func 0 w bad_password (pos on)))
      >>= test_bad_states bad_state
      >>= (λ w. expect ecanceled (v.change_state_func 0 w good_password current_state))
      >>= (λ w. test_transitions all_state w current_state)
