-- ===== src/PathSolver/Swap.antt =====
-- The names of editor swap files lead to the file itself.
use aos_project.Base.{
  All-append, ℕ, zero, suc, ◌+◌, ◌-◌, ◌≤◌, ◌<◌, ◌≡◌, ap, ◌∙◌, ◌≢◌, some, [], ◌∷◌, ◌++◌,
  append_assoc, arith, length, get_or, set, take, drop, All, length-append, take_at, drop_at,
  take_split, drop_split, set_at, get_or_at,
}
use aos_project.CString.{Bytes, same_n, c_string, NoNul, zeros, c_string-zero, NoNul-append}
use mathlib.Core.Path.{ap₂}
use aos_project.PathSolver.{byte_at, swp, find_dot, remove_dot, clear_swap, strip_swap}
use aos_project.PathSolver.Parent.{NoSlash}

-- The loop passes over what is no slash.
find_dot_skip :
    (b : Bytes) (m j n : ℕ)
    → n ≡ j + m
    → ((i : ℕ) → m ≤ i → i < j + m → byte_at b i ≢ b'/')
    → find_dot b n ≡ find_dot b m
unfolding find_dot
find_dot_skip b m zero n e h = ap (find_dot b) (omega arith)
find_dot_skip b m (suc j) zero e h = absurd (omega arith)
find_dot_skip b m (suc j) (suc n) e h = ground (
  arith,
  h n (omega arith) (omega arith),
  find_dot_skip b m j n (omega arith) (λ i p q. h i p (omega arith)),
)

find_dot_here :
    (b : Bytes) (m : ℕ)
    → byte_at b m ≡ b'/'
    → byte_at b (m + 1) ≡ b'.'
    → find_dot b (suc m) ≡ some (m + 1)
unfolding find_dot
find_dot_here b m h k = ground arith

get_or-All :
    (P : ℕ → Type 0) (s t : Bytes) (i : ℕ) → All P s → i < length s → P (get_or (s ++ t) i 0)
get_or-All P [] t i h l = absurd (omega arith)
get_or-All P (c ∷ s) t zero h l = h.0
get_or-All P (c ∷ s) t (suc i) h l = get_or-All P s t i h.1 (omega arith)

-- The buffer with the name of a swap file of `dir/base`, and the length of that name.
abbrev pub swapped : Bytes → Bytes → Bytes → Bytes
swapped dir base rest = dir ++ (b'/' ∷ b'.' ∷ (base ++ (swp ++ 0 ∷ rest)))

abbrev pub swapped_len : Bytes → Bytes → ℕ
swapped_len dir base = length dir + (length base + 6)

module _ (dir base rest : Bytes) (nb : NoSlash base) where
  abbrev buffer : Bytes
  buffer = swapped dir base rest

  abbrev len : ℕ
  len = swapped_len dir base

  swap_dot : find_dot buffer len ≡ some (length dir + 1)
  swap_dot =
      find_dot_skip buffer (suc (length dir)) (length base + 5) len (omega arith) clear_of
      ∙ find_dot_here buffer (length dir) (get_or_at (length dir) dir _ 0 0 (omega arith))
          (get_or_at (length dir + 1) dir _ 0 1 (omega arith))
    where
      name : NoSlash (b'.' ∷ (base ++ swp))
      name = (omega arith, All-append (λ c. c ≢ b'/') base swp nb (omega arith))

      clear_of :
          (i : ℕ)
          → suc (length dir) ≤ i
          → i < length base + 5 + suc (length dir)
          → byte_at buffer i ≢ b'/'
      clear_of i p q =
          let j : ℕ = i - suc (length dir) in
          rw
            (
              get_or_at i dir (b'/' ∷ b'.' ∷ (base ++ (swp ++ 0 ∷ rest))) 0 (suc j) (omega arith),
              ← append_assoc base swp (0 ∷ rest),
            )
            (get_or-All (λ c. c ≢ b'/') (b'.' ∷ (base ++ swp)) (0 ∷ rest) j name
              (omega (arith, length-append base swp)))

  -- The dot goes, and the string ends a byte earlier.
  swap_removed :
      remove_dot buffer len (some (length dir + 1))
      ≡ ((dir ++ (b'/' ∷ base)) ++ (swp ++ 0 ∷ 0 ∷ rest), length (dir ++ b'/' ∷ base) + 4)
  unfolding remove_dot
  swap_removed =
      rw (kept, behind, shifted, end)
        (ap₂ (λ b n. (b, n)) written (omega (arith, length-append dir (b'/' ∷ base))))
    where
      kept : take (length dir + 1) buffer ≡ dir ++ b'/' ∷ []
      kept =
          take_split _ (dir ++ b'/' ∷ []) (b'.' ∷ (base ++ (swp ++ 0 ∷ rest))) buffer
            (simp append_assoc) (omega (arith, length-append dir (b'/' ∷ [])))

      behind : drop (length dir + 1 + 1) buffer ≡ base ++ (swp ++ 0 ∷ rest)
      behind =
          drop_split _ (dir ++ b'/' ∷ b'.' ∷ []) _ buffer (simp append_assoc)
            (omega (arith, length-append dir (b'/' ∷ b'.' ∷ [])))

      shifted : take (len - (length dir + 1)) (base ++ (swp ++ 0 ∷ rest)) ≡ base ++ (swp ++ 0 ∷ [])
      shifted =
          take_split _ (base ++ (swp ++ 0 ∷ [])) rest (base ++ (swp ++ 0 ∷ rest))
            (simp append_assoc) (omega (arith, length-append base (swp ++ 0 ∷ [])))

      end : drop len buffer ≡ 0 ∷ rest
      end =
          drop_split _ (dir ++ (b'/' ∷ b'.' ∷ (base ++ swp))) (0 ∷ rest) buffer (simp append_assoc)
            (omega (arith, length-append dir (b'/' ∷ b'.' ∷ (base ++ swp)), length-append base swp))

      written :
          set ((dir ++ b'/' ∷ []) ++ ((base ++ (swp ++ 0 ∷ [])) ++ 0 ∷ rest)) (len - 1) 0
          ≡ (dir ++ b'/' ∷ base) ++ (swp ++ 0 ∷ 0 ∷ rest)
      written = simp append_assoc (
          simp append_assoc at (
            set_at (len - 1) (dir ++ (b'/' ∷ (base ++ swp))) (0 ∷ rest) 0 0
              (omega (arith, length-append dir (b'/' ∷ (base ++ swp)), length-append base swp))))

swap_cleared :
    (s rest : Bytes)
    → clear_swap (s ++ (swp ++ 0 ∷ 0 ∷ rest), length s + 4) ≡ s ++ (zeros 4 ++ 0 ∷ 0 ∷ rest)
unfolding clear_swap same_n
swap_cleared s rest = rw (suffix, clear_swap) (rw (kept, behind))
  where
    suffix : drop (length s + 4 - 4) (s ++ (swp ++ 0 ∷ 0 ∷ rest)) ≡ swp ++ 0 ∷ 0 ∷ rest
    suffix = drop_at _ s _ (omega arith)

    kept : take (length s + 4 - 4) (s ++ (swp ++ 0 ∷ 0 ∷ rest)) ≡ s
    kept = take_at _ s _ (omega arith)

    behind : drop (length s + 4 - 4 + 4) (s ++ (swp ++ 0 ∷ 0 ∷ rest)) ≡ 0 ∷ 0 ∷ rest
    behind =
        drop_split _ (s ++ swp) _ (s ++ (swp ++ 0 ∷ 0 ∷ rest)) (simp append_assoc)
          (omega (arith, length-append s swp))

-- The name `dir/.base.swp` in a buffer, with a NUL behind it, is rewritten to `dir/base`, where
-- `dir` and `base` have no NUL and `base` has no slash.
pub strip_swap_lem :
    (dir base rest : Bytes)
    → NoNul dir
    → NoNul base
    → NoSlash base
    → c_string (strip_swap (swapped dir base rest) (swapped_len dir base)) ≡ dir ++ b'/' ∷ base
unfolding strip_swap
strip_swap_lem dir base rest hd hb nb =
    ap c_string (
      ap (λ o. clear_swap (remove_dot (swapped dir base rest) (swapped_len dir base) o))
        (swap_dot dir base rest nb)
      ∙ ap clear_swap (swap_removed dir base rest nb)
      ∙ swap_cleared (dir ++ b'/' ∷ base) rest)
    ∙ c_string-zero (dir ++ b'/' ∷ base) _ (NoNul-append dir (b'/' ∷ base) hd (omega arith, hb))
