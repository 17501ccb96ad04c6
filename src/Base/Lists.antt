-- ===== src/Base/Lists.antt =====
-- Lists measured and indexed by native numbers, under the library's names.
use Prim.Native.Nat.{ℕ, zero, suc, ◌+◌, ◌-◌, ◌≤◌, min}
use mathlib.Core.Path.{◌≡◌, refl, ap}
use mathlib.Core.List.{List, [], ◌∷◌, ◌++◌}
use mathlib.Core.Option.{Option, none, some}
use mathlib.Core.Logic.{◌⊎◌, inl, inr}
use native.Mathlib.Omega.{arith}
use native.Mathlib.Nat.{zero-add, suc-add}

module _ {ℓ} {A : Type ℓ} where
  abbrev pub length : List A → ℕ
  length [] = 0
  length (x ∷ xs) = suc (length xs)

  abbrev pub get_elem? : List A → ℕ → Option A
  get_elem? [] i = none
  get_elem? (x ∷ xs) zero = some x
  get_elem? (x ∷ xs) (suc i) = get_elem? xs i

  abbrev pub get_or : List A → ℕ → A → A
  get_or [] i d = d
  get_or (x ∷ xs) zero d = x
  get_or (x ∷ xs) (suc i) d = get_or xs i d

  -- A write out of bounds changes nothing.
  abbrev pub set : List A → ℕ → A → List A
  set [] i v = []
  set (x ∷ xs) zero v = v ∷ xs
  set (x ∷ xs) (suc i) v = x ∷ set xs i v

  abbrev pub take : ℕ → List A → List A
  take zero xs = []
  take (suc n) [] = []
  take (suc n) (x ∷ xs) = x ∷ take n xs

  abbrev pub drop : ℕ → List A → List A
  drop zero xs = xs
  drop (suc n) [] = []
  drop (suc n) (x ∷ xs) = drop n xs

  abbrev pub replicate : ℕ → A → List A
  replicate zero a = []
  replicate (suc n) a = a ∷ replicate n a

  abbrev pub All {κ} : (A → Type κ) → List A → Type κ
  All P [] = Unit
  All P (x ∷ xs) = P x × All P xs

module _ {ℓ} {A : Type ℓ} where
  pub length-append : (xs ys : List A) → length (xs ++ ys) ≡ length xs + length ys
  length-append [] ys = omega arith
  length-append (x ∷ xs) ys = omega (arith, length-append xs ys)

  pub length-take : (n : ℕ) (xs : List A) → length (take n xs) ≡ min n (length xs)
  length-take zero xs = omega arith
  length-take (suc n) [] = omega arith
  length-take (suc n) (x ∷ xs) = omega (arith, length-take n xs)

  pub length-drop : (n : ℕ) (xs : List A) → length (drop n xs) ≡ length xs - n
  length-drop zero xs = omega arith
  length-drop (suc n) [] = omega arith
  length-drop (suc n) (x ∷ xs) = omega (arith, length-drop n xs)

  pub length-replicate : (n : ℕ) (a : A) → length (replicate n a) ≡ n
  length-replicate zero a = refl
  length-replicate (suc n) a = ap suc (length-replicate n a)

  pub take-append : (xs ys : List A) → take (length xs) (xs ++ ys) ≡ xs
  take-append [] ys = refl
  take-append (x ∷ xs) ys = ap (◌∷◌ x) (take-append xs ys)

  pub drop-append : (xs ys : List A) → drop (length xs) (xs ++ ys) ≡ ys
  drop-append [] ys = refl
  drop-append (x ∷ xs) ys = drop-append xs ys

  pub take_of_length-le : (n : ℕ) (xs : List A) → length xs ≤ n → take n xs ≡ xs
  take_of_length-le (suc m) (y ∷ ys) h = ap (λ r. y ∷ r) (take_of_length-le m ys (omega arith))
  take_of_length-le (suc m) [] h = refl
  take_of_length-le zero [] h = refl
  take_of_length-le zero (y ∷ ys) h = absurd (omega arith)

  pub drop_of_length-le : (n : ℕ) (xs : List A) → length xs ≤ n → drop n xs ≡ []
  drop_of_length-le zero [] h = refl
  drop_of_length-le zero (x ∷ xs) h = absurd (omega arith)
  drop_of_length-le (suc n) [] h = refl
  drop_of_length-le (suc n) (x ∷ xs) h = drop_of_length-le n xs (omega arith)

  pub take-append-drop : (n : ℕ) (xs : List A) → take n xs ++ drop n xs ≡ xs
  take-append-drop zero xs = refl
  take-append-drop (suc n) [] = refl
  take-append-drop (suc n) (x ∷ xs) = rw (take-append-drop n xs)

  pub drop-nil : (m : ℕ) → drop {A = A} m [] ≡ []
  drop-nil zero = refl
  drop-nil (suc m) = refl

  pub drop-replicate : (m k : ℕ) (a : A) → drop m (replicate (m + k) a) ≡ replicate k a
  drop-replicate zero k a = rw zero-add
  drop-replicate (suc m) k a = rw suc-add (drop-replicate m k a)

index_of : {n m : ℕ} → n ≡ 0 + m → n ≡ m
index_of h = omega arith

module _ {ℓ} {A : Type ℓ} where
  -- The same with an index that is the length.
  pub take_at : (n : ℕ) (xs ys : List A) → n ≡ length xs → take n (xs ++ ys) ≡ xs
  take_at n xs ys h = rw h (take-append xs ys)

  pub drop_at : (n : ℕ) (xs ys : List A) → n ≡ length xs → drop n (xs ++ ys) ≡ ys
  drop_at n xs ys h = rw h (drop-append xs ys)

  -- A list that is known to split at the index.
  pub take_split : (n : ℕ) (xs ys zs : List A) → zs ≡ xs ++ ys → n ≡ length xs → take n zs ≡ xs
  take_split n xs ys zs e h = rw e (take_at n xs ys h)

  pub drop_split : (n : ℕ) (xs ys zs : List A) → zs ≡ xs ++ ys → n ≡ length xs → drop n zs ≡ ys
  drop_split n xs ys zs e h = rw e (drop_at n xs ys h)

  pub set_at :
      (n : ℕ) (xs ys : List A) (y v : A) → n ≡ length xs → set (xs ++ y ∷ ys) n v ≡ xs ++ v ∷ ys
  set_at zero [] ys y v h = refl
  set_at (suc n) [] ys y v h = absurd (omega arith)
  set_at zero (x ∷ xs) ys y v h = absurd (omega arith)
  set_at (suc n) (x ∷ xs) ys y v h = ap (◌∷◌ x) (set_at n xs ys y v (omega arith))

  pub get_or_at :
      (n : ℕ) (xs ys : List A) (d : A) (m : ℕ)
      → n ≡ length xs + m
      → get_or (xs ++ ys) n d ≡ get_or ys m d
  get_or_at n [] ys d m h = ap (λ k. get_or ys k d) (index_of h)
  get_or_at zero (x ∷ xs) ys d m h = absurd (omega arith)
  get_or_at (suc n) (x ∷ xs) ys d m h = get_or_at n xs ys d m (omega arith)

-- Some element has the property; what stands in the list decides it.
abbrev pub AnyOf {ℓ} : {A : Type ℓ} → (A → Type 0) → List A → Type 0
AnyOf P [] = ⊥
AnyOf P (x ∷ xs) = P x ⊎ AnyOf P xs

module _ {ℓ κ} {A : Type ℓ} where
  pub All-append : (Q : A → Type κ) (xs ys : List A) → All Q xs → All Q ys → All Q (xs ++ ys)
  All-append Q [] ys h k = k
  All-append Q (x ∷ xs) ys (h, hs) k = (h, All-append Q xs ys hs k)

  pub All-map : (Q R : A → Type κ) → ((x : A) → Q x → R x) → (xs : List A) → All Q xs → All R xs
  All-map Q R f [] h = tt
  All-map Q R f (x ∷ xs) (h, hs) = (f x h, All-map Q R f xs hs)

-- To split on a computed list and keep the equation.
pub List-cases {ℓ} :
    {A : Type ℓ} (xs : List A) → (xs ≡ []) ⊎ ((x : A) × (rest : List A) × (xs ≡ x ∷ rest))
List-cases [] = inl refl
List-cases (x ∷ xs) = inr (x, xs, refl)
