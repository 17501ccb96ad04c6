-- ===== src/UserLib/Printed.antt =====
-- user/lib/ref_syscall.c: what the library makes of the text of free_entries.
use aos_project.Base.{
  ℕ, suc, ◌+◌, ◌-◌, ◌*◌, ◌≤◌, ◌<◌, ◌≡◌, refl, sym, ap, ◌∙◌, ◌≢◌, ◌⊎◌, inl, inr, true, false, Option,
  some, List, [], ◌∷◌, ◌++◌, map, append-nil, arith, leb, ◌==◌, length, get_or, take, All,
  take_of_length-le, ℤ, pos,
}
use aos_project.CString.{Bytes, NoNul, c_string_of_NoNul, NoNul-append}
use aos_project.Base.{All-append, All-map}
use aos_project.CommandLine.{split}
use aos_project.CommandLine.Words.{Lacks, split-Lacks, split-Lacks-append}
use aos_project.Decimal.{IsDigit, decimal, decimal-IsDigit, decimal-ne-nil, value, value-decimal}
use aos_project.Kernel.{ran, oops}
use aos_project.UserLib.Numbers.{
  atoi, atoi_digits, non_empty, strtok, Cache, no_numbers, fill_cache, read_numbers,
  get_syscal_number, is_digit, is_space,
}

-- Numbers in decimal, separated by commas and ended by a newline.
unfoldable pub words : List ℕ → List Bytes
words [] = []
words (n ∷ []) = (decimal (pos n) ++ b'\n' ∷ []) ∷ []
words (n ∷ m ∷ ns) = decimal (pos n) ∷ words (m ∷ ns)

unfoldable pub joined : List Bytes → Bytes
joined [] = []
joined (w ∷ []) = w
joined (w ∷ v ∷ ws) = w ++ b',' ∷ joined (v ∷ ws)

abbrev pub numbers_text : List ℕ → Bytes
numbers_text ns = joined (words ns)

IsPrinted : ℕ → Type 0
IsPrinted c = ((c == b',') ≡ false) × ((0 == c) ≡ false)

IsDigit-IsPrinted : (c : ℕ) → IsDigit c → IsPrinted c
unfolding IsPrinted
IsDigit-IsPrinted c h = ground arith

decimal-IsPrinted : (n : ℕ) → All IsPrinted (decimal (pos n))
decimal-IsPrinted n =
    All-map IsDigit IsPrinted IsDigit-IsPrinted (decimal (pos n)) (decimal-IsDigit n)

append-ne-nil : (s t : Bytes) → s ≢ [] → s ++ t ≢ []
append-ne-nil [] t h e = h refl
append-ne-nil (c ∷ s) t h e = ground arith

words-IsPrinted : (ns : List ℕ) → All (λ w. All IsPrinted w × (w ≢ [])) (words ns)
unfolding words IsPrinted
words-IsPrinted [] = tt
words-IsPrinted (n ∷ []) = (
  (
    All-append IsPrinted (decimal (pos n)) (b'\n' ∷ []) (decimal-IsPrinted n) ((refl, refl), tt),
    append-ne-nil (decimal (pos n)) (b'\n' ∷ []) (decimal-ne-nil n),
  ),
  tt,
)
words-IsPrinted (n ∷ m ∷ ns) = ((decimal-IsPrinted n, decimal-ne-nil n), words-IsPrinted (m ∷ ns))

non_empty-cons : (w : Bytes) (ws : List Bytes) → w ≢ [] → non_empty (w ∷ ws) ≡ w ∷ non_empty ws
unfolding non_empty
non_empty-cons [] ws h = absurd (h refl)
non_empty-cons (c ∷ w) ws h = refl

lacks : (w : Bytes) → All IsPrinted w → Lacks b',' w
unfolding IsPrinted
lacks = All-map IsPrinted (λ c. (c == b',') ≡ false) (λ c h. h.0)

strtok-joined :
    (ws : List Bytes) → All (λ w. All IsPrinted w × (w ≢ [])) ws → strtok b',' (joined ws) ≡ ws
unfolding strtok joined non_empty split
strtok-joined [] h = refl
strtok-joined (w ∷ []) ((p, n), hs) = rw (split-Lacks b',' w (lacks w p)) (non_empty-cons w [] n)
strtok-joined (w ∷ v ∷ ws) ((p, n), hs) =
    rw (split-Lacks-append b',' w (joined (v ∷ ws)) (lacks w p))
      (non_empty-cons w _ n ∙ ap (◌∷◌ w) (strtok-joined (v ∷ ws) hs))

atoi_digits-value :
    (s t : Bytes) (n : ℕ)
    → All IsDigit s
    → (t ≡ []) ⊎ (t ≡ b'\n' ∷ [])
    → atoi_digits n (s ++ t) ≡ value n s
unfolding atoi_digits value
atoi_digits-value [] [] n h k = refl
atoi_digits-value [] (c ∷ t) n h k = ground arith
atoi_digits-value (c ∷ s) t n (h, hs) k =
    let e : is_digit c ≡ true = ground arith in
    rw e (atoi_digits-value s t (10 * n + (c - 48)) hs k)

atoi-value :
    (s t : Bytes)
    → All IsDigit s
    → s ≢ []
    → (t ≡ []) ⊎ (t ≡ b'\n' ∷ [])
    → atoi (s ++ t) ≡ pos (value 0 s)
unfolding atoi
atoi-value [] t h n k = absurd (n refl)
atoi-value (c ∷ s) t (h, hs) n k =
    let a : is_space c ≡ false = ground arith in
    let b : (c == b'-') ≡ false = ground arith in
    let d : (c == b'+') ≡ false = ground arith in
    rw (a, b, d) (ap pos (atoi_digits-value (c ∷ s) t 0 (h, hs) k))

abbrev pub IsNumber : ℕ → Type 0
IsNumber n = n < 2147483648

-- `atoi` reads back what `%d` prints, before the end or a newline.
pub atoi-decimal :
    (n : ℕ) (t : Bytes)
    → IsNumber n
    → (t ≡ []) ⊎ (t ≡ b'\n' ∷ [])
    → atoi (decimal (pos n) ++ t) ≡ pos n
atoi-decimal n t h k =
    atoi-value (decimal (pos n)) t (decimal-IsDigit n) (decimal-ne-nil n) k
    ∙ ap pos (value-decimal n (omega arith))

map-atoi : (ns : List ℕ) → All IsNumber ns → map atoi (words ns) ≡ map pos ns
unfolding words
map-atoi [] h = refl
map-atoi (n ∷ []) (h, hs) = ap (λ v. v ∷ []) (atoi-decimal n (b'\n' ∷ []) h (inr refl))
map-atoi (n ∷ m ∷ ns) (h, hs) =
    let e : atoi (decimal (pos n)) ≡ pos n =
      ap atoi (sym (append-nil (decimal (pos n)))) ∙ atoi-decimal n [] h (inl refl) in
    (λ i. e i ∷ map-atoi (m ∷ ns) hs i)

-- The cache takes the first tokens.
fill_cache-map :
    (vs : List ℤ) (ws : List Bytes)
    → length vs ≤ length ws
    → fill_cache vs ws ≡ take (length vs) (map atoi ws)
unfolding fill_cache
fill_cache-map [] ws h = refl
fill_cache-map (v ∷ vs) [] h = absurd (omega arith)
fill_cache-map (v ∷ vs) (w ∷ ws) h = ap (◌∷◌ (atoi w)) (fill_cache-map vs ws (omega arith))

joined-NoNul : (ws : List Bytes) → All (λ w. All IsPrinted w × (w ≢ [])) ws → NoNul (joined ws)
unfolding joined IsPrinted
joined-NoNul [] h = tt
joined-NoNul (w ∷ []) ((p, n), hs) = All-map IsPrinted (λ c. c ≢ 0) (λ c h e. ground arith) w p
joined-NoNul (w ∷ v ∷ ws) ((p, n), hs) =
    NoNul-append w (b',' ∷ joined (v ∷ ws))
      (All-map IsPrinted (λ c. c ≢ 0) (λ c h e. ground arith) w p)
      (ground arith, joined-NoNul (v ∷ ws) hs)

length-words : (n : ℕ) (ns : List ℕ) → length (words (n ∷ ns)) ≡ suc (length ns)
unfolding words
length-words n [] = refl
length-words n (m ∷ ns) = ap suc (length-words m ns)

-- The cache once the numbers are read.
abbrev pub three : ℕ → ℕ → ℕ → Cache
three a b c = record { syscall_cache = pos a ∷ pos b ∷ pos c ∷ []; empty = false }

abbrev filled : List ℤ → Cache
filled vs = record { syscall_cache = vs; empty = false }

read_numbers-fits :
    (c : Cache) (text : Bytes)
    → length text < 256
    → NoNul text
    → read_numbers c text ≡ ran (filled (fill_cache c.syscall_cache (strtok b',' text)))
unfolding read_numbers
read_numbers-fits c text len h =
    let z : leb 256 (length text) ≡ false = ground arith in
    rw (take_of_length-le 256 text (omega arith), z, c_string_of_NoNul text h) refl

read_numbers-printed :
    (a b c : ℕ) (rest : List ℕ)
    → All IsNumber (a ∷ b ∷ c ∷ rest)
    → length (numbers_text (a ∷ b ∷ c ∷ rest)) < 256
    → read_numbers no_numbers (numbers_text (a ∷ b ∷ c ∷ rest)) ≡ ran (three a b c)
read_numbers-printed a b c rest h len =
    let ns = a ∷ b ∷ c ∷ rest in
    let good = words-IsPrinted ns in
    let zeros3 = pos 0 ∷ pos 0 ∷ pos 0 ∷ [] in
    read_numbers-fits no_numbers (numbers_text ns) len (joined-NoNul (words ns) good)
    ∙ ap (λ ws. ran (filled (fill_cache zeros3 ws))) (strtok-joined (words ns) good)
    ∙ ap (λ vs. ran (filled vs))
        (fill_cache-map zeros3 (words ns) (omega (arith, length-words a (b ∷ c ∷ rest)))
          ∙ ap (take 3) (map-atoi ns h))

get_syscal_number-read :
    (text : Bytes) (c0 c : Cache) (i : ℕ)
    → i < 3
    → c0.empty ≡ true
    → read_numbers c0 text ≡ ran c
    → get_syscal_number (some text) c0 (pos i) ≡ ran (c, get_or c.syscall_cache i (pos 0))
unfolding get_syscal_number read_numbers
get_syscal_number-read text c0 c i x y e =
    let p : leb i 2 ≡ true = ground arith in
    rw (p, y)
      (ap (λ r. elim r [ ran c' ↦ ran (c', get_or c'.syscall_cache i (pos 0)) | oops ↦ oops ]) e)

-- Where the file lists at least three numbers of an int in decimal, with commas between them and a
-- newline behind them, in less than 256 bytes, the first call gives the number of its system call,
-- and so does each later call, whatever the file holds by then.
pub get_syscal_number-printed :
    (a b c : ℕ) (rest : List ℕ) (i j : ℕ) (later : Option Bytes)
    → All IsNumber (a ∷ b ∷ c ∷ rest)
    → length (numbers_text (a ∷ b ∷ c ∷ rest)) < 256
    → i < 3
    → j < 3
    → (get_syscal_number (some (numbers_text (a ∷ b ∷ c ∷ rest))) no_numbers (pos i)
        ≡ ran (three a b c, get_or (pos a ∷ pos b ∷ pos c ∷ []) i (pos 0)))
      × (get_syscal_number later (three a b c) (pos j)
          ≡ ran (three a b c, get_or (pos a ∷ pos b ∷ pos c ∷ []) j (pos 0)))
unfolding get_syscal_number
get_syscal_number-printed a b c rest i j later h len x y =
    let q : leb j 2 ≡ true = ground arith in
    (
      get_syscal_number-read (numbers_text (a ∷ b ∷ c ∷ rest)) no_numbers (three a b c) i x refl
          (read_numbers-printed a b c rest h len),
      rw (q) refl,
    )
