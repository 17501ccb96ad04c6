-- ===== src/Admin/Show.antt =====
-- user/admin.c: what `get_state` and `blacklist` show.
use aos_project.Base.{
  ℕ, zero, suc, ◌≤◌, ◌<◌, ◌≡◌, refl, sym, ap, ◌∙◌, ◌≢◌, inl, some, [], ◌∷◌, ◌++◌, append-nil, arith,
  ◌==◌, if-cases, length, take, length-append, take_at, take_of_length-le, ℤ, pos, negsuc,
}
use aos_project.CString.{Bytes, NoNul, c_string_of_NoNul}
use mathlib.Core.Path.{subst}
use aos_project.Base.{All-map}
use aos_project.Kernel.{Run, ran}
use aos_project.Decimal.{decimal, IsDigit, decimal-IsDigit, decimal-ne-nil, length-decimal}
use aos_project.UserLib.{get_str_state, minus_one}
use aos_project.UserLib.Numbers.{atoi}
use aos_project.UserLib.Printed.{atoi-decimal}
use aos_project.Admin.{
  Message, take_line, fgets, print_lines, print_black_list, print_actual_state, black_list,
  actual_state,
}

take_line-append : (n : ℕ) (s : Bytes) → (take_line n s).0 ++ (take_line n s).1 ≡ s
unfolding take_line
take_line-append zero s = refl
take_line-append (suc n) [] = refl
take_line-append (suc n) (c ∷ s) =
    if-cases (λ (p : Bytes × Bytes). p.0 ++ p.1 ≡ c ∷ s) (c == b'\n') (c ∷ [], s)
      (c ∷ (take_line n s).0, (take_line n s).1) (λ e. refl)
      (λ e. ap (◌∷◌ c) (take_line-append n s))

length-take_line : (n : ℕ) (c : ℕ) (s : Bytes) → length (take_line (suc n) (c ∷ s)).1 ≤ length s
unfolding take_line
length-take_line n c s =
    let e = length-append (take_line n s).0 (take_line n s).1 in
    let f = ap length (take_line-append n s) in
    if-cases (λ (p : Bytes × Bytes). length p.1 ≤ length s) (c == b'\n') (c ∷ [], s)
      (c ∷ (take_line n s).0, (take_line n s).1) (λ z. omega arith) (λ z. omega (arith, e, f))

take_line-fuel :
    (n c fuel : ℕ) (s : Bytes)
    → length (c ∷ s) < suc fuel
    → length (take_line (suc n) (c ∷ s)).1 < fuel
take_line-fuel n c fuel s h = omega (arith, length-take_line n c s)

NoNul-parts : (s t : Bytes) → NoNul (s ++ t) → NoNul s × NoNul t
NoNul-parts [] t h = (tt, h)
NoNul-parts (c ∷ s) t (h, hs) = let (p, q) = NoNul-parts s t hs in ((h, p), q)

print_lines-NoNul : (fuel : ℕ) (s : Bytes) → length s < fuel → NoNul s → print_lines fuel s ≡ s
unfolding print_lines fgets
print_lines-NoNul zero s l h = absurd (omega arith)
print_lines-NoNul (suc fuel) [] l h = refl
print_lines-NoNul (suc fuel) (c ∷ s) l h =
    let (line, rest) = take_line 4095 (c ∷ s) in
    let e : line ++ rest ≡ c ∷ s = take_line-append 4095 (c ∷ s) in
    let (p, q) = NoNul-parts line rest (subst NoNul (sym e) h) in
    let r = print_lines-NoNul fuel rest (take_line-fuel 4094 c fuel s l) q in
    ap (λ u. u ++ print_lines fuel rest) (c_string_of_NoNul line p) ∙ ap (λ u. line ++ u) r ∙ e

-- "blacklist" shows the text of the access point as it is, however long its lines are, if it has no
-- NUL.
pub print_black_list-NoNul :
    (text : Bytes) → NoNul text → print_black_list (some text) ≡ black_list text
unfolding print_black_list
print_black_list-NoNul text h =
    ap black_list (print_lines-NoNul (suc (length text)) text (omega arith) h)

shown_state : ℤ → Run Message
unfolding print_actual_state
shown_state v = ran (actual_state v (elim v [ pos n ↦ get_str_state n | negsuc n ↦ minus_one ]))

print_actual_state-line :
    (s : Bytes)
    → s ≢ []
    → length s < 16
    → NoNul s
    → print_actual_state (some (s ++ b'\n' ∷ [])) ≡ shown_state (atoi s)
unfolding print_actual_state shown_state
print_actual_state-line [] n l h = absurd (n refl)
print_actual_state-line (c ∷ s) n l h =
    let e : take 15 (s ++ b'\n' ∷ []) ≡ s ++ b'\n' ∷ [] =
      take_of_length-le 15 (s ++ b'\n' ∷ []) (omega (arith, length-append s (b'\n' ∷ []))) in
    let f : length (s ++ b'\n' ∷ []) ≡ suc (length s) =
      omega (arith, length-append s (b'\n' ∷ [])) in
    let g : take (length (s ++ b'\n' ∷ [])) (c ∷ s ++ b'\n' ∷ []) ≡ c ∷ s =
      take_at (length (s ++ b'\n' ∷ [])) (c ∷ s) (b'\n' ∷ []) f in
    rw (e, g, c_string_of_NoNul (c ∷ s) h) refl

-- "get_state" shows the number in the file of the parameter and the name of that state, if the
-- file has a number of an int in decimal and a newline.
pub print_actual_state-decimal :
    (n : ℕ)
    → n < 2147483648
    → print_actual_state (some (decimal (pos n) ++ b'\n' ∷ []))
      ≡ ran (actual_state (pos n) (get_str_state n))
unfolding shown_state
print_actual_state-decimal n h =
    let s = decimal (pos n) in
    let e : atoi s ≡ pos n = ap atoi (sym (append-nil s)) ∙ atoi-decimal n [] h (inl refl) in
    print_actual_state-line s (decimal-ne-nil n) (omega (arith, length-decimal (pos n)))
      (All-map IsDigit (λ c. c ≢ 0) (λ c h e. ground arith) s (decimal-IsDigit n))
    ∙ ap shown_state e
