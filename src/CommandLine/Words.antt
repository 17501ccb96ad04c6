-- ===== src/CommandLine/Words.antt =====
-- reference-monitor/lib/reference_path_based_syscall.c: how the text is cut into words.
use aos_project.Base.{
  ==-self, All-map, ℕ, ◌≡◌, refl, ap, ◌∙◌, Bool, true, false, not, ◌&&◌, [], ◌∷◌, ◌++◌, map, arith,
  ◌==◌, if◌then◌else◌, All,
}
use aos_project.CString.{Bytes, c_string, NoNul, c_string_of_NoNul}
use mathlib.Core.List.{map-append}
use aos_project.CommandLine.{pwd_key, opt_key, split, push, words_of}

-- No space, newline or NUL.
abbrev pub is_plain : ℕ → Bool
is_plain c = not (c == b' ') && (not (c == b'\n') && not (c == 0))

abbrev pub Plain : Bytes → Type 0
Plain s = All (λ c. is_plain c ≡ true) s

abbrev newline_nul : ℕ → ℕ
newline_nul c = if c == b'\n' then 0 else c

Plain-NoNul : (s : Bytes) → Plain s → NoNul s
Plain-NoNul [] h = h
Plain-NoNul (c ∷ s) (h, hs) = (ground arith, Plain-NoNul s hs)

map-newline_nul : (s : Bytes) → Plain s → map newline_nul s ≡ s
map-newline_nul [] h = refl
map-newline_nul (c ∷ s) (h, hs) =
    let e : newline_nul c ≡ c = ground arith in (λ i. e i ∷ map-newline_nul s hs i)

-- A string without the separator is one piece, and the separator ends a piece.
abbrev pub Lacks : ℕ → Bytes → Type 0
Lacks sep s = All (λ c. (c == sep) ≡ false) s

pub split-Lacks : (sep : ℕ) (s : Bytes) → Lacks sep s → split sep s ≡ s ∷ []
unfolding split push
split-Lacks sep [] h = refl
split-Lacks sep (c ∷ s) (h, hs) = rw (h, split-Lacks sep s hs) refl

pub split-Lacks-append :
    (sep : ℕ) (s t : Bytes) → Lacks sep s → split sep (s ++ sep ∷ t) ≡ s ∷ split sep t
unfolding split push
split-Lacks-append sep [] t h = rw ==-self refl
split-Lacks-append sep (c ∷ s) t (h, hs) = rw (h, split-Lacks-append sep s t hs) refl

Plain-Lacks : (s : Bytes) → Plain s → Lacks b' ' s
Plain-Lacks = All-map (λ c. is_plain c ≡ true) (λ c. (c == b' ') ≡ false) (λ c h. ground arith)

split-Plain : (s : Bytes) → Plain s → split b' ' s ≡ s ∷ []
split-Plain s h = split-Lacks b' ' s (Plain-Lacks s h)

split-append : (s t : Bytes) → Plain s → split b' ' (s ++ b' ' ∷ t) ≡ s ∷ split b' ' t
split-append s t h = split-Lacks-append b' ' s t (Plain-Lacks s h)

pub words_of-Plain : (s : Bytes) → Plain s → words_of s ≡ s ∷ []
unfolding words_of
words_of-Plain s h =
    ap (λ u. map c_string (split b' ' u)) (map-newline_nul s h)
    ∙ ap (map c_string) (split-Plain s h)
    ∙ ap (λ u. u ∷ []) (c_string_of_NoNul s (Plain-NoNul s h))

-- A plain word before a space is the first word.
pub words_of-append : (s t : Bytes) → Plain s → words_of (s ++ b' ' ∷ t) ≡ s ∷ words_of t
unfolding words_of
words_of-append s t h =
    let rest = map newline_nul t in
    ap (λ u. map c_string (split b' ' u))
      (map-append newline_nul s (b' ' ∷ t) ∙ ap (λ u. u ++ b' ' ∷ rest) (map-newline_nul s h))
    ∙ ap (map c_string) (split-append s rest h)
    ∙ ap (λ u. u ∷ map c_string (split b' ' rest)) (c_string_of_NoNul s (Plain-NoNul s h))

pub pwd_key-Plain : Plain pwd_key
pwd_key-Plain = (refl, (refl, (refl, (refl, tt))))

pub opt_key-Plain : Plain opt_key
opt_key-Plain = (refl, (refl, (refl, (refl, tt))))
