-- ===== src/Defer/Line.antt =====
-- reference-monitor/lib/reference_defer.c: the text of a record.
use aos_project.Base.{
  ℕ, ◌+◌, ◌≤◌, ◌<◌, ◌≡◌, refl, sym, ap, ◌∙◌, List, [], ◌∷◌, ◌++◌, append_assoc, arith, length,
  get_or, take, drop, All, length-append, take-append, drop-append, take_at, drop_at, ℤ,
}
use aos_project.CString.{Bytes}
use aos_project.Decimal.{
  decimal, IsDecimal, IsInt, decimal-IsDecimal, length-decimal, decimal-injective,
}
use aos_project.Defer.{WorkData, int_of, ids_text, record_line}

int_of-IsInt : (n : ℕ) → n < 4294967296 → IsInt (int_of n)
int_of-IsInt n h = ground arith

int_of-injective : (n m : ℕ) → n < 4294967296 → m < 4294967296 → int_of n ≡ int_of m → n ≡ m
int_of-injective n m h k e = ground arith

-- The ids have the ranges of their types.
pub record HasIds (w : WorkData) : Type 0 where
  pub tgid : IsInt w.tgid
  pub tid : IsInt w.tid
  pub uid : w.uid < 4294967296
  pub euid : w.euid < 4294967296

-- Texts of numbers end where the comma stands.
split_comma :
    (s s' r r' : Bytes)
    → All IsDecimal s
    → All IsDecimal s'
    → s ++ b',' ∷ r ≡ s' ++ b',' ∷ r'
    → (s ≡ s') × (r ≡ r')
split_comma [] [] r r' h k e = (refl, ap (drop 1) e)
split_comma [] (y ∷ s') r r' h ((a, b), k) e = absurd (ground arith)
split_comma (x ∷ s) [] r r' ((a, b), h) k e = absurd (ground arith)
split_comma (x ∷ s) (y ∷ s') r r' (a, h) (b, k) e =
    let (p, q) = split_comma s s' r r' h k (ap (drop 1) e) in
    let z : x ≡ y = ap (λ l. get_or l 0 0) e in ((λ i. z i ∷ p i), q)

-- Lists with ends of the same length.
split_end :
    {A : Type 0} (a a' b b' : List A)
    → length b ≡ length b'
    → a ++ b ≡ a' ++ b'
    → (a ≡ a') × (b ≡ b')
split_end a a' b b' h e =
    let l : length a + length b ≡ length a' + length b' =
      sym (length-append a b) ∙ ap length e ∙ length-append a' b' in
    let n : length a ≡ length a' = omega arith in
    (
      sym (take-append a b) ∙ ap (take (length a)) e ∙ take_at (length a) a' b' n,
      sym (drop-append a b) ∙ ap (drop (length a)) e ∙ drop_at (length a) a' b' n,
    )

-- The next number of two equal texts.
next_number :
    (x y : ℤ) (r r' : Bytes)
    → IsInt x
    → IsInt y
    → decimal x ++ b',' ∷ r ≡ decimal y ++ b',' ∷ r'
    → (x ≡ y) × (r ≡ r')
next_number x y r r' h k e =
    let (p, q) =
      split_comma (decimal x) (decimal y) r r' (decimal-IsDecimal x) (decimal-IsDecimal y) e in
    (decimal-injective x y h k p, q)

ids_text-append :
    (w : WorkData) (r : Bytes)
    → ids_text w ++ r
      ≡ decimal w.tgid
        ++ b','
          ∷ (decimal w.tid
              ++ b',' ∷ (decimal (int_of w.uid) ++ b',' ∷ (decimal (int_of w.euid) ++ b',' ∷ r)))
unfolding ids_text
ids_text-append w r = simp (append_assoc)

-- One line of the log tells what was recorded: two records with the same line, whose ids have the
-- ranges of their types and whose digests have the same length, have the same ids, path and digest.
pub record_line-injective :
    (w w' : WorkData) (ct ct' : Bytes)
    → HasIds w
    → HasIds w'
    → length ct ≡ length ct'
    → record_line w ct ≡ record_line w' ct'
    → (w ≡ w') × (ct ≡ ct')
unfolding record_line
record_line-injective w w' ct ct' h h' l e =
    let t = sym (ids_text-append w _) ∙ e ∙ ids_text-append w' _ in
    let (e1, t1) = next_number w.tgid w'.tgid _ _ h.tgid h'.tgid t in
    let (e2, t2) = next_number w.tid w'.tid _ _ h.tid h'.tid t1 in
    let (e3, t3) =
      next_number (int_of w.uid) (int_of w'.uid) _ _ (int_of-IsInt w.uid h.uid)
        (int_of-IsInt w'.uid h'.uid) t2 in
    let (e4, t4) =
      next_number (int_of w.euid) (int_of w'.euid) _ _ (int_of-IsInt w.euid h.euid)
        (int_of-IsInt w'.euid h'.euid) t3 in
    let (p, t5) =
      split_end w.path_name w'.path_name (b',' ∷ (ct ++ b'\n' ∷ [])) (b',' ∷ (ct' ++ b'\n' ∷ []))
        (omega (arith, length-append ct (b'\n' ∷ []), length-append ct' (b'\n' ∷ []))) t4 in
    let (c, t6) = split_end ct ct' (b'\n' ∷ []) (b'\n' ∷ []) refl (ap (drop 1) t5) in
    let e3' = int_of-injective w.uid w'.uid h.uid h'.uid e3 in
    let e4' = int_of-injective w.euid w'.euid h.euid h'.euid e4 in
    ((λ i. record { tgid = e1 i; tid = e2 i; uid = e3' i; euid = e4' i; path_name = p i }), c)

-- A path can hold a comma and a newline: the line of a program with a path that is made for it is the
-- same text as two lines, of which the second is whatever its author wants.
pub record_line-forged :
    (w forged : WorkData) (ct ct' : Bytes)
    → record_line
        (record w {
          path_name = w.path_name ++ b',' ∷ (ct ++ b'\n' ∷ (ids_text forged ++ forged.path_name));
        })
        ct'
      ≡ record_line w ct ++ record_line forged ct'
unfolding record_line ids_text
record_line-forged w forged ct ct' = simp (append_assoc)

length-field : (x : ℤ) (r : Bytes) → length (decimal x ++ b',' ∷ r) ≤ 12 + length r
length-field x r = omega (arith, length-append (decimal x) (b',' ∷ r), length-decimal x)

-- The buffer of two pages is large enough for a line.
pub length-record_line :
    (w : WorkData) (ct : Bytes)
    → length w.path_name ≤ 256
    → length ct ≤ 128
    → length (record_line w ct) < 8192
unfolding record_line
length-record_line w ct h l =
    let tail = w.path_name ++ b',' ∷ (ct ++ b'\n' ∷ []) in
    let r4 = length-field (int_of w.euid) tail in
    let r3 = length-field (int_of w.uid) (decimal (int_of w.euid) ++ b',' ∷ tail) in
    let r2 =
      length-field w.tid
        (decimal (int_of w.uid) ++ b',' ∷ (decimal (int_of w.euid) ++ b',' ∷ tail)) in
    let r1 = length-field w.tgid (
      decimal w.tid
      ++ b',' ∷ (decimal (int_of w.uid) ++ b',' ∷ (decimal (int_of w.euid) ++ b',' ∷ tail))) in
    let e = ap length (ids_text-append w tail) in
    let t = length-append w.path_name (b',' ∷ (ct ++ b'\n' ∷ [])) in
    let u = length-append ct (b'\n' ∷ []) in omega (arith, r1, r2, r3, r4, e, t, u)
