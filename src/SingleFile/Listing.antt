-- ===== src/SingleFile/Listing.antt =====
-- singlefile-FS/dir.c: what listing the root directory gives.
use aos_project.Base.{
  ℕ, zero, suc, ◌+◌, ◌≤◌, max, ◌≡◌, refl, sym, ap, ◌∙◌, fun_ext, Bool, true, false, List, [], ◌∷◌,
  arith, ltb, leb, if◌then◌else◌, take, drop, drop-nil,
}
use aos_project.SingleFile.{Entry, unique_file_name, onefilefs_iterate, emit_at}

-- ".", ".." and the file.
abbrev pub listing : List Entry
listing =
    record { name = b'.' ∷ []; ino = 10 }
    ∷ record { name = b'.' ∷ b'.' ∷ []; ino = 1 }
    ∷ record { name = unique_file_name; ino = 1 }
    ∷ []

iterate_end :
    (dir_emit : List Entry → Entry → Bool) (n : ℕ) → 3 ≤ n → onefilefs_iterate dir_emit n ≡ ([], n)
unfolding onefilefs_iterate
iterate_end dir_emit n h = let e : leb 3 n ≡ true = ground arith in rw (e) refl

with_room : (n : ℕ) → onefilefs_iterate (λ es e. true) n ≡ (drop n listing, max n 3)
unfolding onefilefs_iterate emit_at
with_room zero = refl
with_room (suc zero) = refl
with_room (suc (suc zero)) = refl
with_room (suc (suc (suc n))) =
    let d = drop-nil {A = Entry} n in
    let m : max (suc (suc (suc n))) 3 ≡ suc (suc (suc n)) = omega arith in
    iterate_end (λ es e. true) (suc (suc (suc n))) (omega arith) ∙ (λ i. (sym d i, sym m i))

-- With room for all entries, a call at any position gives the entries from there on, and leaves the
-- position behind the last one.
pub onefilefs_iterate_lem :
    (dir_emit : List Entry → Entry → Bool)
    → ((es : List Entry) (e : Entry) → dir_emit es e ≡ true)
    → (n : ℕ) → onefilefs_iterate dir_emit n ≡ (drop n listing, max n 3)
onefilefs_iterate_lem dir_emit h n =
    ap (λ emit. onefilefs_iterate emit n) (fun_ext (λ es. fun_ext (h es))) ∙ with_room n

-- A buffer with room for one entry.
abbrev pub one_entry : List Entry → Entry → Bool
one_entry [] e = true
one_entry (x ∷ es) e = false

-- A buffer with room for one entry gives the same entries, one for each call.
pub onefilefs_iterate_resumes :
    (n : ℕ)
    → onefilefs_iterate one_entry n ≡ (take 1 (drop n listing), if ltb n 3 then n + 1 else n)
unfolding onefilefs_iterate emit_at
onefilefs_iterate_resumes zero = refl
onefilefs_iterate_resumes (suc zero) = refl
onefilefs_iterate_resumes (suc (suc zero)) = refl
onefilefs_iterate_resumes (suc (suc (suc n))) =
    let d = ap (take 1) (drop-nil {A = Entry} n) in
    let e : ltb (suc (suc (suc n))) 3 ≡ false = ground arith in
    let m : (if ltb (suc (suc (suc n))) 3 then suc (suc (suc n)) + 1 else suc (suc (suc n)))
        ≡ suc (suc (suc n)) =
      rw (e) refl in
    iterate_end one_entry (suc (suc (suc n))) (omega arith) ∙ (λ i. (sym d i, sym m i))
