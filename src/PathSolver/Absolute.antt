-- ===== src/PathSolver/Absolute.antt =====
-- What `fill_absolute_path` leaves in the buffer.
use aos_project.Base.{
  ℕ, zero, suc, ◌+◌, ◌≡◌, refl, sym, ap, ◌∙◌, ◌≢◌, true, some, [], ◌∷◌, ◌++◌, append-nil, arith,
  length, get_or, drop, drop-append, pos,
}
use aos_project.CString.{
  Bytes, c_string, NoNul, zeros, c_string-append, c_string-zero, c_string-drop-zeros, zeros-append,
}
use mathlib.Core.List.{append_cancel_left}
use aos_project.Kernel.{found, Kernel, absolute_path, ran}
use aos_project.PathSolver.{replace_string, fill_absolute_path}

-- The lookup of `p` gives the path `full`, and there is memory for it.
pub record Resolves (k : Kernel) (p full : Bytes) : Type 0 where
  pub dentry : ℕ
  pub lookup : k.kern_path p ≡ found dentry
  pub memory : k.allocates absolute_path ≡ true
  pub raw : k.dentry_path_raw dentry ≡ some full

-- Behind a longer path stands what stood that far behind the end of the old string.
replace_string_lem :
    (full p rest : Bytes)
    → NoNul p
    → NoNul full
    → c_string (replace_string full (p ++ 0 ∷ rest))
      ≡ full ++ c_string (drop (length full) (zeros (length p) ++ 0 ∷ rest))
replace_string_lem full p rest h k =
    rw (c_string-zero p rest h, drop-append p (0 ∷ rest)) (c_string-append full _ k)

-- An absolute path in a buffer that is zero behind it becomes the path that the lookup gives.
pub fill_absolute_path_zeroed :
    (k : Kernel) (p full : Bytes) (n : ℕ)
    → NoNul (b'/' ∷ p)
    → NoNul full
    → Resolves k (b'/' ∷ p) full
    → (b : Bytes) × (fill_absolute_path k ((b'/' ∷ p) ++ zeros (suc n)) ≡ ran (b, pos 0))
      × (c_string b ≡ full)
unfolding fill_absolute_path
fill_absolute_path_zeroed k p full n h hf r = (
  replace_string full ((b'/' ∷ p) ++ zeros (suc n)),
  ground (arith, c_string-zero (b'/' ∷ p) (zeros n) h),
  replace_string_lem full (b'/' ∷ p) (zeros n) h hf
      ∙ rw (
        zeros-append (length (b'/' ∷ p)) (suc n),
        c_string-drop-zeros (length full) (length (b'/' ∷ p) + suc n),
        append-nil full,
      ),
)

pred_of : {i n : ℕ} → suc i ≡ suc 0 + n → i ≡ n
pred_of h = omega arith

drop_past : (m n i : ℕ) (rest : Bytes) → i ≡ suc m + n → drop i (zeros m ++ 0 ∷ rest) ≡ drop n rest
drop_past m n zero rest h = absurd (omega arith)
drop_past zero n (suc i) rest h = ap (λ j. drop j rest) (pred_of h)
drop_past (suc m) n (suc i) rest h = drop_past m n i rest (omega arith)

tail_kept : (rest : Bytes) (n : ℕ) → get_or rest n 0 ≢ 0 → c_string (drop n rest) ≢ []
unfolding c_string
tail_kept [] n g e = g refl
tail_kept (c ∷ rest) zero g e = ground arith
tail_kept (c ∷ rest) (suc n) g e = tail_kept rest n g e

-- Where the new path is longer than the old one, and the byte that far behind the old string is no
-- NUL, the string in the buffer is not the path that the lookup gave.
pub fill_absolute_path_stale :
    (k : Kernel) (p full rest : Bytes) (n : ℕ)
    → NoNul (b'/' ∷ p)
    → NoNul full
    → Resolves k (b'/' ∷ p) full
    → length full ≡ suc (length (b'/' ∷ p)) + n
    → get_or rest n 0 ≢ 0
    → (b : Bytes) × (fill_absolute_path k ((b'/' ∷ p) ++ 0 ∷ rest) ≡ ran (b, pos 0))
      × (c_string b ≢ full)
unfolding fill_absolute_path
fill_absolute_path_stale k p full rest n h hf r l g = (
  replace_string full ((b'/' ∷ p) ++ 0 ∷ rest),
  ground (arith, c_string-zero (b'/' ∷ p) rest h),
  λ e. tail_kept rest n g (emptied e),
)
  where
    emptied :
        c_string (replace_string full ((b'/' ∷ p) ++ 0 ∷ rest)) ≡ full → c_string (drop n rest) ≡ []
    emptied e =
        ap c_string (sym (drop_past (length (b'/' ∷ p)) n (length full) rest l))
        ∙ append_cancel_left full _ []
            (sym (replace_string_lem full (b'/' ∷ p) rest h hf) ∙ e ∙ sym (append-nil full))
