-- ===== src/Load/Entries.antt =====
-- reference-monitor/reference_monitor.c: what installing and unloading do to the system call table.
use aos_project.Base.{
  ℕ, ◌≡◌, refl, ◌≢◌, ◌⊎◌, inl, inr, true, Option, none, some, List, [], ◌∷◌, arith, All, AnyOf, ℤ,
  pos, negsuc, is_nonzero, is_negative,
}
use aos_project.CString.{Bytes}
use aos_project.Kernel.{Kernel}
use aos_project.Hash.{hash_plaintext}
use aos_project.Load.{set_entry, install, unload_syscall}

pub negsuc-ne-zero : (n : ℕ) → negsuc n ≢ pos 0
negsuc-ne-zero n e = absurd (ground arith)

pub negative-ne-zero : (v : ℤ) → is_negative v ≡ true → v ≢ pos 0
negative-ne-zero (pos n) h e = absurd (ground arith)
negative-ne-zero (negsuc n) h e = absurd (ground arith)

pub nonzero-ne-zero : (v : ℤ) → is_nonzero v ≡ true → v ≢ pos 0
nonzero-ne-zero (pos n) h e = absurd (ground arith)
nonzero-ne-zero (negsuc n) h e = absurd (ground arith)

pub hash_plaintext-some :
    (k : Kernel) (salt c : Bytes) (p : Option Bytes) → (hash_plaintext k salt (some c) p).1 ≢ none
unfolding hash_plaintext
hash_plaintext-some k salt c none e = absurd (ground arith)
hash_plaintext-some k salt c (some p) e = absurd (ground arith)

pub unload-back :
    (es : List ℕ) (t s : ℕ → ℕ) (ni j : ℕ)
    → All (λ i. t i ≡ ni) es
    → (s j ≡ t j) ⊎ AnyOf (λ i. j ≡ i) es
    → unload_syscall s es ni j ≡ t j
unfolding unload_syscall set_entry
unload-back [] t s ni j h (inl e) = e
unload-back [] t s ni j h (inr x) = absurd x
unload-back (e ∷ es) t s ni j (h, hs) c =
    unload-back es t (set_entry s e ni) ni j hs (ground (arith, h, c))

pub install-elsewhere :
    (es vs : List ℕ) (t : ℕ → ℕ) (j : ℕ) → (install t es vs j ≡ t j) ⊎ AnyOf (λ i. j ≡ i) es
unfolding install set_entry
install-elsewhere [] vs t j = inl refl
install-elsewhere (e ∷ es) [] t j = inl refl
install-elsewhere (e ∷ es) (v ∷ vs) t j =
    ground (arith, install-elsewhere es vs (set_entry t e v) j)
