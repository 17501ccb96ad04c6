-- ===== src/Defer/Digest.antt =====
-- reference-monitor/lib/reference_defer.c: what the digest in a record depends on.
use aos_project.Base.{
  ℕ, ◌≡◌, refl, sym, ap, ◌∙◌, not, Option, none, some, ◌∷◌, ◌++◌, if◌then◌else◌, length,
  take-append, ℤ, pos, is_negative,
}
use aos_project.CString.{Bytes, c_string, NoNul, c_string-zero}
use aos_project.Kernel.{Kernel, work_buffer, work_contents, work_ciphertext}
use aos_project.Hash.{hash_plaintext}
use aos_project.SingleFile.Outcome.{onefilefs_write-offset}
use aos_project.SingleFile.{FileState}
use aos_project.Defer.{
  Opened, Files, WorkData, record_line, contents_of, append_record, read_contents,
  defer_bottom_half,
}

-- A program that is read whole.
abbrev pub program : Bytes → Opened
program bytes = record { i_size = length bytes; ret = pos (length bytes); bytes = bytes }

abbrev pub with_program : Files → Bytes → Files
with_program files bytes = record files { filp_open = λ p. some (program bytes) }

contents_of-program :
    (k : Kernel) (head tail : Bytes)
    → NoNul head
    → contents_of k (program (head ++ 0 ∷ tail)) ≡ head
contents_of-program k head tail h =
    let bytes = head ++ 0 ∷ tail in ap c_string (take-append bytes _) ∙ c_string-zero head tail h

module _ (k : Kernel) (files : Files) (work : WorkData) where
  append_record-offset :
      (log : FileState) (n m : ℕ) (r : ℤ × Option Bytes)
      → append_record k files work log n r ≡ append_record k files work log m r
  unfolding append_record
  append_record-offset log n m (ret, none) = refl
  append_record-offset log n m (ret, some ct) =
      let line = record_line work ct in
      ap
        (λ log'.
          if is_negative ret
          then log
          else if not (k.allocates work_buffer)
          then log
          else if not files.opens_log
          then log
          else log')
        (onefilefs_write-offset (files.device line) log (length line) n m)

  append_record-program :
      (bytes : Bytes) (log : FileState) (n : ℕ) (r : ℤ × Option Bytes)
      → append_record k (with_program files bytes) work log n r ≡ append_record k files work log n r
  unfolding append_record
  append_record-program bytes log n (ret, none) = refl
  append_record-program bytes log n (ret, some ct) = refl

  -- The run with a program whose string is known, in terms of the string alone.
  bottom_half-string :
      (salt : Bytes) (log : FileState) (head tail : Bytes)
      → NoNul head
      → defer_bottom_half k (with_program files (head ++ 0 ∷ tail)) work salt log ≡ (
          if not (k.allocates work_ciphertext)
          then log
          else if not (k.allocates work_contents)
          then log
          else append_record k files work log 0
              (hash_plaintext k salt (some (k.stale work_ciphertext)) (some head)))
  unfolding defer_bottom_half read_contents
  bottom_half-string salt log head tail h =
      let bytes = head ++ 0 ∷ tail in
      let hashed : Bytes → ℤ × Option Bytes =
        λ c. hash_plaintext k salt (some (k.stale work_ciphertext)) (some c) in
      ap
        (λ log'.
          if not (k.allocates work_ciphertext)
          then log
          else if not (k.allocates work_contents)
          then log
          else log')
        (append_record-program bytes log (length bytes) (hashed (contents_of k (program bytes)))
          ∙ append_record-offset log (length bytes) 0 (hashed (contents_of k (program bytes)))
          ∙ ap (λ c. append_record k files work log 0 (hashed c))
              (contents_of-program k head tail h))

  -- Two programs with the same bytes before their first NUL have the same record, whatever stands
  -- behind it: the work takes the file for a string.
  pub defer_bottom_half-truncates :
      (salt : Bytes) (log : FileState) (head tail tail' : Bytes)
      → NoNul head
      → defer_bottom_half k (with_program files (head ++ 0 ∷ tail)) work salt log
        ≡ defer_bottom_half k (with_program files (head ++ 0 ∷ tail')) work salt log
  defer_bottom_half-truncates salt log head tail tail' h =
      bottom_half-string salt log head tail h ∙ sym (bottom_half-string salt log head tail' h)
