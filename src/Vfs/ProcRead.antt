-- ===== src/Vfs/ProcRead.antt =====
-- reference-monitor/lib/reference_path_based_syscall.c: the list of restricted paths as text read
-- from /proc/ref_syscall/access_point.
use aos_project.Base.{
  ℕ, zero, suc, ◌+◌, ◌-◌, ◌≤◌, ◌<◌, min, ◌≡◌, refl, sym, ap, ◌∙◌, true, false, not, List, [], ◌∷◌,
  ◌++◌, append-nil, append_assoc, arith, ltb, leb, if◌then◌else◌, if-cases, length, take, drop,
  length-append, length-take, take_of_length-le, drop_of_length-le, ℤ, pos, neg, enomem,
}
use aos_project.CString.{Bytes, overwrite}
use aos_project.Decimal.{decimal}
use aos_project.Kernel.{Kernel, proc_page}
use aos_project.PathSolver.{path_max}
use aos_project.RestrictList.{RcuRestrict, Table}

-- `"(i=%d, path=%s)\n"`
unfoldable pub entry_text : ℕ → Bytes → Bytes
entry_text i path =
    b'('
    ∷ b'i'
    ∷ b'='
    ∷ (decimal (pos i)
        ++ b',' ∷ b' ' ∷ b'p' ∷ b'a' ∷ b't' ∷ b'h' ∷ b'=' ∷ (path ++ b')' ∷ b'\n' ∷ []))

-- What `scnprintf` writes into this many bytes: it keeps one for the NUL.
abbrev pub scnprintf : ℕ → Bytes → Bytes
scnprintf size s = take (size - 1) s

-- The loop: what has been written so far, `written` bytes of it.
unfoldable pub write_entries : ℕ → List RcuRestrict → Bytes → Bytes
unfolding entry_text
write_entries i [] text = text
write_entries i (entry ∷ entries) text =
    if ltb (length text) path_max
    then write_entries (i + 1) entries
        (text ++ scnprintf (path_max - length text) (entry_text i entry.path))
    else write_entries i entries text

-- The memory from `temp_buffer` on. With no entry nothing is written to it.
unfoldable pub page_of : Bytes → List RcuRestrict → Bytes
unfolding write_entries
page_of stale [] = stale
page_of stale (entry ∷ entries) = overwrite (write_entries 0 (entry ∷ entries) [] ++ 0 ∷ []) stale

-- `min(len, (size_t)(written - *off))`; the kernel cuts `len` below 2 ^ 31, so that it is an int.
abbrev pub to_copy_of : ℕ → ℕ → ℕ → ℕ
to_copy_of len written off =
    min len (if leb off written then written - off else 18446744073709551616 - (off - written))

-- What reaches the user's buffer, `*off` and the result. The second argument tells how many bytes of a
-- count `copy_to_user` does not copy.
unfoldable pub syscall_proc_read : Kernel → (ℕ → ℕ) → Table → ℕ → ℕ → Bytes × (ℕ × ℤ)
unfolding write_entries page_of
syscall_proc_read k copy_to_user t len off =
    let written = length (write_entries 0 t.restrict_path_list []) in
    let to_copy = to_copy_of len written off in
    let copied = to_copy - copy_to_user to_copy in
    if not (k.allocates proc_page)
    then ([], (off, neg enomem))
    else if leb path_max off
    then ([], (off, pos 0))
    else (
      take copied (drop off (page_of (k.stale proc_page) t.restrict_path_list)),
      (off + copied, pos copied),
    )

-- The text of all entries, from a number on.
unfoldable pub listing : ℕ → List RcuRestrict → Bytes
unfolding entry_text
listing i [] = []
listing i (entry ∷ entries) = entry_text i entry.path ++ listing (i + 1) entries

write_entries-fits :
    (i : ℕ) (entries : List RcuRestrict) (text : Bytes)
    → length text + length (listing i entries) < 4096
    → write_entries i entries text ≡ text ++ listing i entries
unfolding write_entries listing
write_entries-fits i [] text h = sym (append-nil text)
write_entries-fits i (entry ∷ entries) text h =
    let line = entry_text i entry.path in
    let l = length-append line (listing (i + 1) entries) in
    let l' = length-append text line in
    let b : ltb (length text) 4096 ≡ true = ground (arith, h, l) in
    let e : take (4096 - length text - 1) line ≡ line =
      take_of_length-le _ line (omega (arith, l)) in
    rw (b, e)
      (write_entries-fits (i + 1) entries (text ++ line) (omega (arith, l, l'))
        ∙ append_assoc text line (listing (i + 1) entries))

-- However long the list is, the text and its NUL stay within the page.
pub length-write_entries :
    (i : ℕ) (entries : List RcuRestrict) (text : Bytes)
    → length text < 4096
    → length (write_entries i entries text) < 4096
unfolding write_entries
length-write_entries i [] text h = h
length-write_entries i (entry ∷ entries) text h =
    let line = entry_text i entry.path in
    let size = 4096 - length text in
    let l = length-append text (take (size - 1) line) in
    let l' = length-take (size - 1) line in
    if-cases (λ (s : Bytes). length s < 4096) (ltb (length text) 4096)
      (write_entries (i + 1) entries (text ++ take (size - 1) line)) (write_entries i entries text)
      (λ e.
        length-write_entries (i + 1) entries (text ++ take (size - 1) line) (omega (arith, l, l')))
      (λ e. length-write_entries i entries text h)

take-drop-append :
    (n off : ℕ) (s r : Bytes)
    → off + n ≤ length s
    → take n (drop off (s ++ r)) ≡ take n (drop off s)
take-drop-append zero off s r h = refl
take-drop-append (suc n) (suc off) [] r h = absurd (omega arith)
take-drop-append (suc n) zero [] r h = absurd (omega arith)
take-drop-append (suc n) (suc off) (x ∷ s) r h = take-drop-append (suc n) off s r (omega arith)
take-drop-append (suc n) zero (x ∷ s) r h = ap (◌∷◌ x) (take-drop-append n zero s r (omega arith))

drop-behind :
    (off : ℕ) (s b : Bytes) → length s ≤ off → drop off (s ++ drop (length s) b) ≡ drop off b
drop-behind off [] b h = refl
drop-behind zero (x ∷ s) b h = absurd (omega arith)
drop-behind (suc off) (x ∷ s) [] h = behind off s (omega arith)
  where
    behind : (off : ℕ) (s : Bytes) → length s ≤ off → drop off (s ++ []) ≡ []
    behind off s h = drop_of_length-le off (s ++ []) (omega (arith, length-append s []))
drop-behind (suc off) (x ∷ s) (y ∷ b) h = drop-behind off s b (omega arith)

page_of-text :
    (stale : Bytes) (entries : List RcuRestrict) (n off : ℕ)
    → off + n ≤ length (write_entries 0 entries [])
    → take n (drop off (page_of stale entries)) ≡ take n (drop off (write_entries 0 entries []))
unfolding page_of write_entries
page_of-text stale [] zero off h = refl
page_of-text stale [] (suc n) off h = absurd (omega arith)
page_of-text stale (entry ∷ entries) n off h =
    let text = write_entries 0 (entry ∷ entries) [] in
    ap (λ l. take n (drop off l)) (append_assoc text (0 ∷ []) _) ∙ take-drop-append n off text _ h

page_of-behind :
    (stale : Bytes) (entries : List RcuRestrict) (off : ℕ)
    → length (write_entries 0 entries []) < off
    → drop off (page_of stale entries) ≡ drop off stale
unfolding page_of
page_of-behind stale [] off h = refl
page_of-behind stale (entry ∷ entries) off h =
    let text = write_entries 0 (entry ∷ entries) [] in
    drop-behind off (text ++ 0 ∷ []) stale (omega (arith, h, length-append text (0 ∷ [])))

-- A read that is not past the page, with everything copied.
proc_read-copied :
    (k : Kernel) (copy_to_user : ℕ → ℕ) (t : Table) (len off n : ℕ)
    → k.allocates proc_page ≡ true
    → ((n : ℕ) → copy_to_user n ≡ 0)
    → off < 4096
    → to_copy_of len (length (write_entries 0 t.restrict_path_list [])) off ≡ n
    → syscall_proc_read k copy_to_user t len off
      ≡ (take n (drop off (page_of (k.stale proc_page) t.restrict_path_list)), (off + n, pos n))
unfolding syscall_proc_read
proc_read-copied k copy_to_user t len off n a c l e =
    let z : leb 4096 off ≡ false = ground arith in
    let m = to_copy_of len (length (write_entries 0 t.restrict_path_list [])) off in
    let page = page_of (k.stale proc_page) t.restrict_path_list in
    let e' : m - copy_to_user m ≡ n = omega (arith, c m, e) in
    rw (a, z) (λ i. (take (e' i) (drop off page), (off + e' i, pos (e' i))))

-- A read inside the text of the list, of which everything is copied, gives its bytes from `*off` on, as
-- many as asked for, up to its end; `*off` and the result say how many. The text is that of all
-- entries where that has less than 4096 bytes.
pub syscall_proc_read_lem :
    (k : Kernel) (copy_to_user : ℕ → ℕ) (t : Table) (len off : ℕ)
    → k.allocates proc_page ≡ true
    → ((n : ℕ) → copy_to_user n ≡ 0)
    → length (listing 0 t.restrict_path_list) < 4096
    → off ≤ length (listing 0 t.restrict_path_list)
    → let text = listing 0 t.restrict_path_list in
      let n = min len (length text - off) in
      syscall_proc_read k copy_to_user t len off ≡ (take n (drop off text), (off + n, pos n))
syscall_proc_read_lem k copy_to_user t len off a c h l =
    let text = listing 0 t.restrict_path_list in
    let n = min len (length text - off) in
    let written = write_entries 0 t.restrict_path_list [] in
    let e : written ≡ text = write_entries-fits 0 t.restrict_path_list [] (omega arith) in
    let e' : length written ≡ length text = ap length e in
    let m : to_copy_of len (length written) off ≡ n = ground arith in
    proc_read-copied k copy_to_user t len off n a c (omega arith) m
    ∙ ap (λ b. (b, (off + n, pos n)))
        (page_of-text (k.stale proc_page) t.restrict_path_list n off (omega arith)
          ∙ ap (λ l. take n (drop off l)) e)

-- A read behind the text, below 4096, gives the user as many bytes as asked for of what the kernel's
-- memory held before, although the text has no byte there: the difference of `written` and `*off` is
-- negative, and as a size it is huge.
pub syscall_proc_read_stale :
    (k : Kernel) (copy_to_user : ℕ → ℕ) (t : Table) (len off : ℕ)
    → k.allocates proc_page ≡ true
    → ((n : ℕ) → copy_to_user n ≡ 0)
    → length (write_entries 0 t.restrict_path_list []) < off
    → off < 4096
    → len < 2147483648
    → syscall_proc_read k copy_to_user t len off
      ≡ (take len (drop off (k.stale proc_page)), (off + len, pos len))
syscall_proc_read_stale k copy_to_user t len off a c h l b =
    let w = length-write_entries 0 t.restrict_path_list [] (omega arith) in
    let m : to_copy_of len (length (write_entries 0 t.restrict_path_list [])) off ≡ len =
      ground arith in
    proc_read-copied k copy_to_user t len off len a c l m
    ∙ ap (λ b. (take len b, (off + len, pos len)))
        (page_of-behind (k.stale proc_page) t.restrict_path_list off h)
