-- ===== src/Defer/Log.antt =====
-- reference-monitor/lib/reference_defer.c: what a denied access adds to the log.
use aos_project.Base.{
  ℕ, ◌+◌, ◌≤◌, ◌<◌, min, ◌≡◌, refl, sym, ◌⊎◌, inl, inr, true, some, arith, length, take,
  take_of_length-le, ℤ, pos, negsuc,
}
use aos_project.CString.{Bytes, c_string-NoNul}
use aos_project.Kernel.{
  Task, Kernel, ran, work_block, work_path, work_ciphertext, work_contents, work_buffer,
}
use aos_project.Hash.{HashReady, NulBehind, salted_digest, hash_plaintext_lem}
use aos_project.SingleFile.{FileState, onefilefs_write}
use aos_project.SingleFile.Append.{onefilefs_write_lem}
use aos_project.SingleFile.Positions.{Copies, Readable, IsWritten, size_bound}
use aos_project.Defer.{
  WorkData, Opened, Files, max_file_name, record_line, contents_of, queue_path, defer_top_half,
  append_record, read_contents, defer_bottom_half,
}
use mathlib.Core.Path.{subst}

-- The work has its memory, the program can be opened and read, and the log too.
pub record CanRecord (k : Kernel) (files : Files) (work : WorkData) (file : Opened) (n : ℕ)
    : Type 0 where
  pub ciphertext : k.allocates work_ciphertext ≡ true
  pub contents : k.allocates work_contents ≡ true
  pub buffer : k.allocates work_buffer ≡ true
  pub opens : files.filp_open work.path_name ≡ some file
  pub reads : file.ret ≡ pos n
  pub log : files.opens_log ≡ true
  pub hash : HashReady k
  pub behind : NulBehind k (length (contents_of k file))

Int-cases : (x : ℤ) → ((n : ℕ) × (x ≡ pos n)) ⊎ ((n : ℕ) × (x ≡ negsuc n))
Int-cases (pos n) = inl (n, refl)
Int-cases (negsuc n) = inr (n, refl)

-- The line that the work has to add.
abbrev pub line_of : Kernel → Bytes → WorkData → Opened → Bytes
line_of k salt work file = record_line work (salted_digest k salt (contents_of k file))

pub bottom_half-write :
    (k : Kernel) (files : Files) (work : WorkData) (salt : Bytes) (log : FileState) (file : Opened)
    (n : ℕ)
    → CanRecord k files work file n
    → let line = line_of k salt work file in
      defer_bottom_half k files work salt log
      ≡ (onefilefs_write (files.device line) log (length line) n).0
unfolding defer_bottom_half read_contents append_record
bottom_half-write k files work salt log file n c =
    let h =
      hash_plaintext_lem k salt (k.stale work_ciphertext) (contents_of k file) c.hash
        (c_string-NoNul _) c.behind in
    rw (c.ciphertext, c.opens, c.contents, c.reads, h, c.buffer, c.log) refl

-- A run of the work with its memory, with a program and a log that can be opened and read, and room in
-- the log appends one line: the ids, the path and the digest of the program, and keeps what the
-- log has held.
pub defer_bottom_half_lem :
    (k : Kernel) (files : Files) (work : WorkData) (salt : Bytes) (log : FileState) (file : Opened)
    (n : ℕ)
    → CanRecord k files work file n
    → let line = line_of k salt work file in
      let d = files.device line in
      Copies d line
      → Readable d
      → log.i_size + length line < d.max_file_size
      → d.max_file_size ≤ size_bound
      → let log' = defer_bottom_half k files work salt log in
        (log'.i_size ≡ log.i_size + length line)
        × IsWritten line 0 log.i_size (length line) log.disk log'.disk
defer_bottom_half_lem k files work salt log file n c cp rd h l =
    let line = line_of k salt work file in
    let e = bottom_half-write k files work salt log file n c in
    let (x, y, z, w) = onefilefs_write_lem (files.device line) line cp rd log n h l in
    subst
      (λ log'.
        (log'.i_size ≡ log.i_size + length line)
        × IsWritten line 0 log.i_size (length line) log.disk log'.disk)
      (sym e) (y, w)

-- What is queued for a task: its ids and the path of its program, as long as the path is shorter than
-- 256 bytes.
pub defer_top_half_lem :
    (k : Kernel) (t : Task) (dentry : ℕ) (path : Bytes)
    → k.allocates work_block ≡ true
    → k.allocates work_path ≡ true
    → t.mm ≡ true
    → t.exe_file ≡ some dentry
    → k.dentry_path_raw dentry ≡ some path
    → length path < max_file_name
    → defer_top_half k t
      ≡ ran (
          some
            (record { tgid = t.tgid; tid = t.pid; uid = t.uid; euid = k.euid; path_name = path }))
unfolding defer_top_half queue_path
defer_top_half_lem k t dentry path a b m x p h =
    let e : take (min (length path) 256) path ≡ path = take_of_length-le _ path (omega arith) in
    rw (a, m, x, p, b, e) refl
