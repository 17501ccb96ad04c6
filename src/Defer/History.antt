-- ===== src/Defer/History.antt =====
-- singlefile-FS and reference-monitor/lib/reference_defer.c together: the log after a number of denials.
use aos_project.Base.{
  ℕ, ◌+◌, ◌≤◌, ◌<◌, max, ◌≡◌, sym, ap, ◌∙◌, ◌≢◌, List, [], ◌∷◌, ◌++◌, append-nil, append_assoc,
  arith, length, length-append, pos,
}
use aos_project.CString.{Bytes}
use aos_project.Kernel.{Kernel}
use aos_project.SingleFile.{FileState}
use aos_project.SingleFile.Positions.{Copies, Readable, size_bound}
use aos_project.SingleFile.Contents.{contents, contents-onefilefs_write}
use aos_project.SingleFile.Append.{onefilefs_write_lem}
use aos_project.Volume.{Tool, Image, makefs, disk_of, Mounter, file_body}
use aos_project.Volume.Mount.{CanMount, makefs-IsVolume}
use aos_project.Defer.{WorkData, Opened, Files, defer_bottom_half}
use aos_project.Defer.Log.{CanRecord, line_of, bottom_half-write}

-- One work, with the program that it opens.
pub record Recorded (k : Kernel) (files : Files) : Type 0 where
  pub work : WorkData
  pub file : Opened
  pub count : ℕ
  pub can : CanRecord k files work file count

module _ (k : Kernel) (files : Files) (salt : Bytes) where
  abbrev pub line : Recorded k files → Bytes
  line r = line_of k salt r.work r.file

  -- The lines of the works, one behind the other.
  abbrev pub lines : List (Recorded k files) → Bytes
  lines [] = []
  lines (r ∷ rs) = line r ++ lines rs

  -- The worker, which takes the works one by one.
  abbrev pub run_works : List (Recorded k files) → FileState → FileState
  run_works [] log = log
  run_works (r ∷ rs) log = run_works rs (defer_bottom_half k files r.work salt log)

  -- The log's file system takes any buffer, up to the limit.
  pub record IsLog (max_file_size : ℕ) : Type 0 where
    pub copies : (buf : Bytes) → Copies (files.device buf) buf
    pub reads : (buf : Bytes) → Readable (files.device buf)
    pub limit : (buf : Bytes) → (files.device buf).max_file_size ≡ max_file_size
    pub small : max_file_size ≤ size_bound

  run-step :
      (max_file_size : ℕ) (r : Recorded k files) (log : FileState)
      → IsLog max_file_size
      → log.i_size + length (line r) < max_file_size
      → let log' = defer_bottom_half k files r.work salt log in
        (log'.i_size ≡ log.i_size + length (line r)) × (contents log' ≡ contents log ++ line r)
  run-step max r log i h =
      let buf = line r in
      let d = files.device buf in
      let e = bottom_half-write k files r.work salt log r.file r.count r.can in
      let b : log.i_size + length buf < d.max_file_size = omega (arith, i.limit buf) in
      let s : d.max_file_size ≤ size_bound = omega (arith, i.limit buf, i.small) in
      let (x, size, y, w) =
        onefilefs_write_lem d buf (i.copies buf) (i.reads buf) log r.count b s in
      (
        ap (λ f. f.i_size) e ∙ size,
        ap contents e ∙ contents-onefilefs_write d buf log r.count (i.copies buf) (i.reads buf) b s,
      )

  run_works_lem :
      (max_file_size : ℕ) (rs : List (Recorded k files)) (log : FileState)
      → IsLog max_file_size
      → log.i_size + length (lines rs) < max_file_size
      → contents (run_works rs log) ≡ contents log ++ lines rs
  run_works_lem max [] log i h = sym (append-nil (contents log))
  run_works_lem max (r ∷ rs) log i h =
      let n = length-append (line r) (lines rs) in
      let log' = defer_bottom_half k files r.work salt log in
      let (size, e) = run-step max r log i (omega (arith, n, h)) in
      run_works_lem max rs log' i (omega (arith, n, h, size))
      ∙ ap (λ c. c ++ lines rs) e
      ∙ append_assoc (contents log) (line r) (lines rs)

  -- From the formatter to the log: on a device that a successful run of the formatter has left, which
  -- is mounted, any number of works that can be recorded leave a log that holds the header line and
  -- then one line for each of them, in order, as long as this stays below the limit.
  pub formatted_log-run_works :
      (t : Tool) (image : Image) (m : Mounter) (max_file_size : ℕ) (rs : List (Recorded k files))
      → t.write 0 ≢ pos 0
      → (makefs t image).1 ≡ pos 0
      → CanMount m
      → IsLog max_file_size
      → 28 + length (lines rs) < max_file_size
      → contents (run_works rs (record { disk = disk_of (makefs t image).0; i_size = 28 }))
        ≡ file_body ++ lines rs
  formatted_log-run_works t image m max rs w e c i h =
      let log : FileState = record { disk = disk_of (makefs t image).0; i_size = 28 } in
      run_works_lem max rs log i h ∙ ap (λ b. b ++ lines rs) (makefs-IsVolume t image m w e c).text
