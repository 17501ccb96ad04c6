-- ===== src/Defer/Attempt.antt =====
-- reference-monitor/lib/reference_hooks.c and reference_defer.c together: an open, what its hook queues
-- and what this adds to the log.
use aos_project.Base.{
  ℕ, ◌+◌, ◌≤◌, ◌<◌, ◌≡◌, refl, sym, ap, ◌∙◌, ◌≢◌, inl, inr, true, Option, none, some, length, neg,
  eacces,
}
use aos_project.CString.{Bytes}
use mathlib.Core.Path.{subst}
use aos_project.Kernel.{Kernel, Task, Run, ran, oops, work_block, work_path}
use aos_project.RestrictList.{Table}
use aos_project.Hooks.{Hook, OpenCall, pre_do_filp_open_handler}
use aos_project.Hooks.Audit.{IsAudited, Holds, open-IsAudited}
use aos_project.SingleFile.{FileState}
use aos_project.SingleFile.Positions.{Copies, Readable, IsWritten, size_bound}
use aos_project.Defer.{WorkData, Opened, Files, max_file_name, defer_bottom_half}
use aos_project.Defer.Log.{CanRecord, line_of, defer_bottom_half_lem, defer_top_half_lem}

-- The worker, on what has been queued, if anything.
unfoldable pub run_queue : Kernel → Files → Bytes → FileState → Option WorkData → FileState
run_queue k files salt log none = log
run_queue k files salt log (some work) = defer_bottom_half k files work salt log

-- The log after a hook and the work that it has queued.
unfoldable pub after_hook : Kernel → Files → Bytes → FileState → Hook → FileState
unfolding run_queue
after_hook k files salt log h = run_queue k files salt log h.deferred

-- The task has a program with a path of less than 256 bytes, and the hook has memory for the work.
pub record HasProgram (k : Kernel) (t : Task) (path : Bytes) : Type 0 where
  pub dentry : ℕ
  pub block : k.allocates work_block ≡ true
  pub name : k.allocates work_path ≡ true
  pub mm : t.mm ≡ true
  pub exe_file : t.exe_file ≡ some dentry
  pub path_name : k.dentry_path_raw dentry ≡ some path
  pub short : length path < max_file_name

abbrev pub work_of : Kernel → Task → Bytes → WorkData
work_of k t path = record {
  tgid = t.tgid;
  tid = t.pid;
  uid = t.uid;
  euid = k.euid;
  path_name = path;
}

module _ (k k' : Kernel) (files : Files) (salt : Bytes) (log : FileState) where
  audited :
      (name : Bytes) (table : Table) (c : OpenCall) (h : Hook)
      → pre_do_filp_open_handler k name table c ≡ ran h
      → IsAudited k h
  audited name table c h e = subst (Holds (IsAudited k)) e (open-IsAudited k name table c)

  -- A denial by a task with a program leaves its work queued.
  denied-queued :
      (h : Hook) (path : Bytes)
      → IsAudited k h
      → h.hook_error ≡ neg eacces
      → HasProgram k k.current path
      → h.deferred ≡ some (work_of k k.current path)
  denied-queued h path (inr (n, e)) err p = absurd (n err)
  denied-queued h path (inl (err', e)) err p =
      let q =
        defer_top_half_lem k k.current p.dentry path p.block p.name p.mm p.exe_file p.path_name
          p.short in
      ap (λ r. or_none r) (sym e ∙ q)
    where
      or_none : Run (Option WorkData) → Option WorkData
      or_none (ran w) = w
      or_none oops = none

  -- An open that the hook denies, by a task with a program whose path has less than 256 bytes and
  -- with memory for the work, adds one line to the log, with the ids of the task, the path of the
  -- program and the digest of its contents up to the first NUL, and keeps what the log has held. The
  -- worker has its memory, with a NUL in it behind the contents, the crypto services succeed, the
  -- program and the log can be opened and read, the device stores what is written, and the log has
  -- room below a limit of at most 2 ^ 42 bytes.
  pub denied_open-recorded :
      (name : Bytes) (table : Table) (c : OpenCall) (h : Hook) (path : Bytes) (file : Opened)
      (n : ℕ)
      → pre_do_filp_open_handler k name table c ≡ ran h
      → h.hook_error ≡ neg eacces
      → HasProgram k k.current path
      → CanRecord k' files (work_of k k.current path) file n
      → let line = line_of k' salt (work_of k k.current path) file in
        let d = files.device line in
        Copies d line
        → Readable d
        → log.i_size + length line < d.max_file_size
        → d.max_file_size ≤ size_bound
        → let log' = after_hook k' files salt log h in
          (log'.i_size ≡ log.i_size + length line)
          × IsWritten line 0 log.i_size (length line) log.disk log'.disk
  unfolding after_hook
  denied_open-recorded name table c h path file n e err p can cp rd room bound =
      rw (denied-queued h path (audited name table c h e) err p) (
        defer_bottom_half_lem k' files (work_of k k.current path) salt log file n can cp rd room
          bound)

  -- An open that the hook does not deny leaves the log as it is.
  pub other_open-unrecorded :
      (name : Bytes) (table : Table) (c : OpenCall) (h : Hook)
      → pre_do_filp_open_handler k name table c ≡ ran h
      → h.hook_error ≢ neg eacces
      → after_hook k' files salt log h ≡ log
  unfolding after_hook
  other_open-unrecorded name table c h e n = elim (audited name table c h e) [
    | inl (err, q) ↦ absurd (n err)
    | inr (m, q) ↦ rw (q) refl
  ]
