-- ===== src/Defer.antt =====
-- reference-monitor/lib/reference_defer.c: the record of an access that was denied, from the task that
-- made it to the line in the log.
use aos_project.Base.{
  ℕ, zero, suc, ◌+◌, ◌-◌, ◌*◌, ◌/◌, ◌%◌, ◌^◌, ◌≤◌, ◌<◌, min, max, bit_and, bit_or, ◌≡◌, refl, sym,
  ap, ◌∙◌, fun_ext, ◌≢◌, ◌↔◌, ◌⊎◌, inl, inr, Bool, true, false, not, ◌&&◌, ◌||◌, Option, none, some,
  List, [], ◌∷◌, ◌++◌, map, append-nil, append_assoc, arith, ltb, leb, ◌==◌, if◌then◌else◌, ltb→lt,
  ltb→le, ==→eq, ==_iff, ==-self, Bool-cases, if-cases, Option-cases, length, get_elem?, get_or,
  set, take, drop, replicate, All, AnyOf, length-append, length-take, length-drop, length-replicate,
  take-append, drop-append, take_at, drop_at, take_split, drop_split, set_at, get_or_at,
  take_of_length-le, drop_of_length-le, take-append-drop, drop-nil, drop-replicate, ℤ, pos, negsuc,
  neg, is_nonzero, is_negative, eperm, enoent, eio, ebadf, enomem, eacces, efault, eexist, einval,
  efbig, ebadmsg, ecanceled,
}
use aos_project.Base.Bits.{has, and_zero, and_assoc, and_self, or-and}
use aos_project.CString.{
  Bytes, strncmp, strcmp, is_zero, same, same_n, same_iff, same_n_iff, same_self, same_n_self,
  same_n-length-append, same_n-length-prefix, c_string, NoNul, zeros, overwrite, c_string-append,
  c_string-zeros, c_string-NoNul, c_string_of_NoNul, strncmp_iff, c_string-zero,
  c_string-drop-zeros, drop-zeros-append, zeros-append, NoNul-append,
}
pub mod Line
pub mod Log
pub mod Digest
pub mod Attempt
pub mod History
use aos_project.Decimal.{decimal}
use aos_project.Kernel.{
  Kernel, Task, Run, ran, oops, work_block, work_path, work_ciphertext, work_contents, work_buffer,
}
use aos_project.Hash.{hash_plaintext}
use aos_project.SingleFile.{Device, FileState, onefilefs_write}

pub record WorkData : Type 0 where
  pub tgid : ℤ
  pub tid : ℤ
  pub uid : ℕ
  pub euid : ℕ
  pub path_name : Bytes

abbrev pub max_file_name : ℕ
max_file_name = 256

-- The end of `defer_top_half`, from the path on: what is queued. An ERR_PTR is not NULL, so that
-- `strnlen` reads it.
unfoldable pub queue_path : Kernel → Task → Option Bytes → Run (Option WorkData)
queue_path k t none = oops
queue_path k t (some path_name) =
    if not (k.allocates work_path)
    then ran none
    else ran (
        some (record {
          tgid = t.tgid;
          tid = t.pid;
          uid = t.uid;
          euid = k.euid;
          path_name = take (min (length path_name) max_file_name) path_name;
        }))

unfoldable pub defer_top_half : Kernel → Task → Run (Option WorkData)
unfolding queue_path
defer_top_half k t =
    if not (k.allocates work_block)
    then ran none
    else if not t.mm
    then ran none
    else elim t.exe_file [
      | none ↦ ran none
      | some dentry ↦ queue_path k t (k.dentry_path_raw dentry)
    ]

-- A file that has been opened for reading: its size, the result of reading all of it, and the bytes
-- that this stores.
pub record Opened : Type 0 where
  pub i_size : ℕ
  pub ret : ℤ
  pub bytes : Bytes

-- The files as the worker finds them: `filp_open` for reading, where `none` is an ERR_PTR, whether the
-- log can be opened, and the device of the log, with the buffer that is written to it.
pub record Files : Type 0 where
  pub filp_open : Bytes → Option Opened
  pub opens_log : Bool
  pub device : Bytes → Device

-- `%d` of an uid_t, which is unsigned.
abbrev pub int_of : ℕ → ℤ
int_of n = if ltb n 2147483648 then pos n else neg (4294967296 - n)

-- The first four fields of a record.
unfoldable pub ids_text : WorkData → Bytes
ids_text w =
    decimal w.tgid
    ++ b','
      ∷ (decimal w.tid
          ++ b',' ∷ (decimal (int_of w.uid) ++ b',' ∷ (decimal (int_of w.euid) ++ b',' ∷ [])))

-- `"%d,%d,%d,%d,%s,%s\n"`
unfoldable pub record_line : WorkData → Bytes → Bytes
unfolding ids_text
record_line w ciphertext = ids_text w ++ (w.path_name ++ b',' ∷ (ciphertext ++ b'\n' ∷ []))

-- `file_contents` as a string: `kmalloc` does not clear it, and a NUL stands behind the size.
abbrev pub contents_of : Kernel → Opened → Bytes
contents_of k file = c_string (take file.i_size (overwrite file.bytes (k.stale work_contents)))

module _ (k : Kernel) (files : Files) (w : WorkData) where
  -- From the digest on: the log behind it. `pos` is where the reading of the program ended.
  unfoldable pub append_record : FileState → ℕ → ℤ × Option Bytes → FileState
  unfolding record_line
  append_record log position (ret, none) = log
  append_record log position (ret, some ciphertext) =
      let buffer = record_line w ciphertext in
      if is_negative ret
      then log
      else if not (k.allocates work_buffer)
      then log
      else if not files.opens_log
      then log
      else (onefilefs_write (files.device buffer) log (length buffer) position).0

  unfoldable pub read_contents : Bytes → FileState → Opened → FileState
  unfolding append_record
  read_contents salt log file = elim file.ret [
    | negsuc n ↦ log
    | pos n ↦
        append_record log n
          (hash_plaintext k salt (some (k.stale work_ciphertext)) (some (contents_of k file)))
  ]

  -- The log after a run of the work.
  unfoldable pub defer_bottom_half : Bytes → FileState → FileState
  unfolding read_contents
  defer_bottom_half salt log =
      if not (k.allocates work_ciphertext) then log else elim (files.filp_open w.path_name) [
        | none ↦ log
        | some file ↦ if not (k.allocates work_contents) then log else read_contents salt log file
      ]

-- The operations of the device `append_fops`: all four do nothing.
abbrev pub append_defer : ℤ
append_defer = pos 0
