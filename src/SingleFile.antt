-- ===== src/SingleFile.antt =====
-- singlefile-FS/file.c and singlefile-FS/dir.c: the file system with the one file of the log, as
-- blocks of 4096 bytes behind the superblock and the block of the inode.
use aos_project.Base.{
  ℕ, zero, suc, ◌+◌, ◌-◌, ◌*◌, ◌/◌, ◌%◌, ◌^◌, ◌≤◌, ◌<◌, min, max, bit_and, bit_or, ◌≡◌, refl, sym,
  ap, ◌∙◌, fun_ext, ◌≢◌, ◌↔◌, ◌⊎◌, inl, inr, Bool, true, false, not, ◌&&◌, ◌||◌, Option, none, some,
  List, [], ◌∷◌, ◌++◌, map, append-nil, append_assoc, arith, ltb, leb, ◌==◌, if◌then◌else◌, ltb→lt,
  ltb→le, ==→eq, ==_iff, ==-self, Bool-cases, Option-cases, length, get_elem?, get_or, set, take,
  drop, replicate, All, AnyOf, length-append, length-take, length-drop, length-replicate,
  take-append, drop-append, take_at, drop_at, take_split, drop_split, set_at, get_or_at,
  take_of_length-le, drop_of_length-le, take-append-drop, drop-nil, drop-replicate, ℤ, pos, negsuc,
  neg, is_nonzero, is_negative, eperm, enoent, eio, ebadf, enomem, eacces, efault, eexist, einval,
  efbig, ebadmsg, ecanceled,
}
use aos_project.Base.Bits.{has, and_zero, and_assoc, and_self, or-and}
use aos_project.CString.{
  Bytes, strncmp, strcmp, is_zero, same, same_n, same_iff, same_n_iff, same_self, same_n_self,
  same_n-length-append, same_n-length-prefix, c_string, NoNul, zeros, overwrite, c_string-append,
  c_string-zeros, c_string-NoNul, c_string_of_NoNul, strncmp_iff, c_string-zero,
  c_string-drop-zeros, drop-zeros-append, zeros-append, NoNul-append,
}
pub mod Positions
pub mod Append
pub mod Read
pub mod Listing
pub mod Outcome
pub mod Head
pub mod ReadAll
pub mod Contents

abbrev pub default_block_size : ℕ
default_block_size = 4096

abbrev pub unique_file_name : Bytes
unique_file_name = b't' ∷ b'h' ∷ b'e' ∷ b'-' ∷ b'f' ∷ b'i' ∷ b'l' ∷ b'e' ∷ []

-- O_TRUNC
abbrev pub o_trunc : ℕ
o_trunc = 512

-- The bytes of a block by their offset, and the blocks by their number.
abbrev pub Block : Type 0
Block = ℕ → ℕ

abbrev pub Disk : Type 0
Disk = ℕ → Block

-- What the kernel and the parameter of the module answer: whether `sb_bread` of a block succeeds,
-- what `copy_from_user` stores from an offset of the user's buffer on and how many bytes it does not
-- copy, how many bytes of a count `copy_to_user` does not copy.
pub record Device : Type 0 where
  pub sb_bread : ℕ → Bool
  pub copy_from_user : ℕ → ℕ → Bytes × ℕ
  pub copy_to_user : ℕ → ℕ
  pub max_file_size : ℕ

pub record FileState : Type 0 where
  pub disk : Disk
  pub i_size : ℕ

unfoldable pub onefilefs_open : ℕ → ℤ
onefilefs_open f_flags = if has o_trunc f_flags then neg einval else pos 0

-- `block_number = pos / DEFAULT_BLOCK_SIZE + 2` is an int, and the argument of `sb_bread` unsigned.
abbrev pub block_of : ℕ → ℕ
block_of position =
    let b = (position / default_block_size + 2) % 4294967296 in
    if ltb b 2147483648 then b else b + (18446744073709551616 - 4294967296)

-- Unsigned addition of 64 bits.
abbrev pub add_u64 : ℕ → ℕ → ℕ
add_u64 a b = (a + b) % 18446744073709551616

-- The 64 bits as a signed number: the conversion of a size_t to a loff_t or an ssize_t.
abbrev pub signed_of : ℕ → ℤ
signed_of n = if ltb n 9223372036854775808 then pos n else neg (18446744073709551616 - n)

-- `max` of two positions, by their 64 bits; one with the highest bit set is negative.
abbrev pub max_position : ℕ → ℕ → ℕ
max_position a b = if ltb a 9223372036854775808 then max a b else b

-- `copy_from_user(bh->b_data + offset, ...)`
unfoldable pub store : ℕ → Bytes → Block → Block
store offset bytes block i =
    if leb offset i && ltb i (offset + length bytes) then get_or bytes (i - offset) 0 else block i

unfoldable pub set_block : ℕ → Block → Disk → Disk
set_block n block disk m = if m == n then block else disk m

-- The variables of the loop of `onefilefs_write`, each by its 64 bits.
pub record Progress : Type 0 where
  pub disk : Disk
  pub position : ℕ
  pub to_write : ℕ
  pub written : ℕ

-- What a round or the loop ends in: `goto out_unlock_inode` with a result, or the next round.
pub data Round : Type 0 where
  leaves : Disk → ℤ → Round
  continues : Progress → Round

-- The bytes of a block from an offset on.
unfoldable pub block_bytes : Block → ℕ → ℕ → Bytes
block_bytes block offset zero = []
block_bytes block offset (suc n) = block offset ∷ block_bytes block (suc offset) n

-- `len` of `onefilefs_read` after it is cut at the end of the file and of the block.
unfoldable pub cut_len : ℕ → ℕ → ℕ → ℕ
cut_len file_size len off =
    let len' = if ltb file_size (add_u64 off len) then file_size - off else len in
    let offset = off % default_block_size in
    if ltb default_block_size (add_u64 offset len') then default_block_size - offset else len'

module _ (d : Device) where
  -- The division is that of a position that is not negative.
  unfoldable pub write_round : Progress → Round
  unfolding store set_block
  write_round s =
      let block_number = block_of s.position in
      let offset = s.position % default_block_size in
      let write_len = min s.to_write (default_block_size - offset) in
      let (bytes, ret) = d.copy_from_user s.written write_len in
      let disk = set_block block_number (store offset bytes (s.disk block_number)) s.disk in
      if not (d.sb_bread block_number)
      then leaves s.disk (neg eio)
      else if ltb 0 ret
      then leaves disk (neg efault)
      else continues (record {
        disk = disk;
        position = add_u64 s.position write_len;
        to_write = s.to_write - write_len;
        written = add_u64 s.written write_len;
      })

  -- Each round writes at least one byte: `to_write` rounds are enough.
  unfoldable pub write_loop : ℕ → Progress → Round
  unfolding write_round
  write_loop zero s = continues s
  write_loop (suc fuel) s = elim s.to_write [
    | zero ↦ continues s
    | suc n ↦ elim (write_round s) [
      | leaves disk res ↦ leaves disk res
      | continues s' ↦ write_loop fuel s'
    ]
  ]

  -- The file, `*off` and the result.
  finish_write : FileState → ℕ → Round → FileState × (ℕ × ℤ)
  finish_write f off (leaves disk res) = (record { disk = disk; i_size = f.i_size }, (off, res))
  finish_write f off (continues s) = (
    record { disk = s.disk; i_size = max_position s.position f.i_size },
    (s.position, signed_of s.written),
  )

  unfoldable pub onefilefs_write : FileState → ℕ → ℕ → FileState × (ℕ × ℤ)
  unfolding write_loop finish_write
  onefilefs_write f len off =
      if leb d.max_file_size (add_u64 f.i_size len)
      then (f, (off, neg efbig))
      else finish_write f off (
          write_loop len
            (record { disk = f.disk; position = f.i_size; to_write = len; written = 0 }))

  -- Reading `n` bytes of one block: what reaches the user's buffer, `*off` and the result.
  unfoldable pub read_block : FileState → ℕ → ℕ → ℕ → Bytes × (ℕ × ℤ)
  unfolding block_bytes
  read_block f off n block_to_read =
      let ret = d.copy_to_user n in
      let bytes = block_bytes (f.disk block_to_read) (off % default_block_size) n in
      if not (d.sb_bread block_to_read)
      then ([], (off, neg eio))
      else if ltb 0 ret
      then (take (n - ret) bytes, (off, neg efault))
      else (bytes, (off + n, pos n))

  unfoldable pub onefilefs_read : FileState → ℕ → ℕ → Bytes × (ℕ × ℤ)
  unfolding read_block cut_len
  onefilefs_read f len off =
      if f.i_size == 0
      then ([], (off, pos 0))
      else if leb f.i_size off
      then ([], (off, pos 0))
      else read_block f off (cut_len f.i_size len off) (block_of off)

-- `dir_emit` of one entry: whether there was room for it.
pub record Entry : Type 0 where
  pub name : Bytes
  pub ino : ℕ

module _ (dir_emit : List Entry → Entry → Bool) where
  -- One `if (ctx->pos == at)`, with the entries emitted so far; `none` behind the early return.
  unfoldable pub emit_at : ℕ → Entry → List Entry × ℕ → (List Entry × ℕ) ⊎ (List Entry × ℕ)
  emit_at at e (out, position) =
      if not (position == at)
      then inr (out, position)
      else if dir_emit out e
      then inr (out ++ e ∷ [], position + 1)
      else inl (out, position)

  -- What has been emitted, and `ctx->pos`. The result is 0 on every branch.
  unfoldable pub onefilefs_iterate : ℕ → List Entry × ℕ
  unfolding emit_at
  onefilefs_iterate position =
      if leb 3 position
      then ([], position)
      else elim (emit_at 0 (record { name = b'.' ∷ []; ino = 10 }) ([], position)) [
        | inl r ↦ r
        | inr r ↦ elim (emit_at 1 (record { name = b'.' ∷ b'.' ∷ []; ino = 1 }) r) [
          | inl r' ↦ r'
          | inr r' ↦ elim (emit_at 2 (record { name = unique_file_name; ino = 1 }) r') [
            | inl r'' ↦ r''
            | inr r'' ↦ r''
          ]
        ]
      ]

-- The position of a file stays where it is.
abbrev pub onefilefs_llseek : ℕ → ℤ → ℕ → ℕ
onefilefs_llseek f_pos offset whence = f_pos

abbrev pub onefilefs_release : ℤ
onefilefs_release = pos 0
