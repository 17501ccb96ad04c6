-- ===== src/Volume.antt =====
-- singlefile-FS/singlefilemakefs.c, singlefile-FS/singlefilefs_src.c and onefilefs_lookup of
-- singlefile-FS/file.c: formatting a device, mounting it, finding its file.
use aos_project.Base.{
  ℕ, zero, suc, ◌+◌, ◌-◌, ◌*◌, ◌/◌, ◌%◌, ◌^◌, ◌≤◌, ◌<◌, min, max, bit_and, bit_or, ◌≡◌, refl, sym,
  ap, ◌∙◌, fun_ext, ◌≢◌, ◌↔◌, ◌⊎◌, inl, inr, Bool, true, false, not, ◌&&◌, ◌||◌, Option, none, some,
  List, [], ◌∷◌, ◌++◌, map, append-nil, append_assoc, arith, ltb, leb, ◌==◌, if◌then◌else◌, ltb→lt,
  ltb→le, ==→eq, ==_iff, ==-self, Bool-cases, Option-cases, length, get_elem?, get_or, set, take,
  drop, replicate, All, AnyOf, length-append, length-take, length-drop, length-replicate,
  take-append, drop-append, take_at, drop_at, take_split, drop_split, set_at, get_or_at,
  take_of_length-le, drop_of_length-le, take-append-drop, drop-nil, drop-replicate, ℤ, pos, negsuc,
  neg, is_nonzero, is_negative, eperm, enoent, eio, ebadf, enomem, eacces, efault, eexist, einval,
  efbig, ebadmsg, ecanceled,
}
use aos_project.Base.Bits.{has, and_zero, and_assoc, and_self, or-and}
use aos_project.CString.{
  Bytes, strncmp, strcmp, is_zero, same, same_n, same_iff, same_n_iff, same_self, same_n_self,
  same_n-length-append, same_n-length-prefix, c_string, NoNul, zeros, overwrite, c_string-append,
  c_string-zeros, c_string-NoNul, c_string_of_NoNul, strncmp_iff, c_string-zero,
  c_string-drop-zeros, drop-zeros-append, zeros-append, NoNul-append,
}
pub mod Format
pub mod Mount
pub mod Remount
pub mod Driver
use aos_project.SingleFile.{Block, Disk, FileState, default_block_size, unique_file_name}

-- singlefilefs.h
abbrev pub magic : ℕ
magic = 0x42424242

abbrev pub root_inode_number : ℕ
root_inode_number = 10

-- The bytes of a number, the lowest first, and back.
unfoldable pub le_bytes : ℕ → ℕ → Bytes
le_bytes zero n = []
le_bytes (suc w) n = n % 256 ∷ le_bytes w (n / 256)

unfoldable pub le_value : ℕ → Block → ℕ → ℕ
le_value zero b offset = 0
le_value (suc w) b offset = b offset + 256 * le_value w b (suc offset)

-- A uint64_t of a block.
abbrev pub u64_at : Block → ℕ → ℕ
u64_at = le_value 8

-- The bytes of a device by their position, and its blocks.
abbrev pub Image : Type 0
Image = ℕ → ℕ

unfoldable pub disk_of : Image → Disk
disk_of image b offset = image (b * default_block_size + offset)

-- What the system answers to the formatter: the results of its four writes, whether the device can be
-- opened and the padding allocated, and what the fields of its structs hold that it does not set.
pub record Tool : Type 0 where
  pub argc : ℕ
  pub opens : Bool
  pub write : ℕ → ℤ
  pub malloc : Bool
  pub stack : ℕ → ℕ

-- How many bytes of a count a write with this result has written.
abbrev pub written_of : ℤ → ℕ → ℕ
written_of (pos n) count = min n count
written_of (negsuc n) count = 0

-- `write(fd, buf, count)` at a position of the device.
unfoldable pub write_at : Image → ℕ → ℕ → (ℕ → ℕ) → ℤ → Image
write_at image position count buf ret i =
    if leb position i && ltb i (position + written_of ret count)
    then buf (i - position)
    else image i

abbrev pub equals : ℤ → ℕ → Bool
equals (pos n) m = n == m
equals (negsuc n) m = false

-- "TGID,PID,UID,EUID,PATH,HASH\n"
abbrev pub file_body : Bytes
file_body =
    b'T' ∷ b'G' ∷ b'I' ∷ b'D' ∷ b',' ∷ b'P' ∷ b'I' ∷ b'D' ∷ b',' ∷ b'U' ∷ b'I' ∷ b'D' ∷ b',' ∷ b'E'
    ∷ b'U' ∷ b'I' ∷ b'D' ∷ b',' ∷ b'P' ∷ b'A' ∷ b'T' ∷ b'H' ∷ b',' ∷ b'H' ∷ b'A' ∷ b'S' ∷ b'H'
    ∷ b'\n' ∷ []

-- `struct onefilefs_sb_info`: version, magic and block size; the rest is not set.
unfoldable pub sb_bytes : (ℕ → ℕ) → ℕ → ℕ
unfolding le_bytes
sb_bytes stack i =
    if ltb i 24
    then get_or (le_bytes 8 1 ++ le_bytes 8 magic ++ le_bytes 8 default_block_size) i 0
    else stack i

-- `struct onefilefs_inode`, 32 bytes: mode and inode number, then the size behind a field and
-- padding that are not set.
unfoldable pub inode_bytes : (ℕ → ℕ) → ℕ → ℕ
unfolding le_bytes
inode_bytes stack i =
    if ltb i 4
    then get_or (le_bytes 4 0x8000) i 0
    else if leb 8 i && ltb i 16
    then get_or (le_bytes 8 1) (i - 8) 0
    else if leb 24 i && ltb i 32
    then get_or (le_bytes 8 (length file_body)) (i - 24) 0
    else stack i

module _ (t : Tool) where
  unfoldable pub write_body : Image → Image × ℤ
  unfolding write_at
  write_body image =
      let nbytes = length file_body in
      let image' = write_at image 8192 nbytes (λ i. get_or file_body i 0) (t.write 3) in
      if not (equals (t.write 3) nbytes) then (image', negsuc 0) else (image', pos 0)

  unfoldable pub write_padding : Image → Image × ℤ
  unfolding write_body write_at
  write_padding image =
      let nbytes = default_block_size - 32 in
      let image' = write_at image 4128 nbytes (λ i. 0) (t.write 2) in
      if not t.malloc
      then (image, negsuc 0)
      else if not (equals (t.write 2) nbytes)
      then (image', negsuc 0)
      else write_body image'

  unfoldable pub write_inode : Image → Image × ℤ
  unfolding write_padding write_at inode_bytes
  write_inode image =
      let image' = write_at image 4096 32 (inode_bytes t.stack) (t.write 1) in
      if not (equals (t.write 1) 32) then (image', negsuc 0) else write_padding image'

  -- `main`: the device, and what it returns.
  unfoldable pub makefs : Image → Image × ℤ
  unfolding write_inode write_at sb_bytes
  makefs image =
      let image' = write_at image 0 default_block_size (sb_bytes t.stack) (t.write 0) in
      if not (t.argc == 2)
      then (image, negsuc 0)
      else if not t.opens
      then (image, negsuc 0)
      else if not (equals (t.write 0) default_block_size)
      then (image', t.write 0)
      else write_inode image'

-- What the kernel answers to a mount and a lookup: reads of blocks, an inode for the root, its dentry,
-- the time, and an inode for the file, with whether it is a new one.
pub record Mounter : Type 0 where
  pub sb_bread : ℕ → Bool
  pub root_iget : Bool
  pub d_make_root : Bool
  pub time : ℕ
  pub file_iget : Option Bool

pub record RootInode : Type 0 where
  pub i_ino : ℕ
  pub i_mode : ℕ
  pub i_time : ℕ

-- S_IFDIR or S_IFREG with the permissions 0775
abbrev pub dir_mode : ℕ
dir_mode = 0x41fd

abbrev pub file_mode : ℕ
file_mode = 0x81fd

-- The root inode of the mount, or NULL, and the result.
unfoldable pub singlefilefs_fill_super : Mounter → Disk → Option RootInode × ℤ
unfolding le_value
singlefilefs_fill_super m disk =
    if not (m.sb_bread 0)
    then (none, neg eio)
    else if not (u64_at (disk 0) 8 == magic)
    then (none, neg ebadf)
    else if not m.root_iget
    then (none, neg enomem)
    else if not m.d_make_root
    then (none, neg enomem)
    else (some (record { i_ino = root_inode_number; i_mode = dir_mode; i_time = m.time }), pos 0)

-- What a lookup gives: NULL for another name, an error, the dentry without an inode, which a lookup
-- of an inode that is in memory leaves as it is, or with the file and its mode.
pub data Found : Type 0 where
  no_entry : Found
  error : ℤ → Found
  bare_dentry : Found
  bound : FileState → ℕ → Found

unfoldable pub onefilefs_lookup : Mounter → Disk → Bytes → Found
unfolding le_value
onefilefs_lookup m disk name =
    if not (same name unique_file_name) then no_entry else elim m.file_iget [
      | none ↦ error (neg enomem)
      | some is_new ↦
          if not is_new
          then bare_dentry
          else if not (m.sb_bread 1)
          then error (neg eio)
          else bound (record { disk = disk; i_size = u64_at (disk 1) 24 }) file_mode
    ]
