-- ===== src/Tests/Volumes.antt =====
-- Runs of the formatter, of a mount and of the file system over a remount.
use aos_project.Base.{
  ◌++◌, ◌-◌, ◌<◌, ◌≡◌, refl, ◌≢◌, true, some, [], ◌∷◌, arith, ◌==◌, if◌then◌else◌, take, drop, pos,
}
use aos_project.CString.{Bytes}
use aos_project.SingleFile.{Disk, Device, FileState, onefilefs_write}
use aos_project.SingleFile.Positions.{Copies, Readable}
use aos_project.SingleFile.Read.{file_slice}
use aos_project.SingleFile.Outcome.{IsOutcome, onefilefs_write-IsOutcome, onefilefs_write-bounded}
use aos_project.SingleFile.ReadAll.{read_all, read_all_lem}
use aos_project.SingleFile.Contents.{contents, contents-onefilefs_write, read_all-onefilefs_write}
use aos_project.Volume.{
  Tool, Image, makefs, write_inode, write_padding, write_body, disk_of, Mounter, file_body,
}
use aos_project.Volume.Mount.{CanMount, IsVolume, makefs-IsVolume}

-- "one" and "two"
abbrev first_line : Bytes
first_line = b'o' ∷ b'n' ∷ b'e' ∷ []

abbrev second_line : Bytes
second_line = b't' ∷ b'w' ∷ b'o' ∷ []

abbrev device_of : Bytes → Device
device_of buf = record {
  sb_bread = λ n. true;
  copy_from_user = λ o n. (take n (drop o buf), 0);
  copy_to_user = λ n. 0;
  max_file_size = 100000;
}

-- A device whose second block cannot be read.
abbrev broken_device : Device
broken_device = record (device_of first_line) { sb_bread = λ n. n == 2 }

device_of-Copies : (buf : Bytes) → Copies (device_of buf) buf
device_of-Copies buf o n h = refl

device_of-Readable : (buf : Bytes) → Readable (device_of buf)
device_of-Readable buf n = refl

abbrev small_file : FileState
small_file = record { disk = λ n i. b'.'; i_size = 4094 }

onefilefs_write-IsOutcome_example :
    IsOutcome broken_device small_file 3 0 (onefilefs_write broken_device small_file 3 0)
onefilefs_write-IsOutcome_example =
    onefilefs_write-IsOutcome broken_device small_file 3 0 (omega arith)

onefilefs_write-bounded_example :
    (onefilefs_write (device_of first_line) small_file 3 0).0.i_size < 100000
onefilefs_write-bounded_example =
    onefilefs_write-bounded (device_of first_line) small_file 3 0 (omega arith) (omega arith)

read_all_lem_example :
    read_all (device_of []) small_file 2 10 4090 ≡ file_slice small_file.disk 4090 (4094 - 4090)
read_all_lem_example =
    read_all_lem (device_of []) small_file 2 10 4090 (device_of-Readable []) (λ n. refl)
      (omega arith) (omega arith) (omega arith) (omega arith) (omega arith)

abbrev pub tool : Tool
tool = record {
  argc = 2;
  opens = true;
  write = λ i.
      if i == 0 then pos 4096 else if i == 1 then pos 32 else if i == 2 then pos 4064 else pos 28;
  malloc = true;
  stack = λ i. 7;
}

abbrev pub old_image : Image
old_image i = 255

abbrev pub mounter : Mounter
mounter = record {
  sb_bread = λ n. true;
  root_iget = true;
  d_make_root = true;
  time = 9;
  file_iget = some true;
}

pub mounter-CanMount : CanMount mounter
mounter-CanMount = record { reads = λ n. refl; root = refl; dentry = refl; new_inode = refl }

pub tool_succeeds : (makefs tool old_image).1 ≡ pos 0
unfolding makefs write_inode write_padding write_body
tool_succeeds = refl

pub tool_writes : tool.write 0 ≢ pos 0
tool_writes e = absurd (ground arith)

makefs-IsVolume_example : IsVolume mounter (disk_of (makefs tool old_image).0) 28 file_body
makefs-IsVolume_example =
    makefs-IsVolume tool old_image mounter tool_writes tool_succeeds mounter-CanMount

abbrev zero_disk : Disk
zero_disk n i = 0

contents-onefilefs_write_example :
    contents (onefilefs_write (device_of first_line) small_file 3 0).0
    ≡ contents small_file ++ first_line
contents-onefilefs_write_example =
    contents-onefilefs_write (device_of first_line) first_line small_file 0
      (device_of-Copies first_line) (device_of-Readable first_line) (omega arith) (omega arith)

read_all-onefilefs_write_example :
    read_all
      (device_of first_line)
      (onefilefs_write (device_of first_line) small_file 3 0).0
      512
      5000
      0
    ≡ contents small_file ++ first_line
read_all-onefilefs_write_example =
    read_all-onefilefs_write (device_of first_line) first_line small_file 0 512 5000
      (device_of-Copies first_line) (device_of-Readable first_line) (λ n. refl) (omega arith)
      (omega arith) (omega arith) (omega arith) (omega arith)
