-- ===== src/Volume/Mount.antt =====
-- singlefile-FS/singlefilefs_src.c and onefilefs_lookup of singlefile-FS/file.c: mounting a device
-- that the formatter has written, and finding its file.
use aos_project.Base.{
  ℕ, ◌≡◌, refl, sym, ap, ◌∙◌, ◌≢◌, true, false, none, some, arith, ◌==◌, if◌then◌else◌, ==_iff, pos,
  neg, eio, ebadf,
}
use aos_project.CString.{Bytes, same, same_self}
use mathlib.Core.Path.{subst}
use aos_project.SingleFile.{Disk, unique_file_name}
use aos_project.SingleFile.Read.{file_slice}
use aos_project.Volume.{
  Tool, Image, makefs, disk_of, Mounter, RootInode, root_inode_number, dir_mode, file_mode,
  singlefilefs_fill_super, bound, onefilefs_lookup, file_body, u64_at, magic,
}
use aos_project.Volume.Format.{
  formatted, makefs-formatted, formatted-magic, formatted-size, formatted-body,
}

-- The kernel can read the device, and has the memory for a root and a new inode.
pub record CanMount (m : Mounter) : Type 0 where
  pub reads : (n : ℕ) → m.sb_bread n ≡ true
  pub root : m.root_iget ≡ true
  pub dentry : m.d_make_root ≡ true
  pub new_inode : m.file_iget ≡ some true

abbrev pub root_of : Mounter → RootInode
root_of m = record { i_ino = root_inode_number; i_mode = dir_mode; i_time = m.time }

-- What a mount and a lookup have to find on a device.
pub record IsVolume (m : Mounter) (disk : Disk) (size : ℕ) (contents : Bytes) : Type 0 where
  pub mounted : singlefilefs_fill_super m disk ≡ (some (root_of m), pos 0)
  pub file :
      onefilefs_lookup m disk unique_file_name
      ≡ bound (record { disk = disk; i_size = size }) file_mode
  pub text : file_slice disk 0 size ≡ contents

pub fill_super-magic :
    (m : Mounter) (disk : Disk)
    → CanMount m
    → u64_at (disk 0) 8 ≡ magic
    → singlefilefs_fill_super m disk ≡ (some (root_of m), pos 0)
unfolding singlefilefs_fill_super
fill_super-magic m disk c e =
    let z : (u64_at (disk 0) 8 == magic) ≡ true = (==_iff _ _).1 e in
    rw (c.reads 0, c.root, c.dentry, z) refl

pub lookup-size :
    (m : Mounter) (disk : Disk)
    → CanMount m
    → onefilefs_lookup m disk unique_file_name
      ≡ bound (record { disk = disk; i_size = u64_at (disk 1) 24 }) file_mode
unfolding onefilefs_lookup
lookup-size m disk c =
    let z : same unique_file_name unique_file_name ≡ true = same_self unique_file_name in
    rw (z, c.new_inode, c.reads 1) refl

formatted-IsVolume :
    (m : Mounter) (stack : ℕ → ℕ) (image : Image)
    → CanMount m
    → IsVolume m (disk_of (formatted stack image)) 28 file_body
formatted-IsVolume m stack image c =
    let disk = disk_of (formatted stack image) in
    record {
      mounted = fill_super-magic m disk c (formatted-magic stack image);
      file =
          lookup-size m disk c
          ∙ ap (λ n. bound (record { disk = disk; i_size = n }) file_mode)
              (formatted-size stack image);
      text = formatted-body stack image;
    }

-- A run of the formatter that returns 0, whose first write does not write nothing, leaves a device
-- that mounts, in which a lookup of "the-file" gives a file of 28 bytes with the header line of the
-- log, whatever stood on the device before and on the formatter's stack. The kernel can read the
-- device and has memory for the inodes, and the file is not in memory yet.
pub makefs-IsVolume :
    (t : Tool) (image : Image) (m : Mounter)
    → t.write 0 ≢ pos 0
    → (makefs t image).1 ≡ pos 0
    → CanMount m
    → IsVolume m (disk_of (makefs t image).0) 28 file_body
makefs-IsVolume t image m h e c =
    subst (λ i. IsVolume m (disk_of i) 28 file_body) (sym (makefs-formatted t image h e))
      (formatted-IsVolume m t.stack image c)

-- What a mount refuses: without the magic number the result is -EIO, -EBADF or -ENOMEM, and never 0.
pub fill_super_foreign :
    (m : Mounter) (disk : Disk)
    → u64_at (disk 0) 8 ≢ magic
    → singlefilefs_fill_super m disk ≡ (none, if m.sb_bread 0 then neg ebadf else neg eio)
unfolding singlefilefs_fill_super
fill_super_foreign m disk h =
    let z : (u64_at (disk 0) 8 == magic) ≡ false = ground arith in ground (arith, z)
