-- ===== src/Volume/Driver.antt =====
-- singlefile-FS/singlefilefs_src.c: the module of the file system, and a mount of a device.
use aos_project.Base.{
  ℕ, ◌≡◌, sym, ◌≢◌, ◌↔◌, ◌⊎◌, inl, inr, Bool, true, false, not, Option, none, some, arith, ◌==◌,
  if◌then◌else◌, ==_iff, ℤ, pos, negsuc, neg, einval,
}
use mathlib.Core.Path.{subst}
use aos_project.Volume.Mount.{root_of}
use aos_project.Volume.{Disk, Mounter, RootInode, singlefilefs_fill_super, u64_at, magic}

-- What the kernel does with the type of a file system: `register_filesystem`,
-- `unregister_filesystem`, and `kill_block_super` on a super block.
pub record FileSystems (F S : Type 0) : Type 0 where
  pub register_filesystem : F → F × ℤ
  pub unregister_filesystem : F → F × ℤ
  pub kill_block_super : F → S → F
  pub registered : F → Bool
  -- A free name is registered, and what was registered can be taken away.
  pub register-free :
      (f : F)
      → registered f ≡ false
      → ((register_filesystem f).1 ≡ pos 0) × (registered (register_filesystem f).0 ≡ true)
  pub unregister-registered :
      (f : F) → registered f ≡ true → registered (unregister_filesystem f).0 ≡ false

module _ {F S : Type 0} (fs : FileSystems F S) where
  unfoldable pub singlefilefs_init : ℕ → F → F × ℤ
  singlefilefs_init max_file_size f =
      if max_file_size == 0 then (f, neg einval) else fs.register_filesystem f

  -- The result is printed only.
  unfoldable pub singlefilefs_exit : F → F
  singlefilefs_exit f = (fs.unregister_filesystem f).0

  unfoldable pub singlefilefs_kill_superblock : F → S → F
  singlefilefs_kill_superblock = fs.kill_block_super

-- `mount_bdev`, which takes the function that fills the super block; `inr` is the dentry of the
-- root and `inl n` is the error -(n + 1). The message that follows is not modelled.
unfoldable pub singlefilefs_mount :
    {D : Type 0}
    → ((D → Option RootInode × ℤ) → D → ℕ ⊎ RootInode)
    → (D → Mounter × Disk)
    → D
    → ℕ ⊎ RootInode
unfolding singlefilefs_fill_super
singlefilefs_mount mount_bdev device dev =
    mount_bdev (λ d. singlefilefs_fill_super (device d).0 (device d).1) dev

-- What `mount_bdev` does with a device that it can open: the error of the function that fills the
-- super block is the error of the mount, and otherwise the root that it made is mounted.
abbrev pub bdev_result : Option RootInode × ℤ → ℕ ⊎ RootInode
bdev_result (root, negsuc n) = inl n
bdev_result (none, pos n) = inl 0
bdev_result (some root, pos n) = inr root

abbrev pub MountsBdev : {D : Type 0} → ((D → Option RootInode × ℤ) → D → ℕ ⊎ RootInode) → D → Type 0
MountsBdev {D = D} mount_bdev dev =
    (fill : D → Option RootInode × ℤ) → mount_bdev fill dev ≡ bdev_result (fill dev)

-- The module can be loaded exactly with a limit for the file, and unloading it takes the type of the
-- file system away again.
pub singlefilefs_init_exit :
    {F S : Type 0} (fs : FileSystems F S) (max_file_size : ℕ) (f : F)
    → fs.registered f ≡ false
    → let r = singlefilefs_init fs max_file_size f in
      ((r.1 ≡ pos 0) ↔ (max_file_size ≢ 0))
      × (fs.registered r.0 ≡ not (max_file_size == 0))
      × (max_file_size ≢ 0 → fs.registered (singlefilefs_exit fs r.0) ≡ false)
unfolding singlefilefs_init singlefilefs_exit
singlefilefs_init_exit fs max_file_size f h =
    let (a, b) = fs.register-free f h in
    let c = fs.unregister-registered (fs.register_filesystem f).0 b in ground (arith, a, b, c)

-- How a mount can end: with a root, where everything that it asks for is there, or with an error.
abbrev pub MountResult : Mounter → Disk → ℕ ⊎ RootInode → Type 0
MountResult m disk r =
    (r ≡ inl 4)
    ⊎ (r ≡ inl 8)
    ⊎ (r ≡ inl 11)
    ⊎ ((m.sb_bread 0 ≡ true)
        × (u64_at (disk 0) 8 ≡ magic)
        × (m.root_iget ≡ true)
        × (m.d_make_root ≡ true)
        × (r ≡ inr (root_of m)))

fill_super-MountResult :
    (m : Mounter) (disk : Disk) → MountResult m disk (bdev_result (singlefilefs_fill_super m disk))
unfolding singlefilefs_fill_super
fill_super-MountResult m disk = ground (arith, ==_iff (u64_at (disk 0) 8) magic)

-- A mount gives the root only of a device that has the magic number, whose first block the kernel can
-- read, and only with memory for the root and its dentry; otherwise it gives -EIO, -EBADF or
-- -ENOMEM.
pub singlefilefs_mount-MountResult :
    {D : Type 0} (mount_bdev : (D → Option RootInode × ℤ) → D → ℕ ⊎ RootInode)
    (device : D → Mounter × Disk) (dev : D)
    → MountsBdev mount_bdev dev
    → MountResult (device dev).0 (device dev).1 (singlefilefs_mount mount_bdev device dev)
unfolding singlefilefs_mount
singlefilefs_mount-MountResult mount_bdev device dev h =
    subst (MountResult (device dev).0 (device dev).1) (sym (h _))
      (fill_super-MountResult (device dev).0 (device dev).1)
