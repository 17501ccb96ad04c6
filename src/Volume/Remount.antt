-- ===== src/Volume/Remount.antt =====
-- singlefile-FS/file.c over a mount and the next: what is left of a write.
use aos_project.Base.{ℕ, ◌+◌, ◌≤◌, ◌≡◌, ap, ◌∙◌}
use aos_project.SingleFile.{Disk, Device, FileState, onefilefs_write, unique_file_name}
use aos_project.SingleFile.Positions.{size_bound}
use aos_project.SingleFile.Head.{onefilefs_write-SameHead}
use aos_project.Volume.{Mounter, u64_at, bound, onefilefs_lookup, file_mode}
use aos_project.Volume.Mount.{CanMount, lookup-size}

-- The file as a mount finds it: its size is the one on the device.
abbrev pub on_disk : Disk → FileState
on_disk disk = record { disk = disk; i_size = u64_at (disk 1) 24 }

-- Whatever is written to the file, and whatever the outcome, a lookup after the next mount gives the
-- size that the device had before: a write does not reach the inode on the device.
pub lookup-onefilefs_write :
    (d : Device) (m : Mounter) (f : FileState) (len off : ℕ)
    → CanMount m
    → f.i_size + len ≤ size_bound
    → let disk = (onefilefs_write d f len off).0.disk in
      onefilefs_lookup m disk unique_file_name
      ≡ bound (record { disk = disk; i_size = u64_at (f.disk 1) 24 }) file_mode
lookup-onefilefs_write d m f len off c h =
    let disk = (onefilefs_write d f len off).0.disk in
    let (a, b) = onefilefs_write-SameHead d f len off h in
    lookup-size m disk c
    ∙ ap (λ (x : ℕ → ℕ). bound (record { disk = disk; i_size = u64_at x 24 }) file_mode) b
