-- ===== src/PathSolver/ReadOnly.antt =====
-- What `mark_inode_read_only` does to the mode and the flags.
use aos_project.Base.{◌+◌, bit_and, ◌≡◌, refl, true, false}
use aos_project.Base.Bits.{has, and_zero, and_assoc, or-and}
use aos_project.Kernel.{Inode}
use aos_project.PathSolver.{s_iwusr, s_iwgrp, s_iwoth, s_immutable, mark_inode_read_only}

-- The mode keeps exactly its bits outside the three write bits, and the immutable flag is set.
pub mark_inode_read_only_lem :
    (i : Inode)
    → ((mark_inode_read_only i).i_mode ≡ bit_and i.i_mode 0xff6d)
      × (has (mark_inode_read_only i).i_mode (s_iwusr + s_iwgrp + s_iwoth) ≡ false)
      × (has (mark_inode_read_only i).i_flags s_immutable ≡ true)
      × ((mark_inode_read_only i).i_ino ≡ i.i_ino)
unfolding mark_inode_read_only
mark_inode_read_only_lem i = (
  mode,
  rw (mode, and_assoc i.i_mode 0xff6d 0x92, and_zero i.i_mode),
  rw (or-and i.i_flags s_immutable),
  refl,
)
  where
    mode : (mark_inode_read_only i).i_mode ≡ bit_and i.i_mode 0xff6d
    mode = simp and_assoc
