-- ===== src/System/Protect.antt =====
-- reference-monitor/lib/reference_syscalls.c and reference_hooks.c together: what the hooks do with a path
-- that the administrator has added.
use aos_project.Base.{ℕ, some, ℤ}
use aos_project.CString.{Bytes}
use aos_project.Kernel.{Kernel}
use aos_project.RestrictList.Membership.{Listed}
use aos_project.RestrictList.Change.{CanAdd}
use aos_project.Syscalls.{Monitor}
use aos_project.Syscalls.Path.{MayChange, Target}

module _ {P : Type 0} (k : Kernel) (m : Monitor P) (pwd b full : Bytes) (dentry i : ℕ)
    (may : MayChange k m (some pwd) b) (target : Target k m (some pwd) b full dentry)
    (can : CanAdd k m.table full dentry i) where
  abbrev IsListed : Monitor P × ℤ → Type 0
  IsListed (m', ret) = Listed full m'.table.restrict_path_list
