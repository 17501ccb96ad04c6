-- ===== src/Hooks/Copied.antt =====
-- reference-monitor/lib/reference_hooks.c: which of the two copies of the name an open is judged by.
use aos_project.Base.{◌≡◌, refl, true, false, some, is_negative}
use aos_project.CString.{Bytes}
use aos_project.Kernel.{Kernel}
use aos_project.RestrictList.{Table, forbitten_path}
use aos_project.Hooks.{OpenCall, pre_do_filp_open_handler}

-- An open whose name the kernel has copied, with a user pointer, and a second copy that does not fail.
pub record Copied (log : Bytes) (c : OpenCall) (name : Bytes) : Type 0 where
  pub named : c.name ≡ some name
  pub outside : forbitten_path log (some name) ≡ false
  pub pointer : c.has_uptr ≡ true
  pub copied : is_negative c.copy_ret ≡ false

module _ (k : Kernel) (log : Bytes) (t : Table) where
  -- What the handler does with an open is a function of the user's memory as it is when the handler
  -- reads it, and of the flags: two opens that the kernel gives different names are judged alike
  -- if the memory holds the same by then. Neither name lies in a folder that the list excludes.
  pub pre_do_filp_open_handler_memory :
      (c d : OpenCall) (name other : Bytes)
      → Copied log c name
      → Copied log d other
      → c.user ≡ d.user
      → c.open_flag ≡ d.open_flag
      → pre_do_filp_open_handler k log t c ≡ pre_do_filp_open_handler k log t d
  unfolding pre_do_filp_open_handler
  pre_do_filp_open_handler_memory c d name other p q u f =
      rw (p.named, p.outside, p.pointer, p.copied, q.named, q.outside, q.pointer, q.copied, u, f)
        refl
