-- ===== src/Hooks/Open.antt =====
-- Which opens the hook denies.
use aos_project.Base.{ℕ, ◌≡◌, refl, ◌∙◌, ◌⊎◌, Bool, true, false, some, arith, ℤ, pos}
use aos_project.Base.Bits.{has}
use aos_project.CString.{Bytes, c_string}
use aos_project.Kernel.{set_inode, found, Kernel, open_buffer, Run, ran}
use aos_project.RestrictList.{Table, forbitten_path}
use aos_project.RestrictList.Membership.{Blacklisted, PositiveLookup, check_black_list_decides}
use aos_project.PathSolver.{mark_inode_read_only, mark_inode_read_only_by_pathname}
use aos_project.Hooks.{
  Hook, pass, deny_open, OpenCall, Resolution, go, resolve_open, finish_open, open_buffer_of,
  write_mask, o_creat, pre_do_filp_open_handler, reference_kret_handler,
}

-- The open gets as far as the test of the list.
pub record Reaches (k : Kernel) (log : Bytes) (c : OpenCall) (r : Resolution) : Type 0 where
  pub name : Bytes
  pub named : c.name ≡ some name
  pub allowed : forbitten_path log (some name) ≡ false
  pub uptr : c.has_uptr ≡ true
  pub memory : k.allocates open_buffer ≡ true
  pub resolved : resolve_open k (open_buffer_of name c) ≡ ran r

handler-finish :
    (k : Kernel) (log : Bytes) (t : Table) (c : OpenCall) (r : Resolution)
    → Reaches k log c r
    → pre_do_filp_open_handler k log t c ≡ finish_open k t c.open_flag r
unfolding pre_do_filp_open_handler
handler-finish k log t c r h = ground (arith, h.named, h.resolved)

-- The kind of open that changes a listed target: a creation in a directory, or a write to a file.
abbrev pub Writes : Bool → Bool → ℕ → Type 0
Writes is_dir is_swap flags =
    ((is_dir ≡ true) × (has flags o_creat ≡ true))
    ⊎ ((is_swap ≡ false) × (has flags write_mask ≡ true))

module _ (k : Kernel) (log : Bytes) (t : Table) (c : OpenCall) (b : Bytes) (is_dir is_swap : Bool)
    (reached : Reaches k log c (go b is_dir is_swap))
    (positive : PositiveLookup k (c_string b)) where
  abbrev p : Bytes
  p = c_string b

  abbrev handled : Run Hook
  handled = pre_do_filp_open_handler k log t c

  -- An open that writes to a listed target makes its inode read-only and is denied.
  pub open_denied :
      (d i : ℕ)
      → Blacklisted k t p true
      → k.kern_path p ≡ found d
      → k.d_inode d ≡ some i
      → Writes is_dir is_swap c.open_flag
      → handled ≡ deny_open k (set_inode t.inodes i (mark_inode_read_only (t.inodes i)))
  unfolding finish_open mark_inode_read_only_by_pathname
  open_denied d i bl e f w =
      handler-finish k log t c (go b is_dir is_swap) reached
      ∙ ground (arith, check_black_list_decides k t p true positive)

  -- An open that is not listed, or that only reads a listed target, changes nothing, and the
  -- caller gets what do_filp_open answers.
  pub open_passes :
      (ax : ℤ)
      → (¬ Blacklisted k t p true) ⊎ ((is_swap ≡ false) × ¬ Writes is_dir is_swap c.open_flag)
      → (handled ≡ ran (pass t.inodes (pos 0)))
        × (reference_kret_handler (pass t.inodes (pos 0)) ax ≡ ax)
  unfolding finish_open reference_kret_handler
  open_passes ax h = (
    handler-finish k log t c (go b is_dir is_swap) reached
        ∙ ground (arith, check_black_list_decides k t p true positive),
    refl,
  )

  -- A name of an editor's swap file of a listed file is denied for every open, and nothing is marked.
  pub open_swap_denied :
      is_dir ≡ false → is_swap ≡ true → Blacklisted k t p true → handled ≡ deny_open k t.inodes
  unfolding finish_open
  open_swap_denied nd sw bl =
      handler-finish k log t c (go b is_dir is_swap) reached
      ∙ ground (arith, check_black_list_decides k t p true positive)
