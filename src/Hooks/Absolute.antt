-- ===== src/Hooks/Absolute.antt =====
-- Opens by an absolute path, from the user's buffer to the decision.
use aos_project.Base.{
  ℕ, suc, ◌≤◌, ◌≡◌, refl, ◌⊎◌, inl, inr, Bool, true, false, some, ◌∷◌, ◌++◌, arith, length, ℤ, pos,
  Option, ap, ◌∙◌, neg, is_negative, eacces,
}
use aos_project.Base.Bits.{has}
use aos_project.CString.{Bytes, c_string, NoNul, zeros, c_string-zero}
use aos_project.Kernel.{set_inode, found, Kernel, open_buffer, ran, ◌>>=◌}
use aos_project.Defer.{WorkData, defer_top_half}
use aos_project.RestrictList.{Table, forbitten_path}
use aos_project.RestrictList.Membership.{Blacklisted, PositiveLookup}
use aos_project.PathSolver.{
  mark_inode_read_only, fill_with_swap_filter, fill_absolute_path, is_swap_name,
}
use aos_project.PathSolver.Absolute.{Resolves, fill_absolute_path_zeroed}
use aos_project.Hooks.{
  Hook, pass, denied, deny_open, OpenCall, go, resolve_open, write_mask, pre_do_filp_open_handler,
  reference_kret_handler,
}
use aos_project.Hooks.Open.{Reaches, Writes, open_denied, open_passes}

-- The user opens `/p`, a name of at least six bytes that is no swap name, and the buffer is zero
-- behind it; the lookup gives the path `full`.
pub record OpensAbsolute (k : Kernel) (log : Bytes) (c : OpenCall) (p full : Bytes) (n : ℕ)
    : Type 0 where
  pub named : c.name ≡ some (b'/' ∷ p)
  pub allowed : forbitten_path log (some (b'/' ∷ p)) ≡ false
  pub uptr : c.has_uptr ≡ true
  pub memory : k.allocates open_buffer ≡ true
  pub copied : is_negative c.copy_ret ≡ false
  pub user : c.user ≡ (b'/' ∷ p) ++ zeros (suc n)
  pub no_nul : NoNul (b'/' ∷ p)
  pub long : 5 ≤ length p
  pub plain : is_swap_name c.user (length (b'/' ∷ p)) ≡ false
  pub full_no_nul : NoNul full
  pub resolves : Resolves k (b'/' ∷ p) full

fill_plain :
    (k : Kernel) (b : Bytes) (r : Bytes)
    → 6 ≤ length (c_string b)
    → is_swap_name b (length (c_string b)) ≡ false
    → fill_absolute_path k b ≡ ran (r, pos 0)
    → resolve_open k b ≡ ran (go r false false)
unfolding resolve_open fill_with_swap_filter
fill_plain k b r l h e = ground arith

abbrev text : Bytes → ℕ → Bytes
text p n = (b'/' ∷ p) ++ zeros (suc n)

reach :
    {k : Kernel} {log : Bytes} {c : OpenCall} {p full : Bytes} {n : ℕ}
    → OpensAbsolute k log c p full n
    → (b : Bytes) × Reaches k log c (go b false false) × (c_string b ≡ full)
reach {k} {log} {c} {p} {full} {n} o =
    let (b, filled, string) =
      fill_absolute_path_zeroed k p full n o.no_nul o.full_no_nul o.resolves in
    (
      b,
      record {
        name = b'/' ∷ p;
        named = o.named;
        allowed = o.allowed;
        uptr = o.uptr;
        memory = o.memory;
        resolved = rw (o.copied, o.user) (fill_plain k (text p n) b long plain filled);
      },
      string,
    )
  where
    user_string : c_string (text p n) ≡ b'/' ∷ p
    user_string = c_string-zero (b'/' ∷ p) (zeros n) o.no_nul

    long : 6 ≤ length (c_string (text p n))
    long = rw user_string (omega arith)

    plain : is_swap_name (text p n) (length (c_string (text p n))) ≡ false
    plain = rw (user_string, ← o.user) o.plain

module _ (k : Kernel) (log : Bytes) (t : Table) (c : OpenCall) (p full : Bytes) (n : ℕ)
    (o : OpensAbsolute k log c p full n) (d i : ℕ) (e : k.kern_path full ≡ found d)
    (f : k.d_inode d ≡ some i) where
  positive : PositiveLookup k full
  positive d' e' z = ground arith

  -- The user opens an absolute path `/p` of at least six bytes that is neither forbidden nor a
  -- swap name, the user's copy of it is readable and zero behind it, the path is resolved to
  -- `full`, and the lookup of `full` gives a dentry with an inode. Where `full` is in the list,
  -- or an entry has the inode number of the file, and defer_top_half comes to its end for the
  -- current task, opening it for writing makes its inode read-only and leaves queued what
  -- defer_top_half has queued, and the caller gets -EACCES, whatever do_filp_open answers.
  pub open_listed_file :
      (ax : ℤ) (work : Option WorkData)
      → Blacklisted k t full true
      → has c.open_flag write_mask ≡ true
      → defer_top_half k k.current ≡ ran work
      → (h : Hook) × (pre_do_filp_open_handler k log t c ≡ ran h)
        × (h ≡ denied (set_inode t.inodes i (mark_inode_read_only (t.inodes i))) true work)
        × (reference_kret_handler h ax ≡ neg eacces)
  unfolding deny_open reference_kret_handler
  open_listed_file ax work bl w q =
      let (b, reached, string) = reach o in
      let marked = set_inode t.inodes i (mark_inode_read_only (t.inodes i)) in
      let denies =
        open_denied k log t c b false false reached (rw string positive) d i (rw string bl)
          (rw string e) f (inr (refl, w)) in
      (
        denied marked true work,
        denies ∙ ap (λ r. r >>= (λ work. ran (denied marked true work))) q,
        refl,
        refl,
      )

  -- The user opens an absolute path `/p` of at least six bytes that is neither forbidden nor a
  -- swap name, the user's copy of it is readable and zero behind it, the path is resolved to
  -- `full`, and the lookup of `full` gives a dentry with an inode. Where neither `full` nor the
  -- inode number is listed, or the open does not ask to write, no inode changes and the caller
  -- gets what do_filp_open answers.
  pub open_other_file :
      (ax : ℤ)
      → (¬ Blacklisted k t full true) ⊎ (has c.open_flag write_mask ≡ false)
      → (h : Hook) × (pre_do_filp_open_handler k log t c ≡ ran h)
        × (h ≡ pass t.inodes (pos 0))
        × (reference_kret_handler h ax ≡ ax)
  open_other_file ax free =
      let (b, reached, string) = reach o in
      let (ran_so, caller) =
        open_passes k log t c b false false reached (rw string positive) ax
          (rw string (quiet free)) in
      (pass t.inodes (pos 0), ran_so, refl, caller)
    where
      quiet :
          (¬ Blacklisted k t full true) ⊎ (has c.open_flag write_mask ≡ false)
          → (¬ Blacklisted k t full true)
            ⊎ ((◌≡◌ {A = Bool} false false) × ¬ Writes false false c.open_flag)
      quiet (inl h) = inl h
      quiet (inr h) = inr (refl, ground arith)
