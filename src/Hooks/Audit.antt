-- ===== src/Hooks/Audit.antt =====
-- reference-monitor/lib/reference_hooks.c: that the denials and the records go together.
use aos_project.Base.{
  ℕ, zero, suc, ◌≡◌, refl, ◌≢◌, ◌⊎◌, inl, inr, Bool, true, false, not, ◌&&◌, Option, none, some,
  arith, ◌==◌, if◌then◌else◌, if-cases, ℤ, pos, negsuc, neg, is_nonzero, is_negative, enoent,
  enomem, eacces,
}
use aos_project.Base.Bits.{has}
use aos_project.CString.{Bytes, c_string, zeros, overwrite}
use aos_project.Kernel.{Kernel, Inodes, Run, ran, oops, ◌>>=◌, open_buffer}
use aos_project.RestrictList.{Table, forbitten_path, check_black_list}
use aos_project.PathSolver.{
  path_max, fill_with_swap_filter, fill_absolute_path, get_parent_path,
  mark_inode_read_only_by_pathname,
}
use aos_project.Defer.{WorkData, defer_top_half}
use aos_project.Hooks.{
  Hook, pass, denied, deny_open, deny_dir, OpenCall, Resolution, stop, go, after_parent, after_fill,
  resolve_open, mark_and_deny, judge_open, finish_open, pre_do_filp_open_handler, write_mask,
  o_creat,
}

-- What holds of the result, if there is one.
abbrev pub Holds : {A : Type 0} → (A → Type 0) → Run A → Type 0
Holds Q (ran a) = Q a
Holds Q oops = Unit

pub Holds->>= :
    {A B : Type 0} (Q : A → Type 0) (R : B → Type 0) (r : Run A) (f : A → Run B)
    → Holds Q r
    → ((a : A) → Q a → Holds R (f a))
    → Holds R (r >>= f)
Holds->>= Q R (ran a) f h g = g a h
Holds->>= Q R oops f h g = tt

pub anything : {A : Type 0} (r : Run A) → Holds (λ a. Unit) r
anything (ran a) = tt
anything oops = tt

-- The access is denied and what was queued is what `defer_top_half` queues for the task, or it is not
-- denied and nothing was queued.
abbrev pub IsAudited : Kernel → Hook → Type 0
IsAudited k h =
    ((h.hook_error ≡ neg eacces) × (defer_top_half k k.current ≡ ran h.deferred))
    ⊎ ((h.hook_error ≢ neg eacces) × (h.deferred ≡ none))

-- Where `defer_top_half` comes to its end, the denial holds what it has queued.
denied-IsAudited :
    (k : Kernel) (inodes : Inodes) (poisoned : Bool) (r : Run (Option WorkData))
    → defer_top_half k k.current ≡ r
    → Holds (IsAudited k) (r >>= (λ work. ran (denied inodes poisoned work)))
denied-IsAudited k inodes poisoned (ran work) e = inl (refl, e)
denied-IsAudited k inodes poisoned oops e = tt

pass-IsAudited :
    (k : Kernel) (inodes : Inodes) (e : ℤ) → e ≢ neg eacces → IsAudited k (pass inodes e)
pass-IsAudited k inodes e n = inr (n, refl)

pub pass-zero : (k : Kernel) (inodes : Inodes) → IsAudited k (pass inodes (pos 0))
pass-zero k inodes = pass-IsAudited k inodes (pos 0) (λ e. absurd (ground arith))

pub pass-enomem : (k : Kernel) (inodes : Inodes) → IsAudited k (pass inodes (neg enomem))
pass-enomem k inodes = pass-IsAudited k inodes (neg enomem) (λ e. absurd (ground arith))

deny_open-IsAudited : (k : Kernel) (inodes : Inodes) → Holds (IsAudited k) (deny_open k inodes)
unfolding deny_open
deny_open-IsAudited k inodes = denied-IsAudited k inodes true (defer_top_half k k.current) refl

pub deny_dir-IsAudited : (k : Kernel) (inodes : Inodes) → Holds (IsAudited k) (deny_dir k inodes)
unfolding deny_dir
deny_dir-IsAudited k inodes = denied-IsAudited k inodes false (defer_top_half k k.current) refl

-- An open is given up with another error.
abbrev Resolved : Resolution → Type 0
Resolved (stop e) = e ≢ neg eacces
Resolved (go b is_dir is_swap) = Unit

after_parent-Resolved : (r : Bytes × ℤ) → Resolved (after_parent r)
unfolding after_parent
after_parent-Resolved (b, pos zero) = tt
after_parent-Resolved (b, pos (suc n)) = λ e. absurd (ground arith)
after_parent-Resolved (b, negsuc n) =
    if-cases (λ e. e ≢ neg eacces) (suc n == enomem) (neg enomem) (pos 0)
      (λ h e. absurd (ground arith)) (λ h e. absurd (ground arith))

after_fill-Resolved : (k : Kernel) (r : Bytes × ℤ) → Holds Resolved (after_fill k r)
unfolding after_fill
after_fill-Resolved k (b, pos n) = tt
after_fill-Resolved k (b, negsuc n) =
    if-cases (Holds Resolved) (suc n == enomem) (ran (stop (neg enomem))) _
      (λ h e. absurd (ground arith))
      (λ h.
        if-cases (Holds Resolved) (suc n == enoent)
          (fill_absolute_path k (get_parent_path b) >>= (λ r. ran (after_parent r)))
          (ran (go b false false))
          (λ h.
            Holds->>= (λ r. Unit) Resolved (fill_absolute_path k (get_parent_path b))
              (λ r. ran (after_parent r)) (anything _) (λ r u. after_parent-Resolved r))
          (λ h. tt))

resolve_open-Resolved : (k : Kernel) (b : Bytes) → Holds Resolved (resolve_open k b)
unfolding resolve_open
resolve_open-Resolved k b =
    Holds->>= (λ r. Unit) Resolved (fill_with_swap_filter k b) (after_fill k) (anything _)
      (λ r u. after_fill-Resolved k r)

mark_and_deny-IsAudited : (k : Kernel) (r : Inodes × ℤ) → Holds (IsAudited k) (mark_and_deny k r)
unfolding mark_and_deny
mark_and_deny-IsAudited k (inodes, ret) =
    if-cases (Holds (IsAudited k)) (is_nonzero ret) (ran (pass inodes (pos 0))) (deny_open k inodes)
      (λ e. pass-zero k inodes) (λ e. deny_open-IsAudited k inodes)

judge_open-IsAudited :
    (k : Kernel) (t : Table) (flags : ℕ) (p : Bytes) (is_dir is_swap : Bool) (ret : ℤ)
    → Holds (IsAudited k) (judge_open k t flags p is_dir is_swap ret)
unfolding judge_open
judge_open-IsAudited k t flags p is_dir is_swap ret =
    let marked : Run Hook = mark_inode_read_only_by_pathname k t.inodes p >>= mark_and_deny k in
    let m : Holds (IsAudited k) marked =
      Holds->>= (λ r. Unit) (IsAudited k) (mark_inode_read_only_by_pathname k t.inodes p)
        (mark_and_deny k) (anything _) (λ r u. mark_and_deny-IsAudited k r) in
    let passes : Run Hook = ran (pass t.inodes (pos 0)) in
    let denies : Run Hook = deny_open k t.inodes in
    if-cases (Holds (IsAudited k)) (is_nonzero ret) passes _ (λ e. pass-zero k t.inodes)
      (λ e.
        if-cases (Holds (IsAudited k)) (is_dir && has flags o_creat) marked _ (λ e. m)
          (λ e.
            if-cases (Holds (IsAudited k)) is_swap denies _ (λ e. deny_open-IsAudited k t.inodes)
              (λ e.
                if-cases (Holds (IsAudited k)) (has flags write_mask) marked passes (λ e. m)
                  (λ e. pass-zero k t.inodes))))

finish_open-IsAudited :
    (k : Kernel) (t : Table) (flags : ℕ) (r : Resolution)
    → Resolved r
    → Holds (IsAudited k) (finish_open k t flags r)
unfolding finish_open
finish_open-IsAudited k t flags (stop e) h = pass-IsAudited k t.inodes e h
finish_open-IsAudited k t flags (go b is_dir is_swap) h =
    Holds->>= (λ r. Unit) (IsAudited k) (check_black_list k t (some (c_string b)) true)
      (judge_open k t flags (c_string b) is_dir is_swap) (anything _)
      (λ ret u. judge_open-IsAudited k t flags (c_string b) is_dir is_swap ret)

named-IsAudited :
    (k : Kernel) (log : Bytes) (t : Table) (name : Option Bytes) (has_uptr : Bool) (ret : ℤ)
    (user : Bytes) (flags : ℕ)
    → Holds (IsAudited k) (
        pre_do_filp_open_handler k log t (record {
          name = name;
          has_uptr = has_uptr;
          copy_ret = ret;
          user = user;
          open_flag = flags;
        }))
unfolding pre_do_filp_open_handler
named-IsAudited k log t none has_uptr ret user flags = pass-zero k t.inodes
named-IsAudited k log t (some name) has_uptr ret user flags =
    let passes : Run Hook = ran (pass t.inodes (pos 0)) in
    let b = if is_negative ret then overwrite name (zeros path_max) else user in
    let resolved = resolve_open k b >>= finish_open k t flags in
    let r =
      Holds->>= Resolved (IsAudited k) (resolve_open k b) (finish_open k t flags)
        (resolve_open-Resolved k b) (finish_open-IsAudited k t flags) in
    if-cases (Holds (IsAudited k)) (forbitten_path log (some name)) passes _
      (λ e. pass-zero k t.inodes)
      (λ e.
        if-cases (Holds (IsAudited k)) (not has_uptr) passes _ (λ e. pass-zero k t.inodes)
          (λ e.
            if-cases (Holds (IsAudited k)) (not (k.allocates open_buffer))
              (ran (pass t.inodes (neg enomem))) resolved (λ e. pass-enomem k t.inodes) (λ e. r)))

-- Where the handler of an open comes to an end, it has set -EACCES and queued what `defer_top_half`
-- queues, or set something else and queued nothing.
pub open-IsAudited :
    (k : Kernel) (log : Bytes) (t : Table) (c : OpenCall)
    → Holds (IsAudited k) (pre_do_filp_open_handler k log t c)
open-IsAudited k log t c = named-IsAudited k log t c.name c.has_uptr c.copy_ret c.user c.open_flag
