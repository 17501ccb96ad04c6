-- ===== src/Syscalls/State.antt =====
-- What `do_change_state` does on each of its paths.
use aos_project.Base.{
  ℕ, ◌≡◌, refl, ◌≢◌, ◌⊎◌, inl, inr, Bool, true, false, Option, List, [], ◌∷◌, map, arith,
  if◌then◌else◌, Bool-cases, All, ℤ, pos, negsuc,
}
use aos_project.CString.{Bytes}
use aos_project.Kernel.{Kernel}
use aos_project.RestrictList.{restore_black_list_entries}
use aos_project.Syscalls.{
  Monitor, Kprobes, check_pwd, do_change_state, switch_hooks, to_ulong, hooks_on, on, off, rec_on,
  rec_off,
}

-- The four states.
abbrev pub IsState : ℕ → Type 0
IsState s = (s ≡ on) ⊎ (s ≡ off) ⊎ (s ≡ rec_on) ⊎ (s ≡ rec_off)

-- The hooks run in the states ON and REC_ON.
abbrev pub IsActive : ℕ → Type 0
IsActive s = (s ≡ on) ⊎ (s ≡ rec_on)

module _ {P : Type 0} (kp : Kprobes P) where
  abbrev pub AllArmed : Bool → List P → Type 0
  AllArmed b = All (λ p. kp.armed p ≡ b)

  map_enable : (ps : List P) → AllArmed true (map kp.enable_kretprobe ps)
  map_enable [] = tt
  map_enable (p ∷ ps) = (kp.armed-enable p, map_enable ps)

  map_disable : (ps : List P) → AllArmed false (map kp.disable_kretprobe ps)
  map_disable [] = tt
  map_disable (p ∷ ps) = (kp.armed-disable p, map_disable ps)

  module _ (k : Kernel) (m : Monitor P) where
    switch_hooks-probes :
        ((switch_hooks kp k m).current_state ≡ m.current_state)
        × AllArmed (hooks_on m.current_state) (switch_hooks kp k m).probes
    unfolding switch_hooks
    switch_hooks-probes = elim (Bool-cases (hooks_on m.current_state)) [
      | inl armed ↦ rw (armed, switch_hooks) (refl, map_enable m.probes)
      | inr idle ↦ rw (idle, switch_hooks) (refl, map_disable m.probes)
    ]

    switch_hooks-table :
        (switch_hooks kp k m).table
        ≡ (if hooks_on m.current_state then m.table else (restore_black_list_entries k m.table).0)
    unfolding switch_hooks
    switch_hooks-table = ground arith

  -- What holds of the monitor between calls.
  pub record IsSound (m : Monitor P) : Type 0 where
    pub state : IsState m.current_state
    pub hooks : AllArmed (hooks_on m.current_state) m.probes

  module _ (k : Kernel) (m : Monitor P) (the_pwd : Option Bytes) where
    abbrev after : ℤ → Monitor P × ℤ
    after = do_change_state kp k m the_pwd

    -- A call that does not return 0 leaves the monitor as it is.
    pub do_change_state-atomic : (s : ℤ) → (after s).1 ≢ pos 0 → (after s).0 ≡ m
    unfolding do_change_state
    do_change_state-atomic s h = ground arith

    -- A call returns 0 only for the administrator, with the password and one of the four states,
    -- and not the present one. The state is then the new one, the probes are all armed or all
    -- disarmed as that state wants, the paths stay, and in OFF and REC_OFF the files are restored.
    pub do_change_state_lem :
        (s : ℕ)
        → (after (pos s)).1 ≡ pos 0
        → (k.euid ≡ m.admin)
          × (check_pwd k m the_pwd ≡ pos 0)
          × IsState s
          × (m.current_state ≢ s)
          × ((after (pos s)).0.current_state ≡ s)
          × AllArmed (hooks_on s) (after (pos s)).0.probes
          × ((after (pos s)).0.table
              ≡ (if hooks_on s then m.table else (restore_black_list_entries k m.table).0))
    unfolding do_change_state
    do_change_state_lem s h = ground (
      arith,
      switch_hooks-probes k (record m { current_state = s }),
      switch_hooks-table k (record m { current_state = s }),
    )

    -- An integer that is no state is refused.
    pub do_change_state_negative : (n : ℕ) → (after (negsuc n)).1 ≢ pos 0
    unfolding do_change_state
    do_change_state_negative n = ground arith

    -- The state stays one of the four, and the probes stay as it wants.
    pub do_change_state-IsSound : (s : ℤ) → IsSound m → IsSound (after s).0
    unfolding do_change_state
    do_change_state-IsSound s v = record {
      state = ground (arith, switch_hooks-probes k (record m { current_state = to_ulong s }));
      hooks = ground (arith, switch_hooks-probes k (record m { current_state = to_ulong s }));
    }
