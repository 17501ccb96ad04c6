-- ===== src/System/Spec.antt =====
-- What may happen to the policy of the monitor in one step: a specification that knows neither entries
-- nor inodes, with what the lists of reference-monitor/lib/reference_rcu_restrict_list.c show of it.
use aos_project.Base.{ℕ, ◌≡◌, refl, sym, ap, ◌∙◌, ◌⊎◌, inl, inr, List, [], ◌∷◌, ◌++◌, map, AnyOf}
use aos_project.CString.{Bytes}
use mathlib.Core.Path.{subst}
use aos_project.RestrictList.{RcuRestrict}
use aos_project.RestrictList.Membership.{Listed}
use aos_project.RestrictList.Edits.{Added, Removed}
use aos_project.Syscalls.{Monitor, rec_on, rec_off}
use aos_project.Syscalls.State.{IsState}
use aos_project.Syscalls.Edits.{Edited}

pub record Policy : Type 0 where
  pub state : ℕ
  pub digest : Bytes
  pub listed : List Bytes

abbrev pub paths_of : List RcuRestrict → List Bytes
paths_of = map (λ e. e.path)

abbrev pub policy : {P : Type 0} → Monitor P → Policy
policy m = record {
  state = m.current_state;
  digest = m.pwd;
  listed = paths_of m.table.restrict_path_list;
}

abbrev pub Reconfigures : ℕ → Type 0
Reconfigures s = (s ≡ rec_off) ⊎ (s ≡ rec_on)

-- The specification: what may happen to the policy in one step, and what that asks for.
pub data Move (A : Type 0) (p : Policy) : Policy → Type 0 where
  stays : Move A p p
  sets_state : A → (s : ℕ) → IsState s → Move A p (record p { state = s })
  sets_digest : A → (d : Bytes) → Move A p (record p { digest = d })
  adds :
      A
      → Reconfigures p.state
      → (path : Bytes) → ¬ AnyOf (λ q. path ≡ q) p.listed
      → Move A p (record p { listed = path ∷ p.listed })
  removes :
      A
      → Reconfigures p.state
      → (path : Bytes) (before after : List Bytes) → p.listed ≡ before ++ path ∷ after
      → Move A p (record p { listed = before ++ after })

map-append : (a b : List RcuRestrict) → paths_of (a ++ b) ≡ paths_of a ++ paths_of b
map-append [] b = refl
map-append (x ∷ a) b = ap (◌∷◌ x.path) (map-append a b)

AnyOf-Listed : (p : Bytes) (l : List RcuRestrict) → AnyOf (λ q. p ≡ q) (paths_of l) → Listed p l
AnyOf-Listed p [] h = h
AnyOf-Listed p (e ∷ l) (inl h) = inl h
AnyOf-Listed p (e ∷ l) (inr h) = inr (AnyOf-Listed p l h)

module _ (A : Type 0) (p : Policy) where
  abbrev at : List Bytes → Policy
  at l = record p { listed = l }

  Added-Move :
      A
      → Reconfigures p.state
      → (path : Bytes) (l l' : List RcuRestrict) → p.listed ≡ paths_of l
      → Added path l l'
      → Move A p (at (paths_of l'))
  Added-Move a r path l l' e (inl h) = subst (λ x. Move A p (at x)) (e ∙ ap paths_of (sym h)) stays
  Added-Move a r path l l' e (inr (n, (x, (e', h)))) =
      subst (λ x. Move A p (at x)) ((λ i. sym e' i ∷ e i) ∙ ap paths_of (sym h))
        (adds a r path (λ m. n (AnyOf-Listed path l (subst (AnyOf (λ q. path ≡ q)) e m))))

  Removed-Move :
      A
      → Reconfigures p.state
      → (l l' : List RcuRestrict) → p.listed ≡ paths_of l
      → Removed l l'
      → Move A p (at (paths_of l'))
  Removed-Move a r l l' e (inl h) = subst (λ x. Move A p (at x)) (e ∙ ap paths_of (sym h)) stays
  Removed-Move a r l l' e (inr (before, (x, (after, (h, h'))))) =
      subst (λ x. Move A p (at x)) (sym (map-append before after) ∙ ap paths_of (sym h'))
        (removes a r x.path (paths_of before) (paths_of after)
          (e ∙ ap paths_of h ∙ map-append before (x ∷ after)))

  pub Edited-Move :
      A
      → Reconfigures p.state
      → (l l' : List RcuRestrict) → p.listed ≡ paths_of l
      → Edited l l'
      → Move A p (at (paths_of l'))
  Edited-Move a r l l' e (inl (path, h)) = Added-Move a r path l l' e h
  Edited-Move a r l l' e (inr h) = Removed-Move a r l l' e h
