-- ===== src/Flows/Versions.antt =====
-- The numbers of a flow's versions.
use flow_demo.Base.{
  ℕ, zero, suc, String, false, some, List, [], ◌∷◌, ◌++◌, map, filter, append-nil, find?-some, ◌≡◌,
  sym, ap, ◌∙◌, ◌⊎◌, inl, inr, arith, Bool-cases, if◌then◌else◌, ◌==◌, eq_iff, eq_refl,
}
use flow_demo.Models.Flows.{FlowDefinition, FlowVersion}
use flow_demo.Table.{save, row_at-save_self, row_at-save_ne}
use flow_demo.Flows.{Store, flow_at}

-- the numbers of a flow's versions, in the order in which they were made
abbrev pub numbers : String → List FlowVersion → List ℕ
numbers k versions = map (λ v. v.version_number) (filter (λ v. v.flow_id == k) versions)

-- 1, …, n
abbrev pub up_to : ℕ → List ℕ
up_to zero = []
up_to (suc n) = up_to n ++ (suc n ∷ [])

-- every flow has the versions 1, …, `current_version`, in this order
abbrev pub IsNumbered : Store → Type 0
IsNumbered s =
    (k : String) (f : FlowDefinition)
    → flow_at s k ≡ some f
    → numbers k s.versions ≡ up_to f.current_version

-- one change of the flow `k`: an edit, or the release of its next version
pub data IsChange (k : String) (s t : Store) : Type 0 where
  edited :
      (f f' : FlowDefinition)
      → flow_at s k ≡ some f
      → f'.id ≡ f.id
      → f'.current_version ≡ f.current_version
      → t.flows ≡ save (λ x. x.id) f' s.flows
      → t.versions ≡ s.versions
      → IsChange k s t
  released :
      (f f' : FlowDefinition) (v : FlowVersion)
      → flow_at s k ≡ some f
      → f'.id ≡ f.id
      → f'.current_version ≡ suc f.current_version
      → t.flows ≡ save (λ x. x.id) f' s.flows
      → v.flow_id ≡ f.id
      → v.version_number ≡ suc f.current_version
      → t.versions ≡ s.versions ++ (v ∷ [])
      → IsChange k s t

pub flow_at-id : (s : Store) (k : String) (f : FlowDefinition) → flow_at s k ≡ some f → f.id ≡ k
flow_at-id s k f e = let (m, p) = find?-some (λ x. x.id == k) f s.flows e in (eq_iff f.id k).0 p

numbers-append :
    (k : String) (vs : List FlowVersion) (v : FlowVersion)
    → numbers k (vs ++ (v ∷ []))
      ≡ numbers k vs ++ (if v.flow_id == k then v.version_number ∷ [] else [])
numbers-append k [] v = ground arith
numbers-append k (x ∷ vs) v = ground (arith, numbers-append k vs v)

-- the flows after a change: the changed one, or one that it does not touch
flow_at-save :
    (k j : String) (s t : Store) (f f' g : FlowDefinition)
    → flow_at s k ≡ some f
    → f'.id ≡ f.id
    → t.flows ≡ save (λ x. x.id) f' s.flows
    → flow_at t j ≡ some g
    → ((k ≡ j) × (g ≡ f')) ⊎ (((k == j) ≡ false) × (flow_at s j ≡ some g))
flow_at-save k j s t f f' g here same rows there =
    let own : f'.id ≡ k = same ∙ flow_at-id s k f here in
    elim (Bool-cases (k == j)) [
      | inl e ↦
          let e' : k ≡ j = (eq_iff k j).0 e in
          let now_f' : flow_at t j ≡ some f' =
            rw rows (row_at-save_self (λ x. x.id) f' f j s.flows (own ∙ e') (rw (← e') here)) in
          inl (e', let both : some g ≡ some f' = sym there ∙ now_f' in cc)
      | inr ne ↦
          let still : flow_at t j ≡ flow_at s j =
            rw rows (row_at-save_ne (λ x. x.id) f' j s.flows (rw own ne)) in
          inr (ne, sym still ∙ there)
    ]

pub change-IsNumbered : (k : String) (s t : Store) → IsChange k s t → IsNumbered s → IsNumbered t
change-IsNumbered k s t (edited f f' here same number rows vs) inv j g there =
    elim (flow_at-save k j s t f f' g here same rows there) [
      | inl (e, is_f') ↦ rw (vs, is_f', number) (inv j f (rw (← e) here))
      | inr (ne, before) ↦ rw vs (inv j g before)
    ]
change-IsNumbered k s t (released f f' v here same number rows its_flow next vs) inv j g there =
    let of_k : v.flow_id ≡ k = its_flow ∙ flow_at-id s k f here in
    elim (flow_at-save k j s t f f' g here same rows there) [
      | inl (e, is_f') ↦
          rw (vs, is_f', number, numbers-append j s.versions v, of_k, e, eq_refl j, next)
            (ap (λ l. l ++ (suc f.current_version ∷ [])) (inv j f (rw (← e) here)))
      | inr (ne, before) ↦
          rw (vs, numbers-append j s.versions v, of_k, ne)
            (append-nil (numbers j s.versions) ∙ inv j g before)
    ]
