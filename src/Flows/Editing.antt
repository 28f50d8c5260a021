-- ===== src/Flows/Editing.antt =====
-- Editors of one draft, and what a published version holds.
use flow_demo.Base.{
  ◌∙◌, ◌++◌, ℕ, suc, ◌+◌, String, true, false, some, List, [], ◌∷◌, ◌≡◌, refl, sym, ap, subst,
  arith, eq_refl, eqb, eqb_iff, length,
}
use flow_demo.Enums.{FlowStatus}
use flow_demo.Http.{answer, http_error, require, after, answer-inj, require-answer}
use flow_demo.Models.Identity.{User}
use flow_demo.Models.Flows.{FlowDefinition, FlowVersion}
use flow_demo.Permissions.{require_design}
use flow_demo.Validator.{validate_flow}
use flow_demo.Validator.Sound.{IsValidFlow, validate_flow-IsValidFlow}
use flow_demo.Table.{row_at-save_self}
use flow_demo.Flows.{
  Store, Library, DraftUpdate, flow_at, flow_or_404, in_group, save_flow, add_version,
  ensure_credentials_available, ensure_valid_schemas, drafted, published,
}
use flow_demo.Flows.Handlers.{version_of_draft, has_no_issues, update_draft, publish_flow}
use flow_demo.Flows.Versions.{flow_at-id}
use flow_demo.Flows.Changes.{flow_or_404-answer}

length-zero : {A : Type 0} (xs : List A) → eqb (length xs) 0 ≡ true → xs ≡ []
length-zero [] h = refl
length-zero (x ∷ xs) h = ground arith

module _ (lib : Library) (now : ℕ) (user : User) (group k : String) (s : Store) where
  clean :
      (f : FlowDefinition)
      → has_no_issues lib now user group k s f ≡ true
      → eqb (length (validate_flow lib.registry f.draft_content)) 0 ≡ true
  clean f h = ground arith

  -- A version that is published is the draft of the flow as it stood, with its graph, schemas and
  -- default configuration, in the flow's group, under the number after the flow's current version,
  -- and its graph is a valid flow. It is stored after the versions there were, and the flow is active
  -- with this version for its current one and the same draft.
  pub publish_flow-IsValidFlow :
      (new_id : String) (t : Store) (v : FlowVersion)
      → publish_flow lib now user group k s new_id ≡ answer (t, v)
      → (f f' : FlowDefinition) × (flow_at s k ≡ some f)
        × (f.group_id ≡ group)
        × (v.id ≡ new_id)
        × (v.group_id ≡ group)
        × (v.flow_id ≡ f.id)
        × (v.content ≡ f.draft_content)
        × (v.input_schema ≡ f.input_schema)
        × (v.config_schema ≡ f.config_schema)
        × (v.default_config ≡ f.default_config)
        × (v.version_number ≡ suc f.current_version)
        × IsValidFlow lib.registry v.content
        × (t.versions ≡ s.versions ++ (v ∷ []))
        × (flow_at t k ≡ some f')
        × (f'.status ≡ FlowStatus.active)
        × (f'.current_version ≡ v.version_number)
        × (f'.draft_content ≡ f.draft_content)
  unfolding publish_flow save_flow add_version
  publish_flow-IsValidFlow new_id t v h =
      after (require_design s.access user group) _ (t, v) h
        (λ _ _ h₁.
          after (flow_or_404 s group k) _ (t, v) h₁
            (λ f found h₂.
              after (ensure_credentials_available lib s f.id f.draft_content) _ (t, v) h₂
                (λ _ _ h₃.
                  after (require (has_no_issues lib now user group k s f) 422) _ (t, v) h₃
                    (λ u ok h₄.
                      let v₀ = version_of_draft lib now new_id group f in
                      let done =
                        answer-inj
                          (save_flow (published now v₀.version_number f) (add_version v₀ s), v₀)
                          (t, v) h₄ in
                      let made = ap (λ x. x.1) done in
                      let stored = ap (λ x. x.0) done in
                      let (here, mine) = flow_or_404-answer s group k f found in
                      let no_issues =
                        require-answer (has_no_issues lib now user group k s f) 422 u ok in
                      let none_here : eqb (length (validate_flow lib.registry f.draft_content)) 0
                          ≡ true =
                        clean f no_issues in
                      let same : f.draft_content ≡ v.content = ap (λ x. x.content) made in
                      let number : f.current_version + 1 ≡ v.version_number =
                        ap (λ x. x.version_number) made in
                      let number_is : v₀.version_number ≡ v.version_number =
                        ap (λ x. x.version_number) made in
                      let f' = published now v₀.version_number f in
                      (
                        f,
                        f',
                        here,
                        mine,
                        ap (λ x. x.id) (sym made),
                        ap (λ x. x.group_id) (sym made),
                        ap (λ x. x.flow_id) (sym made),
                        sym same,
                        ap (λ x. x.input_schema) (sym made),
                        ap (λ x. x.config_schema) (sym made),
                        ap (λ x. x.default_config) (sym made),
                        omega (arith, number),
                        subst (IsValidFlow lib.registry) same (
                            validate_flow-IsValidFlow lib.registry f.draft_content
                              (length-zero _ none_here)),
                        ap (λ x. x.versions) (sym stored)
                            ∙ ap (λ (x : FlowVersion). s.versions ++ (x ∷ [])) made,
                        ap (λ (x : Store). flow_at x k) (sym stored)
                            ∙ row_at-save_self (λ x. x.id) f' f k s.flows (flow_at-id s k f here)
                                here,
                        refl,
                        number_is,
                        refl,
                      )))))

stale : (n : ℕ) → eqb (n + 1) n ≡ false
stale n = ground arith

module _ (lib : Library) (now : ℕ) (user : User) (group k : String) (s : Store) where
  -- Once an edit of a draft is committed, a request that begins after it and was made from the same row
  -- version, by anybody who may edit the flow, is refused with 409.
  pub update_draft-conflict :
      (d : DraftUpdate) (t : Store) (f' : FlowDefinition)
      → update_draft lib now user group k s d ≡ answer (t, f')
      → (later : ℕ) (other : User) (d' : DraftUpdate)
      → require_design s.access other group ≡ answer tt
      → d'.expected_row_version ≡ d.expected_row_version
      → update_draft lib later other group k t d' ≡ http_error 409
  unfolding update_draft save_flow flow_or_404
  update_draft-conflict d t f' h later other d' allowed same =
      after (require_design s.access user group) _ (t, f') h
        (λ _ _ h₁.
          after (in_group group (flow_at s k)) _ (t, f') h₁
            (λ f found h₂.
              after (require (eqb f.row_version d.expected_row_version) 409) _ (t, f') h₂
                (λ u current h₃.
                  after (ensure_valid_schemas lib d.input_schema d.config_schema d.default_config) _
                    (t, f') h₃
                    (λ _ _ h₄.
                      let made =
                        answer-inj (save_flow (drafted now d f) s, drafted now d f) (t, f') h₄ in
                      let t≡ : t ≡ save_flow (drafted now d f) s = sym (ap (λ x. x.0) made) in
                      let (here, mine) = flow_or_404-answer s group k f found in
                      let fresh =
                        (eqb_iff f.row_version d.expected_row_version).0
                          (require-answer _ 409 u current) in
                      let now_there : flow_at (save_flow (drafted now d f) s) k
                          ≡ some (drafted now d f) =
                        row_at-save_self (λ x. x.id) (drafted now d f) f k s.flows
                          (flow_at-id s k f here) here in
                      rw
                        (
                          t≡,
                          allowed,
                          now_there,
                          mine,
                          eq_refl group,
                          same,
                          ← fresh,
                          stale f.row_version,
                        )
                        refl))))
