-- ===== src/Flows/Changes.antt =====
-- Every handler that answers has made one change of the flow it names, and runs of them.
use flow_demo.Base.{
  ℕ, String, ◌&&◌, not, Option, none, some, List, [], ◌∷◌, ◌++◌, find?, append-nil, append_assoc,
  ◌≡◌, refl, sym, ap, ◌∙◌, inl, inr, arith, Bool-cases, ◌==◌, eq_iff, eqb, ltb,
}
use flow_demo.Enums.{FlowStatus, is_active}
use flow_demo.Http.{Response, answer, http_error, require, found_or, after, answer-inj}
use flow_demo.Models.Identity.{User}
use flow_demo.Models.Flows.{FlowDefinition, FlowVersion}
use flow_demo.Permissions.{require_design}
use flow_demo.Flows.{
  Store, Library, DraftUpdate, flow_at, flow_or_404, in_group, save_flow, add_version,
  ensure_credentials_available, ensure_valid_schemas, drafted, published, restored_flow,
  with_status,
}
use flow_demo.Flows.Handlers.{
  version_of_draft, version_again, has_no_issues, update_draft, publish_flow, rollback_flow_version,
  update_flow_status,
}
use flow_demo.Flows.Versions.{IsChange, edited, released, IsNumbered, change-IsNumbered}

in_group-answer :
    (group : String) (o : Option FlowDefinition) (f : FlowDefinition)
    → in_group group o ≡ answer f
    → (o ≡ some f) × (f.group_id ≡ group)
in_group-answer group none f h = cc
in_group-answer group (some g) f h = elim (Bool-cases (g.group_id == group)) [
  | inl mine ↦
      let e : g ≡ f = answer-inj g f (rw mine at h) in
      (ap some e, ap (λ x. x.group_id) (sym e) ∙ (eq_iff g.group_id group).0 mine)
  | inr other ↦ let bad : http_error 404 ≡ answer f = rw other at h in cc
]

pub flow_or_404-answer :
    (s : Store) (group k : String) (f : FlowDefinition)
    → flow_or_404 s group k ≡ answer f
    → (flow_at s k ≡ some f) × (f.group_id ≡ group)
unfolding flow_or_404
flow_or_404-answer s group k f h = in_group-answer group (flow_at s k) f h

module _ (lib : Library) (now : ℕ) (user : User) (group k : String) (s : Store) where
  update_draft-IsChange :
      (d : DraftUpdate) (t : Store) (f' : FlowDefinition)
      → update_draft lib now user group k s d ≡ answer (t, f')
      → IsChange k s t
  unfolding update_draft save_flow
  update_draft-IsChange d t f' h =
      after (require_design s.access user group) _ (t, f') h
        (λ _ _ h₁.
          after (flow_or_404 s group k) _ (t, f') h₁
            (λ f found h₂.
              after (require (eqb f.row_version d.expected_row_version) 409) _ (t, f') h₂
                (λ _ _ h₃.
                  after (ensure_valid_schemas lib d.input_schema d.config_schema d.default_config) _
                    (t, f') h₃
                    (λ _ _ h₄.
                      let made =
                        answer-inj (save_flow (drafted now d f) s, drafted now d f) (t, f') h₄ in
                      let t≡ = sym (ap (λ x. x.0) made) in
                      edited f (drafted now d f) ((flow_or_404-answer s group k f found).0) refl
                        refl (ap (λ x. x.flows) t≡) (ap (λ x. x.versions) t≡)))))

  update_flow_status-IsChange :
      (status : FlowStatus) (t : Store) (f' : FlowDefinition)
      → update_flow_status lib now user group k s status ≡ answer (t, f')
      → IsChange k s t
  unfolding update_flow_status save_flow
  update_flow_status-IsChange status t f' h =
      after (require_design s.access user group) _ (t, f') h
        (λ _ _ h₁.
          after (flow_or_404 s group k) _ (t, f') h₁
            (λ f found h₂.
              after (require (not (is_active status && ltb f.current_version 1)) 409) _ (t, f') h₂
                (λ _ _ h₃.
                  let made =
                    answer-inj (save_flow (with_status now status f) s, with_status now status f)
                      (t, f') h₃ in
                  let t≡ = sym (ap (λ x. x.0) made) in
                  edited f (with_status now status f) ((flow_or_404-answer s group k f found).0)
                    refl refl (ap (λ x. x.flows) t≡) (ap (λ x. x.versions) t≡))))

  publish_flow-IsChange :
      (new_id : String) (t : Store) (v' : FlowVersion)
      → publish_flow lib now user group k s new_id ≡ answer (t, v')
      → IsChange k s t
  unfolding publish_flow save_flow add_version
  publish_flow-IsChange new_id t v' h =
      after (require_design s.access user group) _ (t, v') h
        (λ _ _ h₁.
          after (flow_or_404 s group k) _ (t, v') h₁
            (λ f found h₂.
              after (ensure_credentials_available lib s f.id f.draft_content) _ (t, v') h₂
                (λ _ _ h₃.
                  after (require (has_no_issues lib now user group k s f) 422) _ (t, v') h₃
                    (λ _ _ h₄.
                      let v = version_of_draft lib now new_id group f in
                      let f' = published now v.version_number f in
                      let made = answer-inj (save_flow f' (add_version v s), v) (t, v') h₄ in
                      let t≡ = sym (ap (λ x. x.0) made) in
                      released f f' v ((flow_or_404-answer s group k f found).0) refl (omega arith)
                        (ap (λ x. x.flows) t≡) refl (omega arith) (ap (λ x. x.versions) t≡)))))

  rollback_flow_version-IsChange :
      (new_id : String) (number : ℕ) (t : Store) (v' : FlowVersion)
      → rollback_flow_version lib now user group k s new_id number ≡ answer (t, v')
      → IsChange k s t
  unfolding rollback_flow_version save_flow add_version
  rollback_flow_version-IsChange new_id number t v' h =
      after (require_design s.access user group) _ (t, v') h
        (λ _ _ h₁.
          after (flow_or_404 s group k) _ (t, v') h₁
            (λ f found h₂.
              after
                (found_or 404 (
                  find?
                    (λ v. v.group_id == group && v.flow_id == f.id && eqb v.version_number number)
                    s.versions))
                _ (t, v') h₂
                (λ source _ h₃.
                  let v = version_again lib now new_id group source f in
                  let f' = restored_flow now v.version_number source f in
                  let made = answer-inj (save_flow f' (add_version v s), v) (t, v') h₃ in
                  let t≡ = sym (ap (λ x. x.0) made) in
                  released f f' v ((flow_or_404-answer s group k f found).0) refl (omega arith)
                    (ap (λ x. x.flows) t≡) refl (omega arith) (ap (λ x. x.versions) t≡))))

-- the requests that change a flow
pub data Action : Type 0 where
  draft : DraftUpdate → Action
  publish : String → Action
  rollback : String → ℕ → Action
  status : FlowStatus → Action

pub record Command : Type 0 where
  pub user : User
  pub group : String
  pub flow : String
  pub time : ℕ
  pub action : Action

-- the tables after a request: as they were, where it is refused
abbrev committed : {A : Type 0} → Store → Response (Store × A) → Store
committed s (answer (t, a)) = t
committed s (http_error e) = s

unfoldable pub perform : Library → Command → Action → Store → Store
unfolding update_draft publish_flow rollback_flow_version update_flow_status
perform lib c (draft d) s = committed s (update_draft lib c.time c.user c.group c.flow s d)
perform lib c (publish i) s = committed s (publish_flow lib c.time c.user c.group c.flow s i)
perform lib c (rollback i n) s =
    committed s (rollback_flow_version lib c.time c.user c.group c.flow s i n)
perform lib c (status st) s = committed s (update_flow_status lib c.time c.user c.group c.flow s st)

abbrev pub handle : Library → Command → Store → Store
handle lib c s = perform lib c c.action s

unfoldable pub handle_all : Library → List Command → Store → Store
unfolding perform
handle_all lib [] s = s
handle_all lib (c ∷ cs) s = handle_all lib cs (handle lib c s)

-- versions are only ever added
abbrev pub IsExtension : Store → Store → Type 0
IsExtension s t = (rest : List FlowVersion) × (t.versions ≡ s.versions ++ rest)

change-IsExtension : (k : String) (s t : Store) → IsChange k s t → IsExtension s t
change-IsExtension k s t (edited f f' here same number rows vs) =
    ([], vs ∙ sym (append-nil s.versions))
change-IsExtension k s t (released f f' v here same number rows its_flow next vs) = (v ∷ [], vs)

IsGood : Store → Store → Type 0
IsGood s t = (IsNumbered s → IsNumbered t) × IsExtension s t

committed-IsGood :
    {A : Type 0} (k : String) (s : Store) (r : Response (Store × A))
    → ((t : Store) (a : A) → r ≡ answer (t, a) → IsChange k s t)
    → IsGood s (committed s r)
unfolding IsGood
committed-IsGood k s (http_error e) change = (λ inv. inv, ([], sym (append-nil s.versions)))
committed-IsGood k s (answer (t, a)) change =
    let c = change t a refl in (change-IsNumbered k s t c, change-IsExtension k s t c)

perform-IsGood :
    (lib : Library) (c : Command) (a : Action) (s : Store) → IsGood s (perform lib c a s)
unfolding perform
perform-IsGood lib c (draft d) s =
    committed-IsGood c.flow s (update_draft lib c.time c.user c.group c.flow s d)
      (update_draft-IsChange lib c.time c.user c.group c.flow s d)
perform-IsGood lib c (publish i) s =
    committed-IsGood c.flow s (publish_flow lib c.time c.user c.group c.flow s i)
      (publish_flow-IsChange lib c.time c.user c.group c.flow s i)
perform-IsGood lib c (rollback i n) s =
    committed-IsGood c.flow s (rollback_flow_version lib c.time c.user c.group c.flow s i n)
      (rollback_flow_version-IsChange lib c.time c.user c.group c.flow s i n)
perform-IsGood lib c (status st) s =
    committed-IsGood c.flow s (update_flow_status lib c.time c.user c.group c.flow s st)
      (update_flow_status-IsChange lib c.time c.user c.group c.flow s st)

-- Where every flow has its versions numbered 1 to `current_version` in order, it still has them so
-- after any sequence of draft updates, publications, rollbacks and status changes, refused or not.
pub handle_all-IsNumbered :
    (lib : Library) (cs : List Command) (s : Store)
    → IsNumbered s
    → IsNumbered (handle_all lib cs s)
unfolding handle_all IsGood
handle_all-IsNumbered lib [] s inv = inv
handle_all-IsNumbered lib (c ∷ cs) s inv =
    handle_all-IsNumbered lib cs (handle lib c s) ((perform-IsGood lib c c.action s).0 inv)

-- No sequence of those requests changes or removes a version that was published: the list of
-- versions only grows at its end.
pub handle_all-IsExtension :
    (lib : Library) (cs : List Command) (s : Store) → IsExtension s (handle_all lib cs s)
unfolding handle_all IsGood
handle_all-IsExtension lib [] s = ([], sym (append-nil s.versions))
handle_all-IsExtension lib (c ∷ cs) s =
    let (more, e) = (perform-IsGood lib c c.action s).1 in
    let (rest, e') = handle_all-IsExtension lib cs (handle lib c s) in
    (more ++ rest, e' ∙ ap (λ l. l ++ rest) e ∙ append_assoc s.versions more rest)
