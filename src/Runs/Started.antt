-- ===== src/Runs/Started.antt =====
-- What a run that was started, or started again, is.
use flow_demo.Base.{
  zero, suc, false, ◌≢◌, ◌⊎◌, ℕ, String, true, not, Option, none, some, [], ◌∷◌, ◌++◌, find?,
  find?-some, In, ◌≡◌, refl, sym, ap, ◌∙◌, arith, ◌==◌, eq_iff, eqb, eqb_iff, ltb, Bool-cases, inl,
  inr,
}
use flow_demo.Content
use flow_demo.Projection.World.{node_row}
use flow_demo.Projection.Rows.{IsIntact}
use flow_demo.Json.{Fields}
use flow_demo.Enums.{RunStatus, RunTriggerType, FlowStatus, is_active}
use flow_demo.Http.{
  Response, answer, http_error, require, found_or, after, answer-inj, require-answer,
  found_or-answer,
}
use flow_demo.Models.Identity.{User}
use flow_demo.Models.Flows.{FlowDefinition, FlowVersion}
use flow_demo.Models.Runs.{FlowRun, NodeRun}
use flow_demo.Permissions.{require_execute}
use flow_demo.Table.{row_at}
use flow_demo.Flows.{flow_at, flow_or_404}
use flow_demo.Flows.Changes.{flow_or_404-answer}
use flow_demo.Callback.Store.{Store, run_at}
use flow_demo.Runs.{Keys, Order}
use flow_demo.Runs.Rows.{IsUntouched, IsKeyed, IsFresh, IsStarted, create_run_projection-IsStarted}
use flow_demo.Runs.Handlers.{
  Desk, Outside, start_workflow, RunCreate, guarded, launch, version_wanted, is_version,
  manual_order, rerun_order, run_or_404, run_in_group, prepared_run, create_run, prepared_rerun,
  rerun_run,
}

-- a handler that answers has passed the steps before the commit, and Temporal took the request
launched :
    (out : Outside) (d d' : Desk) (r : FlowRun) (m : Response (Store × FlowRun))
    → guarded d m (launch out d) ≡ (answer r, d')
    → (m ≡ answer (d'.tables, r))
      × (d'.requests ≡ d.requests ++ (start_workflow r ∷ []))
      × (d'.flows ≡ d.flows)
      × (out.accepts (start_workflow r) ≡ true)
launched out d d' r (http_error e) h = (let bad : http_error e ≡ answer r = ap (λ x. x.0) h in cc)
launched out d d' r (answer (s, q)) h = elim (Bool-cases (out.accepts (start_workflow q))) [
  | inr out_of ↦ (let bad : http_error 500 ≡ answer r = ap (λ x. x.0) (rw out_of at h) in cc)
  | inl yes_q ↦
      let done : (
        answer q,
        record d { tables = s; requests = d.requests ++ (start_workflow q ∷ []) },
      )
          ≡ (answer r, d') =
        rw yes_q at h in
      let same : q ≡ r = answer-inj q r (ap (λ x. x.0) done) in
      (
        rw (same, ap (λ x. x.1.tables) done) refl,
        sym (ap (λ x. x.1.requests) done) ∙ ap (λ x. d.requests ++ (start_workflow x ∷ [])) same,
        sym (ap (λ x. x.1.flows) done),
        rw same at yes_q,
      )
]

run_in_group-answer :
    (group : String) (o : Option FlowRun) (r : FlowRun)
    → run_in_group group o ≡ answer r
    → (o ≡ some r) × (r.group_id ≡ group)
run_in_group-answer group none r h = cc
run_in_group-answer group (some x) r h = elim (Bool-cases (x.group_id == group)) [
  | inl own ↦
      let same : x ≡ r = answer-inj x r (rw own at h) in
      (ap some same, (eq_iff r.group_id group).0 (rw same at own))
  | inr other ↦ (let bad : http_error 404 ≡ answer r = rw other at h in cc)
]

pub run_or_404-answer :
    (s : Store) (group id : String) (r : FlowRun)
    → run_or_404 s group id ≡ answer r
    → (run_at s id ≡ some r) × (r.group_id ≡ group)
unfolding run_or_404
run_or_404-answer s group id r h = run_in_group-answer group (run_at s id) r h

is_active-lem : (s : FlowStatus) → is_active s ≡ true → s ≡ FlowStatus.active
is_active-lem FlowStatus.active h = refl
is_active-lem FlowStatus.draft h = cc
is_active-lem FlowStatus.paused h = cc
is_active-lem FlowStatus.archived h = cc

-- a run of the version `v` of the flow `f` that is to begin, on an input and with a configuration: its
-- row, a row for each node that nothing has touched, and the request to Temporal
pub record Starts (now : ℕ) (keys : Keys) (group : String) (f : FlowDefinition) (v : FlowVersion)
    (input config : Fields) (d d' : Desk) (r : FlowRun) : Type 0 where
  pub active : f.status ≡ FlowStatus.active
  pub id : r.id ≡ keys.run_key
  pub group_id : r.group_id ≡ group
  pub flow : r.flow_id ≡ f.id
  pub version : r.flow_version_id ≡ v.id
  pub status : r.status ≡ RunStatus.pending
  pub input_data : r.input_data ≡ input
  pub flow_config : r.flow_config ≡ config
  pub no_output : r.output_data ≡ none
  pub no_error : r.error_message ≡ none
  pub not_cancelled : r.cancel_requested ≡ false
  pub stored : run_at d'.tables keys.run_key ≡ some r
  pub intact : IsIntact keys.run_key v.content d'.tables
  pub waiting :
      (j : String)
      → In j (Content.keys v.content.nodes)
      → (n : NodeRun) × (node_row d'.tables keys.run_key j ≡ some n) × IsUntouched n
  pub request : d'.requests ≡ d.requests ++ (start_workflow r ∷ [])

Starts-of_started :
    (now : ℕ) (keys : Keys) (group : String) (f : FlowDefinition) (v : FlowVersion) (o : Order)
    (d d' : Desk) (r : FlowRun)
    → f.status ≡ FlowStatus.active
    → IsStarted now keys group f v o d.tables d'.tables r
    → d'.requests ≡ d.requests ++ (start_workflow r ∷ [])
    → Starts now keys group f v o.input_data o.flow_config d d' r
Starts-of_started now keys group f v o d d' r active made request = record {
  active = active;
  id = ap (λ x. x.id) made.row;
  group_id = ap (λ x. x.group_id) made.row;
  flow = ap (λ x. x.flow_id) made.row;
  version = ap (λ x. x.flow_version_id) made.row;
  status = ap (λ x. x.status) made.row;
  input_data = ap (λ x. x.input_data) made.row;
  flow_config = ap (λ x. x.flow_config) made.row;
  no_output = ap (λ x. x.output_data) made.row;
  no_error = ap (λ x. x.error_message) made.row;
  not_cancelled = ap (λ x. x.cancel_requested) made.row;
  stored = made.stored;
  intact = made.intact;
  waiting = made.waiting;
  request = request;
}

-- the version that is wanted: the number asked for, or the current one where none is
abbrev pub IsWanted : Option ℕ → ℕ → ℕ → Type 0
IsWanted asked current n =
    ((asked ≡ some n) × (n ≢ 0)) ⊎ (((asked ≡ none) ⊎ (asked ≡ some 0)) × (n ≡ current))

version_wanted-IsWanted :
    (o : Option ℕ) (current : ℕ) → IsWanted o current (version_wanted o current)
version_wanted-IsWanted none current = inr (inl refl, refl)
version_wanted-IsWanted (some zero) current = inr (inr refl, refl)
version_wanted-IsWanted (some (suc k)) current = inl (refl, λ e. omega (arith, e))

module _ (out : Outside) (now : ℕ) (user : User) (group : String) (d : Desk) (keys : Keys)
    (fresh : IsFresh keys d.tables) (keyed : IsKeyed d.tables.node_runs) where
  -- Under new keys, a run that `create_run` answers is one that the user may execute, of the flow in
  -- the group, which is active; it runs the version that was asked for, or the current one, on an
  -- input that was sent, which the version's schema has no error for, and with the version's default
  -- configuration; it is pending, with no output and no error, its row and a pending row with no attempt
  -- for every node of the version's graph are stored, and Temporal was asked to start it.
  pub create_run-Starts :
      (flow_id : String) (p : RunCreate) (r : FlowRun) (d' : Desk)
      → create_run out now user group d keys flow_id p ≡ (answer r, d')
      → (f : FlowDefinition) × (v : FlowVersion) × (require_execute d.flows.access user group
          ≡ answer tt)
        × (flow_at d.flows flow_id ≡ some f)
        × In v d.flows.versions
        × (v.flow_id ≡ f.id)
        × (v.group_id ≡ group)
        × IsWanted p.version_number f.current_version v.version_number
        × (out.input_errors v.input_schema p.input_data ≡ 0)
        × (r.trigger_type ≡ RunTriggerType.manual)
        × Starts now keys group f v p.input_data v.default_config d d' r
  unfolding create_run prepared_run
  create_run-Starts flow_id p r d' h =
      let (ok, request, _, _) =
        launched out d d' r (prepared_run out now user group d keys flow_id p) h in
      let end : Store × FlowRun = (d'.tables, r) in
      after (require_execute d.flows.access user group) _ end ok (λ _ may h₁.
        after (flow_or_404 d.flows group flow_id) _ end h₁ (λ f found h₂.
          after (require (not (ltb f.current_version 1)) 409) _ end h₂ (λ _ _ h₃.
            after (require (is_active f.status) 409) _ end h₃ (λ u₁ active h₄.
              after
                (found_or 404 (
                  find? (is_version group f.id (version_wanted p.version_number f.current_version))
                    d.flows.versions))
                _ end h₄
                (λ v version h₅.
                  after (require (eqb (out.input_errors v.input_schema p.input_data) 0) 422) _ end
                    h₅
                    (λ u₂ valid h₆.
                      after
                        (require
                          (eqb (out.library.config_errors v.config_schema v.default_config) 0) 422)
                        _ end h₆
                        (λ _ _ h₇.
                          let (here, _) = flow_or_404-answer d.flows group flow_id f found in
                          let (stored, fits) =
                            find?-some
                              (is_version group f.id
                                (version_wanted p.version_number f.current_version))
                              v d.flows.versions (found_or-answer 404 _ v version) in
                          let made =
                            create_run_projection-IsStarted now keys group f v (manual_order v p)
                              d.tables d'.tables r fresh keyed h₇ in
                          (
                            f,
                            v,
                            may,
                            here,
                            stored,
                            (eq_iff v.flow_id f.id).0 (ground arith),
                            (eq_iff v.group_id group).0 (ground arith),
                            rw
                                ((eqb_iff v.version_number
                                    (version_wanted p.version_number f.current_version)).0
                                  (ground arith))
                                (version_wanted-IsWanted p.version_number f.current_version),
                            (eqb_iff _ 0).0 (require-answer _ 422 u₂ valid),
                            ap (λ x. x.trigger_type) made.row,
                            Starts-of_started now keys group f v (manual_order v p) d d' r
                                (is_active-lem f.status (require-answer _ 409 u₁ active)) made
                                request,
                          ))))))))

  -- Under new keys, a run that `rerun_run` answers is one that the user may execute, of an active flow:
  -- it has the flow, the version, the input and the configuration of the run it repeats, names it as
  -- its parent, is pending with no output, is stored with a pending row for every node and requested
  -- like a new run; the row of the run it repeats stays as it was.
  pub rerun_run-Starts :
      (run_id : String) (r : FlowRun) (d' : Desk)
      → rerun_run out now user group d keys run_id ≡ (answer r, d')
      → (original : FlowRun) × (f : FlowDefinition) × (v : FlowVersion) × (require_execute
            d.flows.access user group
          ≡ answer tt)
        × (run_at d.tables run_id ≡ some original)
        × (original.group_id ≡ group)
        × (flow_at d.flows original.flow_id ≡ some f)
        × (row_at (λ x. x.id) original.flow_version_id d.flows.versions ≡ some v)
        × (r.parent_run_id ≡ some original.id)
        × (r.trigger_type ≡ RunTriggerType.rerun)
        × Starts now keys group f v original.input_data original.flow_config d d' r
        × (run_at d'.tables run_id ≡ some original)
  unfolding rerun_run prepared_rerun
  rerun_run-Starts run_id r d' h =
      let (ok, request, _, _) =
        launched out d d' r (prepared_rerun out now user group d keys run_id) h in
      let end : Store × FlowRun = (d'.tables, r) in
      after (require_execute d.flows.access user group) _ end ok (λ _ may h₁.
        after (run_or_404 d.tables group run_id) _ end h₁ (λ original found h₂.
          after (found_or 500 (flow_at d.flows original.flow_id)) _ end h₂ (λ f flow h₃.
            after (require (is_active f.status) 409) _ end h₃ (λ u₁ active h₄.
              after (found_or 500 (row_at (λ x. x.id) original.flow_version_id d.flows.versions)) _
                end h₄
                (λ v version h₅.
                  let (here, mine) = run_or_404-answer d.tables group run_id original found in
                  let made =
                    create_run_projection-IsStarted now keys group f v (rerun_order original)
                      d.tables d'.tables r fresh keyed h₅ in
                  (
                    original,
                    f,
                    v,
                    may,
                    here,
                    mine,
                    found_or-answer 500 _ f flow,
                    found_or-answer 500 _ v version,
                    ap (λ x. x.parent_run_id) made.row,
                    ap (λ x. x.trigger_type) made.row,
                    Starts-of_started now keys group f v (rerun_order original) d d' r
                        (is_active-lem f.status (require-answer _ 409 u₁ active)) made request,
                    made.kept run_id original here,
                  ))))))
