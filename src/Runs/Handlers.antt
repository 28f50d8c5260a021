-- ===== src/Runs/Handlers.antt =====
-- `create_run`, `rerun_run`, `cancel_run` and `resume_node` of app/group_api.py. What was committed
-- stays when a later step raises, so each answers a response and the state after it.
use flow_demo.Base.{
  ℕ, zero, suc, String, Bool, true, not, ◌&&◌, Option, none, some, List, [], ◌∷◌, ◌++◌, find?, ◌==◌,
  eqb, ltb, if◌then◌else◌,
}
use flow_demo.Json.{Fields, str, obj, field, end}
use flow_demo.Enums.{RunStatus, RunTriggerType, ApprovalTaskStatus, is_active}
use flow_demo.Http.{Response, answer, http_error, require, found_or, ◌>>=◌, ◌>>◌}
use flow_demo.Models.Identity.{User, ApprovalTask}
use flow_demo.Models.Flows.{FlowVersion}
use flow_demo.Models.Runs.{FlowRun, FlowEvent}
use flow_demo.Permissions.{require_execute, require_approve_task}
use flow_demo.Table.{row_at, save}
use flow_demo.Flows
use flow_demo.Flows.{Library, flow_at, flow_or_404}
use flow_demo.Callback.Store.{Store, run_at, save_run}
use flow_demo.Runs.{Keys, Order, create_run_projection}

-- what the handlers ask of Temporal
pub data Request : Type 0 where
  start_workflow : FlowRun → Request
  cancel_workflow : String → Request
  resume_manual : String → Fields → Request

-- the tables, and the requests that Temporal took
pub record Desk : Type 0 where
  pub flows : Flows.Store
  pub tables : Store
  pub requests : List Request

-- the libraries of the flows, the number of errors that `jsonschema` has for an input, and whether
-- Temporal takes a request
pub record Outside : Type 0 where
  pub library : Library
  pub input_errors : Fields → Fields → ℕ
  pub accepts : Request → Bool

-- `RunCreate` and `NodeResume`
pub record RunCreate : Type 0 where
  pub input_data : Fields
  pub version_number : Option ℕ

pub record NodeResume : Type 0 where
  pub decision : String
  pub comment : String
  pub content : Fields

-- `_run_or_404`
abbrev pub run_in_group : String → Option FlowRun → Response FlowRun
run_in_group group none = http_error 404
run_in_group group (some r) = if r.group_id == group then answer r else http_error 404

unfoldable pub run_or_404 : Store → String → String → Response FlowRun
run_or_404 s group id = run_in_group group (run_at s id)

-- the steps before the first commit, and what follows
abbrev pub guarded {ℓ} :
    {A : Type ℓ} {B : Type 0} → Desk → Response A → (A → Response B × Desk) → Response B × Desk
guarded d (answer a) f = f a
guarded d (http_error e) f = (http_error e, d)

-- a request, and what the handler answers if Temporal takes it
abbrev pub asked : {B : Type 0} → Outside → Request → Response B → Desk → Response B × Desk
asked out r a d =
    if out.accepts r
    then (a, record d { requests = d.requests ++ (r ∷ []) })
    else (http_error 500, d)

-- the commit and `_start_temporal_run`
abbrev pub launch : Outside → Desk → Store × FlowRun → Response FlowRun × Desk
launch out d (s, r) = asked out (start_workflow r) (answer r) (record d { tables = s })

-- `payload.version_number or flow.current_version`
abbrev pub version_wanted : Option ℕ → ℕ → ℕ
version_wanted none n = n
version_wanted (some zero) n = n
version_wanted (some (suc k)) n = suc k

abbrev pub is_version : String → String → ℕ → FlowVersion → Bool
is_version group flow number v =
    v.group_id == group && v.flow_id == flow && eqb v.version_number number

abbrev pub manual_order : FlowVersion → RunCreate → Order
manual_order v p = record {
  input_data = p.input_data;
  flow_config = v.default_config;
  trigger_type = RunTriggerType.manual;
  trigger_id = none;
  parent_run_id = none;
  source_metadata = end;
}

abbrev pub rerun_order : FlowRun → Order
rerun_order r = record {
  input_data = r.input_data;
  flow_config = r.flow_config;
  trigger_type = RunTriggerType.rerun;
  trigger_id = some r.id;
  parent_run_id = some r.id;
  source_metadata = field "sourceRunId" (str r.id) end;
}

-- a run after `cancel_run`
abbrev pub cancelled_run : ℕ → FlowRun → FlowRun
cancelled_run now r = record r {
  cancel_requested = true;
  status = RunStatus.cancelled;
  finished_at = some now;
}

abbrev cancel_event : ℕ → String → FlowRun → FlowEvent
cancel_event now group r = record {
  group_id = some group;
  flow_run_id = r.id;
  node_id = none;
  event_type = "RUN_CANCEL_REQUESTED";
  payload = field "status" (str "CANCELLED") end;
  created_at = now;
}

abbrev is_task : String → String → ApprovalTask → Bool
is_task run node t = t.flow_run_id == run && t.node_id == node

-- a task after the decision of a person
abbrev pub decided : ℕ → User → NodeResume → ApprovalTask → ApprovalTask
decided now user p t = record t {
  status =
      if p.decision == "REJECTED" then ApprovalTaskStatus.rejected else ApprovalTaskStatus.approved;
  decision = some p.decision;
  comment = p.comment;
  decided_by_user_id = some user.id;
  decided_at = some now;
}

abbrev pub task_of : Store → String → String → Option ApprovalTask
task_of s run node = find? (is_task run node) s.tasks

-- `_start_temporal_run` needs no workflow id, the two others do
abbrev pub attached :
    Outside
    → Option String
    → (String → Request)
    → FlowRun
    → Response FlowRun
    → Desk
    → Response FlowRun × Desk
attached out none f r without d = (without, d)
attached out (some id) f r without d =
    if id == "" then (without, d) else asked out (f id) (answer r) d

abbrev pub resume_fields : String → NodeResume → Fields
resume_fields node p = field "node_id" (str node) (
    field "decision" (str p.decision)
      (field "comment" (str p.comment) (field "data" (obj p.content) end)))

module _ (out : Outside) (now : ℕ) (user : User) (group : String) (d : Desk) where
  -- the steps of `create_run` up to the run's rows
  unfoldable pub prepared_run : Keys → String → RunCreate → Response (Store × FlowRun)
  unfolding require_execute flow_or_404 create_run_projection
  prepared_run keys flow_id p = do
    require_execute d.flows.access user group
    f ← flow_or_404 d.flows group flow_id
    require (not (ltb f.current_version 1)) 409
    require (is_active f.status) 409
    v ← found_or 404 (
        find? (is_version group f.id (version_wanted p.version_number f.current_version))
          d.flows.versions)
    require (eqb (out.input_errors v.input_schema p.input_data) 0) 422
    require (eqb (out.library.config_errors v.config_schema v.default_config) 0) 422
    create_run_projection now keys group f v (manual_order v p) d.tables

  unfoldable pub create_run : Keys → String → RunCreate → Response FlowRun × Desk
  unfolding prepared_run
  create_run keys flow_id p = guarded d (prepared_run keys flow_id p) (launch out d)

  -- the steps of `rerun_run` up to the rows; a run's flow and version are foreign keys
  unfoldable pub prepared_rerun : Keys → String → Response (Store × FlowRun)
  unfolding require_execute run_or_404 create_run_projection
  prepared_rerun keys run_id = do
    require_execute d.flows.access user group
    original ← run_or_404 d.tables group run_id
    f ← found_or 500 (flow_at d.flows original.flow_id)
    require (is_active f.status) 409
    v ← found_or 500 (row_at (λ x. x.id) original.flow_version_id d.flows.versions)
    create_run_projection now keys group f v (rerun_order original) d.tables

  unfoldable pub rerun_run : Keys → String → Response FlowRun × Desk
  unfolding prepared_rerun
  rerun_run keys run_id = guarded d (prepared_rerun keys run_id) (launch out d)

  abbrev cancel_found : FlowRun → Response FlowRun × Desk
  cancel_found r =
      let r' = cancelled_run now r in
      let saved = save_run r' d.tables in
      let s = record saved { events = saved.events ++ (cancel_event now group r' ∷ []) } in
      attached out r'.temporal_workflow_id cancel_workflow r' (answer r') (record d { tables = s })

  unfoldable pub cancel_run : String → Response FlowRun × Desk
  unfolding require_execute run_or_404 save_run
  cancel_run run_id =
      guarded d (require_execute d.flows.access user group >> run_or_404 d.tables group run_id)
        cancel_found

  -- the check of the permission and, where there is a task, the decision, which is committed
  abbrev pub decide : NodeResume → Option ApprovalTask → Response Desk
  decide p none = require_execute d.flows.access user group >>= λ _. answer d
  decide p (some t) = require_approve_task d.flows.access user t >>= λ _. answer (record d {
    tables = record d.tables { tasks = save (λ x. x.id) (decided now user p t) d.tables.tasks };
  })

  unfoldable pub resume_node : String → String → NodeResume → Response FlowRun × Desk
  unfolding require_execute require_approve_task run_or_404 save
  resume_node run_id node_id p = guarded d (run_or_404 d.tables group run_id) (λ r.
      guarded d (decide p (task_of d.tables r.id node_id)) (λ e.
        attached out r.temporal_workflow_id (λ id. resume_manual id (resume_fields node_id p)) r
          (http_error 409) e))
