-- ===== src/Runs.antt =====
-- The runs of app/group_api.py: starting, running again, cancelling, and the decision of a person.
pub mod Handlers
pub mod Rows
pub mod Started
pub mod Decisions
use Prim.Native.String
use flow_demo.Base.{
  ℕ, suc, ◌+◌, String, Bool, true, false, ◌&&◌, not, Option, none, some, List, [], ◌∷◌, ◌++◌, find?,
  ◌==◌, eqb, ltb, if◌then◌else◌,
}
use flow_demo.Base.Int.{pos}
use flow_demo.Json.{Json, Fields, str, num, end, field}
use flow_demo.Enums.{RunStatus, NodeRunStatus, RunTriggerType}
use flow_demo.Content.{FlowNodeData, FlowNode}
use flow_demo.Http.{Response, answer, http_error, ◌>>=◌}
use flow_demo.Models.Flows.{FlowDefinition, FlowVersion}
use flow_demo.Models.Runs.{FlowRun, NodeRun, FlowEvent}
use flow_demo.Workflow.Engine.{config_int, clamp}
use flow_demo.Callback.Store.{Store}

-- `get_node_execution_kind` on a type and a version: whether it is "durable_poll", or none where the
-- type is not registered, which raises; and the keys of new rows
pub record Keys : Type 0 where
  pub is_poll : String → String → Option Bool
  pub run_key : String
  pub node_key : ℕ → String

-- the arguments of `_create_run_projection`
pub record Order : Type 0 where
  pub input_data : Fields
  pub flow_config : Fields
  pub trigger_type : RunTriggerType
  pub trigger_id : Option String
  pub parent_run_id : Option String
  pub source_metadata : Fields

abbrev pub new_run : ℕ → Keys → String → FlowDefinition → FlowVersion → Order → FlowRun
new_run now keys group f v o = record {
  id = keys.run_key;
  group_id = group;
  flow_id = f.id;
  flow_version_id = v.id;
  status = RunStatus.pending;
  input_data = o.input_data;
  flow_config = o.flow_config;
  output_data = none;
  error_message = none;
  cancel_requested = false;
  trigger_type = o.trigger_type;
  trigger_id = o.trigger_id;
  parent_run_id = o.parent_run_id;
  idempotency_key = none;
  source_metadata = o.source_metadata;
  temporal_workflow_id = some (String.◌++◌ group (String.◌++◌ ":" keys.run_key));
  requested_at = now;
  created_at = now;
  started_at = none;
  finished_at = none;
}

-- the limit of a node's attempts; an unknown type, or a text that is no number, raises
unfoldable pub node_attempts : Keys → FlowNodeData → Option ℕ
node_attempts keys d = elim (keys.is_poll d.node_type d.node_version) [
  | none ↦ none
  | some true ↦ elim (config_int "maxPolls" 60 d.config) [
    | none ↦ none
    | some n ↦ some (clamp 1000 n)
  ]
  | some false ↦ elim (config_int "maxAttempts" 1 d.config) [
    | none ↦ none
    | some n ↦ some (clamp 5 n)
  ]
]

abbrev pub new_node : ℕ → Keys → ℕ → FlowNode → ℕ → NodeRun
new_node now keys i n most = record {
  id = keys.node_key i;
  flow_run_id = keys.run_key;
  node_id = n.id;
  node_type = n.content.node_type;
  node_version = n.content.node_version;
  status = NodeRunStatus.pending;
  config = n.content.config;
  input_data = none;
  output_data = none;
  attempts = 0;
  max_attempts = most;
  available_at = now;
  error_message = none;
  started_at = none;
  finished_at = none;
}

abbrev pub cons_node :
    ℕ → Keys → ℕ → FlowNode → Option ℕ → Option (List NodeRun) → Option (List NodeRun)
cons_node now keys i n (some most) (some rest) = some (new_node now keys i n most ∷ rest)
cons_node now keys i n _ _ = none

-- the `for` of `_create_run_projection`, from the i-th node on
unfoldable pub node_runs : ℕ → Keys → ℕ → List FlowNode → Option (List NodeRun)
unfolding node_attempts
node_runs now keys i [] = some []
node_runs now keys i (n ∷ ns) =
    cons_node now keys i n (node_attempts keys n.content) (node_runs now keys (suc i) ns)

abbrev created : ℕ → String → FlowVersion → FlowRun → FlowEvent
created now group v r = record {
  group_id = some group;
  flow_run_id = r.id;
  node_id = none;
  event_type = "RUN_CREATED";
  payload = field "status" (str "PENDING") (field "version" (num (pos v.version_number)) end);
  created_at = now;
}

abbrev with_nodes :
    ℕ → String → FlowVersion → FlowRun → Store → Option (List NodeRun) → Response (Store × FlowRun)
with_nodes now group v r s none = http_error 500
with_nodes now group v r s (some ns) = answer (
  record s {
    runs = s.runs ++ (r ∷ []);
    node_runs = s.node_runs ++ ns;
    events = s.events ++ (created now group v r ∷ []);
  },
  r,
)

-- `_create_run_projection`
unfoldable pub create_run_projection :
    ℕ → Keys → String → FlowDefinition → FlowVersion → Order → Store → Response (Store × FlowRun)
unfolding node_runs
create_run_projection now keys group f v o s =
    with_nodes now group v (new_run now keys group f v o) s (node_runs now keys 0 v.content.nodes)
