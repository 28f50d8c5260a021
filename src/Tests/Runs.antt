-- ===== src/Tests/Runs.antt =====
-- A run that is started, a run that is started again, and a node that is resumed.
use flow_demo.Base.{
  ℕ, zero, suc, String, true, false, none, some, [], ◌∷◌, In, ◌≡◌, ◌≢◌, refl, ap, inl, inr, ◌==◌,
  eq_iff, arith,
}
use flow_demo.Json.{str, end, field, get}
use flow_demo.Enums.{FlowStatus, RunStatus, RunTriggerType}
use flow_demo.Content.{FlowContent, keys}
use flow_demo.Http.{Response, answer, http_error}
use flow_demo.Models.Identity.{User}
use flow_demo.Models.Flows.{FlowDefinition, FlowVersion}
use flow_demo.Models.Runs.{FlowRun, NodeRun}
use flow_demo.Permissions.{require_execute}
use flow_demo.Table.{row_at}
use flow_demo.Flows.{flow_at}
use flow_demo.Callback.Store.{Store, run_at}
use flow_demo.Runs.{Keys}
use flow_demo.Runs.Rows.{IsFresh, IsKeyed}
use flow_demo.Runs.Handlers.{
  Desk, Outside, RunCreate, NodeResume, create_run, rerun_run, resume_node,
}
use flow_demo.Runs.Started.{IsWanted, Starts, create_run-Starts, rerun_run-Starts}
use flow_demo.Runs.Decisions.{IsResume, resume_node-IsResume}
use flow_demo.Samples.{node, edge, ports}

abbrev root : User
root = record {
  id = "u";
  username = "root";
  password_hash = "";
  display_name = "Root";
  is_super_admin = true;
  enabled = true;
  created_at = 0;
  updated_at = 0;
}

abbrev line : FlowContent
line = record {
  schema_version = 1;
  nodes = node "a" "start" ∷ node "b" "end" ∷ [];
  edges = edge "e" "a" "b" "out" ∷ [];
}

abbrev flow : FlowDefinition
flow = record {
  id = "f";
  group_id = "g";
  name = "Flow";
  description = "";
  status = FlowStatus.active;
  draft_content = line;
  input_schema = end;
  config_schema = end;
  default_config = end;
  current_version = 1;
  row_version = 1;
  created_at = 0;
  updated_at = 0;
}

abbrev version : FlowVersion
version = record {
  id = "v";
  group_id = "g";
  flow_id = "f";
  version_number = 1;
  content = line;
  input_schema = end;
  config_schema = end;
  default_config = end;
  node_registry_fingerprint = "1";
  created_at = 0;
}

abbrev tables : Store
tables = record {
  runs = [];
  node_runs = [];
  attempts = [];
  waits = [];
  events = [];
  vault = record { credentials = []; revisions = [] };
  tasks = [];
  approval_groups = [];
  variables = [];
  signals = [];
}

abbrev desk : Desk
desk = record {
  flows = record {
    access = record { members = []; approvers = [] };
    flows = flow ∷ [];
    versions = version ∷ [];
    credentials = [];
  };
  tables = tables;
  requests = [];
}

abbrev outside : Outside
outside = record {
  library = record {
    input_schema_errors = λ d. 0;
    config_errors = λ d v. 0;
    strip_lower = λ s. s;
    registry = ports;
    fingerprint = "1";
  };
  input_errors = λ schema d. 0;
  accepts = λ r. true;
}

ticks : ℕ → String
ticks zero = ""
ticks (suc n) = String.◌∷◌ "x" (ticks n)

ticks-inj : (a b : ℕ) → ticks a ≡ ticks b → a ≡ b
unfolding ticks
ticks-inj zero zero h = refl
ticks-inj zero (suc b) h = cc
ticks-inj (suc a) zero h = cc
ticks-inj (suc a) (suc b) h = (let rest : ticks a ≡ ticks b = cc in ap suc (ticks-inj a b rest))

abbrev first_keys : Keys
first_keys = record { is_poll = λ t v. some false; run_key = "r1"; node_key = ticks }

abbrev next_keys : Keys
next_keys = record {
  is_poll = λ t v. some false;
  run_key = "r2";
  node_key = λ i. ticks (suc (suc i));
}

abbrev order : RunCreate
order = record { input_data = field "n" (str "1") end; version_number = none }

computed : Unit {0}
unfolding create_run rerun_run resume_node keys ticks get
computed = tt

abbrev started : Response FlowRun × Desk
started = create_run outside 5 root "g" desk first_keys "f" order

abbrev run_of : Response FlowRun × Desk → FlowRun → FlowRun
run_of (answer r, d) o = r
run_of (http_error e, d) o = o

abbrev first_run : FlowRun
first_run = run_of started (record {
  id = "";
  group_id = "";
  flow_id = "";
  flow_version_id = "";
  status = RunStatus.pending;
  input_data = end;
  flow_config = end;
  output_data = none;
  error_message = none;
  cancel_requested = false;
  trigger_type = RunTriggerType.manual;
  trigger_id = none;
  parent_run_id = none;
  idempotency_key = none;
  source_metadata = end;
  temporal_workflow_id = none;
  requested_at = 0;
  created_at = 0;
  started_at = none;
  finished_at = none;
})

ran : started ≡ (answer first_run, started.1)
unfolding computed
ran = refl

fresh : IsFresh first_keys tables
fresh = record {
  run = refl;
  owner = λ n m. absurd m;
  node = λ n i m. absurd m;
  distinct = ticks-inj;
}

keyed : IsKeyed tables.node_runs
unfolding IsKeyed
keyed = λ x y mx my e. absurd mx

create_run-Starts_example :
    (f : FlowDefinition) × (v : FlowVersion) × (require_execute desk.flows.access root "g"
      ≡ answer tt)
    × (flow_at desk.flows "f" ≡ some f)
    × In v desk.flows.versions
    × (v.flow_id ≡ f.id)
    × (v.group_id ≡ "g")
    × IsWanted none f.current_version v.version_number
    × (outside.input_errors v.input_schema order.input_data ≡ 0)
    × (first_run.trigger_type ≡ RunTriggerType.manual)
    × Starts 5 first_keys "g" f v order.input_data v.default_config desk started.1 first_run
create_run-Starts_example =
    create_run-Starts outside 5 root "g" desk first_keys fresh keyed "f" order first_run started.1
      ran

abbrev again : Response FlowRun × Desk
again = rerun_run outside 9 root "g" started.1 next_keys "r1"

ran_again : again ≡ (answer (run_of again first_run), again.1)
unfolding computed
ran_again = refl

later_keys : (n : NodeRun) (i : ℕ) → In n started.1.tables.node_runs → n.id ≢ next_keys.node_key i
unfolding computed
later_keys n i (inl a) e = (let same = ticks-inj 0 (suc (suc i)) (rw a at e) in cc)
later_keys n i (inr (inl a)) e =
    (let same = ticks-inj 1 (suc (suc i)) (rw a at e) in omega (arith, same))
later_keys n i (inr (inr a)) e = absurd a

first_not_next : ◌≢◌ {A = String} "r1" "r2"
first_not_next e = (let bad : ("r1" == "r2") ≡ true = (eq_iff "r1" "r2").1 e in cc)

owned : (n : NodeRun) → In n started.1.tables.node_runs → n.flow_run_id ≢ "r2"
unfolding computed
owned n (inl a) e = first_not_next (rw a at e)
owned n (inr (inl a)) e = first_not_next (rw a at e)
owned n (inr (inr a)) e = absurd a

next_fresh : IsFresh next_keys started.1.tables
unfolding computed
next_fresh = record {
  run = refl;
  owner = owned;
  node = later_keys;
  distinct = λ a b e. (let same = ticks-inj (suc (suc a)) (suc (suc b)) e in omega (arith, same));
}

IsKeyed-rows : IsKeyed started.1.tables.node_runs
unfolding computed IsKeyed
IsKeyed-rows x y (inl a) (inl b) e = rw (a, b) refl
IsKeyed-rows x y (inl a) (inr (inl b)) e =
    (let bad : ◌≡◌ {A = String} "" (String.◌∷◌ "x" "") = rw (a, b) at e in cc)
IsKeyed-rows x y (inr (inl a)) (inl b) e =
    (let bad : ◌≡◌ {A = String} (String.◌∷◌ "x" "") "" = rw (a, b) at e in cc)
IsKeyed-rows x y (inr (inl a)) (inr (inl b)) e = rw (a, b) refl
IsKeyed-rows x y (inr (inr a)) my e = absurd a
IsKeyed-rows x y mx (inr (inr b)) e = absurd b

rerun_run-Starts_example :
    (original : FlowRun) × (f : FlowDefinition) × (v : FlowVersion) × (require_execute
        started.1.flows.access root "g"
      ≡ answer tt)
    × (run_at started.1.tables "r1" ≡ some original)
    × (original.group_id ≡ "g")
    × (flow_at started.1.flows original.flow_id ≡ some f)
    × (row_at (λ x. x.id) original.flow_version_id started.1.flows.versions ≡ some v)
    × ((run_of again first_run).parent_run_id ≡ some original.id)
    × ((run_of again first_run).trigger_type ≡ RunTriggerType.rerun)
    × Starts 9 next_keys "g" f v original.input_data original.flow_config started.1 again.1
        (run_of again first_run)
    × (run_at again.1.tables "r1" ≡ some original)
rerun_run-Starts_example =
    rerun_run-Starts outside 9 root "g" started.1 next_keys next_fresh IsKeyed-rows "r1"
      (run_of again first_run) again.1 ran_again

abbrev approve : NodeResume
approve = record { decision = "APPROVED"; comment = ""; content = end }

resume_node-IsResume_example :
    IsResume outside 7 root "g" started.1 "r1" "a" approve
      (resume_node outside 7 root "g" started.1 "r1" "a" approve)
resume_node-IsResume_example = resume_node-IsResume outside 7 root "g" started.1 "r1" "a" approve
