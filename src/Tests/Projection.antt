-- ===== src/Tests/Projection.antt =====
-- A run of two nodes under the server, and what the tables show of it.
use flow_demo.Base.{ℕ, ◌+◌, String, true, false, none, some, [], ◌∷◌, ◌≡◌, refl, inl, inr, In}
use flow_demo.Json.{Json, str, obj, end, field, get, put}
use flow_demo.Enums.{RunStatus, NodeRunStatus, RunTriggerType}
use flow_demo.Content.{FlowContent, keys, node_at}
use flow_demo.Models.Runs.{FlowRun, NodeRun}
use flow_demo.Redaction.{redact, is_sensitive}
use flow_demo.Workflow.Activities.{ok}
use flow_demo.Workflow.Engine.{
  terminal_success, Sched, incoming, active_edge, collect_inputs, max_attempts, start,
}
use flow_demo.Workflow.Sorted.{sorted}
use flow_demo.Workflow.Run.{
  Outcome, succeeded, execute_node, poll, visit, pass, rounds, after_pass, run,
}
use flow_demo.Callback.Store.{run_at}
use flow_demo.Projection.World.{World, Services, output}
use flow_demo.Projection.Server.{server}
use flow_demo.Projection.Execute.{execute_once}
use flow_demo.Projection.Rows.{IsIntact}
use flow_demo.Projection.Executed.{IsShown}
use flow_demo.Projection.Served.{IsQuiet}
use flow_demo.Projection.Refined.{run-IsShown}
use flow_demo.Samples.{node, edge, no_crypto, texts}

abbrev line : FlowContent
line = record {
  schema_version = 1;
  nodes = node "a" "start" ∷ node "b" "end" ∷ [];
  edges = edge "e" "a" "b" "out" ∷ [];
}

-- handlers that answer the kind of the node
abbrev services : Services ℕ
services = record {
  now = λ t. t;
  new_id = λ t. "attempt";
  isoformat = λ t. "";
  texts = texts;
  failure_text = λ e. "Activity task failed";
  crypto = no_crypto;
  callback_base_url = "";
  resolve = λ d templates. ok d;
  config_errors = λ version d. [];
  handle = λ n inputs config w. (
    ok (output (field "kind" (str n.node_type) (field "token" (str "s3cret") end))),
    record { variables = w.store.variables; events = w.store.events },
    w.outside + 1,
  );
  others = λ w. w;
  await_manual = λ j w. (end, w);
  await_callback = λ j w. (end, w);
}

abbrev node_run : String → String → String → NodeRun
node_run i j kind = record {
  id = i;
  flow_run_id = "r";
  node_id = j;
  node_type = kind;
  node_version = "1.0";
  status = NodeRunStatus.pending;
  config = end;
  input_data = none;
  output_data = none;
  attempts = 0;
  max_attempts = 1;
  available_at = 0;
  error_message = none;
  started_at = none;
  finished_at = none;
}

abbrev world : World ℕ
world = record {
  store = record {
    runs =
        record {
          id = "r";
          group_id = "g";
          flow_id = "f";
          flow_version_id = "v";
          status = RunStatus.pending;
          input_data = end;
          flow_config = end;
          output_data = none;
          error_message = none;
          cancel_requested = false;
          trigger_type = RunTriggerType.manual;
          trigger_id = none;
          parent_run_id = none;
          idempotency_key = none;
          source_metadata = end;
          temporal_workflow_id = none;
          requested_at = 0;
          created_at = 0;
          started_at = none;
          finished_at = none;
        }
        ∷ [];
    node_runs = node_run "" "a" "start" ∷ node_run "2" "b" "end" ∷ [];
    attempts = [];
    waits = [];
    events = [];
    vault = record { credentials = []; revisions = [] };
    tasks = [];
    approval_groups = [];
    variables = [];
    signals = [];
  };
  outside = 7;
}

abbrev result : Outcome (World ℕ)
result = run (server services 0) 5 "r" line end world

abbrev world_of : Outcome (World ℕ) → World ℕ
world_of (succeeded o s w) = w
world_of _ = world

abbrev sched_of : Outcome (World ℕ) → Sched
sched_of (succeeded o s w) = s
sched_of _ = start

-- the token is redacted before it is passed on
abbrev answer_b : Json
answer_b = obj (field "kind" (str "end") (field "token" (str "[REDACTED]") end))

engine : Unit {0}
unfolding run rounds pass visit after_pass execute_node poll keys node_at incoming active_edge
    collect_inputs sorted max_attempts server execute_once redact is_sensitive get put
engine = tt

ran : result ≡ succeeded answer_b (sched_of result) (world_of result)
unfolding engine
ran = refl

quiet : IsQuiet services
quiet = record {
  others = λ w. (refl, refl);
  manual = λ j w. (refl, refl);
  callback = λ j w. (refl, refl);
}

keyed_rows :
    (x y : NodeRun)
    → In x world.store.node_runs
    → In y world.store.node_runs
    → x.id ≡ y.id
    → x.node_id ≡ y.node_id
keyed_rows x y (inl a) (inl b) e = rw (a, b) refl
keyed_rows x y (inl a) (inr (inl b)) e = (let bad : ◌≡◌ {A = String} "" "2" = rw (a, b) at e in cc)
keyed_rows x y (inr (inl a)) (inl b) e = (let bad : ◌≡◌ {A = String} "2" "" = rw (a, b) at e in cc)
keyed_rows x y (inr (inl a)) (inr (inl b)) e = rw (a, b) refl
keyed_rows x y (inr (inr a)) my e = absurd a
keyed_rows x y mx (inr (inr b)) e = absurd b

intact : IsIntact "r" line world.store
unfolding engine
intact = record {
  run = (_, refl);
  nodes = λ j m. (elim m [
    | inl e ↦ (node_run "" "a" "start", rw e refl)
    | inr rest ↦ elim rest [ inl e ↦ (node_run "2" "b" "end", rw e refl) | inr bad ↦ absurd bad ]
  ]);
  keyed = λ x y mx my e. keyed_rows x y mx my e;
}

b_known : In "b" (keys line.nodes)
unfolding keys
b_known = inr (inl refl)

run-IsShown_example :
    ((r : FlowRun) × (run_at (world_of result).store "r" ≡ some r)
      × (r.status ≡ RunStatus.success)
      × (r.output_data ≡ some answer_b)
      × (r.finished_at ≡ some (services.now (world_of result).outside)))
    × (terminal_success ((sched_of result).statuses "b") ≡ true)
    × IsShown "r" line "b"
        ((sched_of result).statuses "b")
        ((sched_of result).outputs "b")
        (world_of result).store
run-IsShown_example =
    run-IsShown services 0 5 "r" line end world (world_of result) answer_b (sched_of result) "b"
      quiet intact ran b_known
