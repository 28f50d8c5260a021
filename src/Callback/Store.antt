-- ===== src/Callback/Store.antt =====
-- The tables that app/callback_api.py and app/temporal/activities.py read and write, the signals
-- sent to Temporal, and the events of app/events.py.
use flow_demo.Base.{ℕ, String, Option, none, some, List, [], ◌∷◌, ◌++◌, find?, ◌==◌, eqb, ◌&&◌}
use flow_demo.Json.{Json, Fields}
use flow_demo.Models.Runs.{
  FlowRun, NodeRun, CallbackWait, NodeRunAttempt, FlowEvent, FlowRunVariable,
}
use flow_demo.Models.Identity.{ApprovalTask, ApprovalGroup}
use flow_demo.Table.{row_at, save}
use flow_demo.Callback.Auth.{Vault}

-- the signal `receive_callback` to a workflow, with its data
pub record Signal : Type 0 where
  pub workflow_id : String
  pub node_id : String
  pub callback_id : String
  pub payload : Json

pub record Store : Type 0 where
  pub runs : List FlowRun
  pub node_runs : List NodeRun
  pub attempts : List NodeRunAttempt
  pub waits : List CallbackWait
  pub events : List FlowEvent
  pub vault : Vault
  pub tasks : List ApprovalTask
  pub approval_groups : List ApprovalGroup
  pub variables : List FlowRunVariable
  pub signals : List Signal

abbrev pub run_at : Store → String → Option FlowRun
run_at s k = row_at (λ r. r.id) k s.runs

abbrev pub node_run_at : Store → String → Option NodeRun
node_run_at s k = row_at (λ r. r.id) k s.node_runs

abbrev pub wait_at : Store → String → Option CallbackWait
wait_at s k = row_at (λ r. r.id) k s.waits

abbrev group_of : Option FlowRun → Option String
group_of none = none
group_of (some run) = some run.group_id

-- `emit_event`, at the time `now`
unfoldable pub emit_event : ℕ → String → String → Fields → Option String → Store → Store
emit_event now run_id event_type payload node_id s = record s {
  events =
      s.events
      ++ (record {
        group_id = group_of (run_at s run_id);
        flow_run_id = run_id;
        node_id = node_id;
        event_type = event_type;
        payload = payload;
        created_at = now;
      }
          ∷ []);
}

unfoldable pub save_wait : CallbackWait → Store → Store
unfolding save
save_wait w s = record s { waits = save (λ r. r.id) w s.waits }

unfoldable pub save_node_run : NodeRun → Store → Store
unfolding save
save_node_run n s = record s { node_runs = save (λ r. r.id) n s.node_runs }

unfoldable pub save_run : FlowRun → Store → Store
unfolding save
save_run r s = record s { runs = save (λ x. x.id) r s.runs }

unfoldable pub save_attempt : NodeRunAttempt → Store → Store
unfolding save
save_attempt a s = record s { attempts = save (λ x. x.id) a s.attempts }

-- the attempt that a wait belongs to
abbrev pub attempt_of : Store → String → ℕ → Option NodeRunAttempt
attempt_of s node_run n =
    find? (λ a. a.node_run_id == node_run && eqb a.attempt_number n) s.attempts

unfoldable pub send : Signal → Store → Store
send signal s = record s { signals = s.signals ++ (signal ∷ []) }
