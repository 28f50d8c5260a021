-- ===== src/Projection/World.antt =====
-- What the activities act on, `_emit` and `_load_run_and_node` of app/temporal/activities.py.
use Prim.Native.String
use flow_demo.Base.{
  ◌≡◌, refl, ℕ, String, Bool, ◌&&◌, Option, none, some, List, [], ◌∷◌, ◌++◌, find?, ◌==◌,
}
use flow_demo.Json.{Json, Fields}
use flow_demo.Models.Runs.{FlowRun, NodeRun, FlowRunVariable, FlowEvent}
use flow_demo.Redaction.{redact, redact_fields}
use flow_demo.Workflow.Activities.{Result, ok, err}
use flow_demo.Callback.Auth.{Crypto}
use flow_demo.Callback.Create.{Texts}
use flow_demo.Callback.Store.{Store, run_at}

-- the tables, and everything else that exists: the clock, the network, random numbers
pub record World (E : Type 0) : Type 0 where
  pub store : Store
  pub outside : E

-- what a handler returns: its output, or PollPending
pub data Handled : Type 0 where
  output : Fields → Handled
  pending : ℕ → Fields → Handled

-- what a handler may change in the tables
pub record Effects : Type 0 where
  pub variables : List FlowRunVariable
  pub events : List FlowEvent

-- The parts that the activities call: the node handlers, `resolve_templates` on a dictionary (which
-- gives a dictionary), the messages of jsonschema for a configuration
-- under the schema of a flow version, and of Python the clock, new keys, texts and the
-- text functions; and what others do while the workflow waits: for a signal, or for a repeated try.
pub record Services (E : Type 0) : Type 0 where
  pub now : E → ℕ
  pub new_id : E → String
  pub isoformat : ℕ → String
  pub texts : Texts
  pub failure_text : String → String
  pub crypto : Crypto
  pub callback_base_url : String
  pub resolve : Fields → Fields → Result Fields
  pub config_errors : String → Fields → List String
  pub handle : NodeRun → Json → Fields → World E → Result Handled × Effects × E
  pub others : World E → World E
  pub await_manual : String → World E → Fields × World E
  pub await_callback : String → World E → Fields × World E

-- `_emit`
unfoldable pub emit : ℕ → FlowRun → String → Fields → Option String → Store → Store
unfolding redact
emit now run event_type payload node_id s = record s {
  events =
      s.events
      ++ (record {
        group_id = some run.group_id;
        flow_run_id = run.id;
        node_id = node_id;
        event_type = event_type;
        payload = redact_fields payload;
        created_at = now;
      }
          ∷ []);
}

abbrev pub is_node_run : String → String → NodeRun → Bool
is_node_run run_id node_id n = n.flow_run_id == run_id && n.node_id == node_id

-- the row of a node: the first of the run's node runs with the node's id
abbrev pub node_row : Store → String → String → Option NodeRun
node_row s run_id node_id = find? (is_node_run run_id node_id) s.node_runs

-- `_load_run_and_node`, or its ValueError
abbrev pub paired : String → String → Option FlowRun → Option NodeRun → Result (FlowRun × NodeRun)
paired run_id node_id none n = err (String.◌++◌ "Run not found: " run_id)
paired run_id node_id (some r) none = err (String.◌++◌ "Node run not found: " node_id)
paired run_id node_id (some r) (some n) = ok (r, n)

unfoldable pub load : Store → String → String → Result (FlowRun × NodeRun)
load s run_id node_id = paired run_id node_id (run_at s run_id) (node_row s run_id node_id)

infixl 5 ◌>>=◌
abbrev pub ◌>>=◌ {ℓ κ} : {A : Type ℓ} {B : Type κ} → Result A → (A → Result B) → Result B
ok a >>= f = f a
err e >>= f = err e

-- a chain that answers has passed its first call
pub after :
    {A B C : Type 0} (m : Result A) (f : A → Result B) (b : B)
    → (m >>= f) ≡ ok b
    → ((a : A) → m ≡ ok a → f a ≡ ok b → C)
    → C
after (ok a) f b h k = k a refl h
after (err e) f b h k = let bad : err e ≡ ok b = h in cc

pub ok-inj : {A : Type 0} (a b : A) → ok a ≡ ok b → a ≡ b
ok-inj a b h = cc
