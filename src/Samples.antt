-- ===== src/Samples.antt =====
-- Activities and a flow on which the tests run.
use flow_demo.Base.{ℕ, ◌+◌, String, none, some, [], ◌∷◌, arith, ◌==◌, if◌then◌else◌}
use flow_demo.Json.{end, field, str}
use flow_demo.Content.{FlowContent, FlowNode, FlowEdge}
use flow_demo.Workflow.Activities.{Activities, Result, ok, Reply, done, Payload}
use flow_demo.Workflow.Engine.{max_attempts}
use flow_demo.Workflow.Run.{execute_node}
use flow_demo.Validator.{Registry}
use flow_demo.Callback.Auth.{Crypto}
use flow_demo.Callback.Create.{Texts}
use flow_demo.Workflow.Fuel.{PollsBelow}

-- activities that pass their inputs on and count the calls; a condition takes its true branch
abbrev pub reply : Payload → Result Reply
reply p =
    if p.node_data.node_type == "condition"
    then ok (done (field "branch" (str "true") (field "data" p.inputs end)))
    else ok (done (field "seen" p.inputs end))

abbrev pub echo : Activities ℕ
echo = record {
  mark_run = λ m w. w + 1;
  mark_node_skipped = λ r j w. w + 1;
  mark_node_failed = λ r j e w. w + 1;
  execute_node = λ p n w. (reply p, w + 1);
  create_manual_wait = λ p w. (ok tt, w + 1);
  complete_manual_wait = λ p f w. (reply p, w + 1);
  create_callback_wait = λ p w. (ok tt, w + 1);
  complete_callback_wait = λ p f w. (reply p, w + 1);
  await_manual = λ j w. (end, w);
  await_callback = λ j w. (end, w);
}

abbrev pub node : String → String → FlowNode
node j kind = record {
  id = j;
  kind = "workflow";
  content = record {
    label = j;
    node_type = kind;
    node_version = "1.0";
    config = end;
    flow_config_patch = none;
  };
}

abbrev pub edge : String → String → String → String → FlowEdge
edge e a b h = record {
  id = e;
  source = a;
  target = b;
  source_handle = some h;
  target_handle = some "in";
}

-- start, a condition, and one end for each of its branches
abbrev pub diamond : FlowContent
diamond = record {
  schema_version = 1;
  nodes = node "s" "start" ∷ node "c" "condition" ∷ node "a" "end" ∷ node "b" "end" ∷ [];
  edges = edge "e1" "s" "c" "out" ∷ edge "e2" "c" "a" "true" ∷ edge "e3" "c" "b" "false" ∷ [];
}

pub echo-PollsBelow : PollsBelow echo 5
unfolding execute_node max_attempts
echo-PollsBelow = record { within = λ p w d l e. ground arith }

-- every type has the port "in", and "out" or the two branches
abbrev pub ports : Registry
ports = record {
  definition = λ t v. some (record {
    inputs = if t == "start" then [] else "in" ∷ [];
    outputs = if t == "condition" then "true" ∷ "false" ∷ [] else "out" ∷ [];
  });
  config_errors = λ t v d. 0;
}

-- no cryptography, and texts as they are
abbrev pub no_crypto : Crypto
no_crypto = record {
  credential_keys = λ k. none;
  open_sealed = λ key nonce text aad. none;
  hmac_sha256 = λ key body. key;
  decimal = λ n. "1";
  show = λ v. "";
}

abbrev pub texts : Texts
texts = record { str_of = λ v. ""; upper = λ s. s; strip_lower = λ s. s }
