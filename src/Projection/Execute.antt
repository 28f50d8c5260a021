-- ===== src/Projection/Execute.antt =====
-- `execute_node_activity`, `_template_data` and `_apply_flow_config_patch`.
use flow_demo.Base.{
  ℕ, ◌+◌, String, Option, none, some, List, [], ◌∷◌, ◌++◌, ◌==◌, max, if◌then◌else◌,
}
use flow_demo.Base.Int.{pos}
use flow_demo.Json.{Json, Fields, str, num, obj, end, field, put}
use flow_demo.Enums.{NodeRunStatus, RunTriggerType}
use flow_demo.FlowConfig.{deep_merge}
use flow_demo.Models.Runs.{FlowRun, NodeRun, NodeRunAttempt, FlowRunVariable}
use flow_demo.Redaction.{redact_fields}
use flow_demo.Workflow.Activities.{Result, ok, err, Reply, done, poll_pending, Payload}
use flow_demo.Callback.Store.{Store, save_run, save_node_run, save_attempt, attempt_of}
use flow_demo.Projection.World.{
  World, Handled, output, pending, Effects, Services, emit, load, ◌>>=◌,
}
use flow_demo.Projection.Marks.{or_else, ◌⁀◌}

-- `variables_as_dict`
unfoldable pub variables_as_dict : List FlowRunVariable → String → Fields
unfolding put
variables_as_dict [] run_id = end
variables_as_dict (v ∷ vs) run_id =
    let rest = variables_as_dict vs run_id in
    if v.flow_run_id == run_id then put v.name v.value rest else rest

abbrev trigger_text : RunTriggerType → String
trigger_text RunTriggerType.manual = "MANUAL"
trigger_text RunTriggerType.schedule = "SCHEDULE"
trigger_text RunTriggerType.rerun = "RERUN"

-- `_template_data`
unfoldable pub template_data : Store → FlowRun → NodeRun → Json → Fields
unfolding variables_as_dict
template_data s r n inputs = field "input" inputs (
    field "variables" (obj (variables_as_dict s.variables r.id)) (
      field "run"
        (obj (
          field "id" (str r.id) (
            field "triggerType" (str (trigger_text r.trigger_type))
              (field "nodeId" (str n.node_id) (field "attempt" (num (pos n.attempts)) end)))))
        (field "flowConfig" (obj r.flow_config) end)))

abbrev started_attempt : ℕ → String → NodeRun → NodeRunAttempt
started_attempt now new_id n = record {
  id = new_id;
  node_run_id = n.id;
  attempt_number = n.attempts;
  status = NodeRunStatus.running;
  error_message = none;
  started_at = now;
  finished_at = none;
}

abbrev restarted : NodeRunAttempt → NodeRunAttempt
restarted a = record a { status = NodeRunStatus.running; error_message = none; finished_at = none }

-- the attempt of a node run under its number, made where it is not there
abbrev pub open_attempt :
    ℕ → String → NodeRun → Store → Option NodeRunAttempt → NodeRunAttempt × Store
open_attempt now new_id n s none =
    let a = started_attempt now new_id n in (a, record s { attempts = s.attempts ++ (a ∷ []) })
open_attempt now new_id n s (some a) = (restarted a, save_attempt (restarted a) s)

abbrev pub started_node : ℕ → Payload → ℕ → NodeRun → NodeRun
started_node now p tries n = record n {
  status = NodeRunStatus.running;
  attempts = max p.attempt tries;
  started_at = or_else n.started_at (some now);
  input_data = some p.inputs;
  available_at = now;
}

abbrev pub succeeded_node : ℕ → Fields → NodeRun → NodeRun
succeeded_node now out n = record n {
  output_data = some (obj out);
  status = NodeRunStatus.success;
  error_message = none;
  finished_at = some now;
}

abbrev pub polling_node : ℕ → ℕ → Fields → NodeRun → NodeRun
polling_node now delay last n = record n {
  output_data = some (obj last);
  status = NodeRunStatus.poll_wait;
  error_message = none;
  available_at = now + delay;
}

abbrev pub broken_node : String → NodeRun → NodeRun
broken_node e n = record n { status = NodeRunStatus.failed; error_message = some e }

abbrev closed_attempt : ℕ → NodeRunStatus → NodeRunAttempt → NodeRunAttempt
closed_attempt now status a = record a { status = status; finished_at = some now }

abbrev joined : List String → String
joined [] = ""
joined (m ∷ []) = m
joined (m ∷ ms) = m ⁀ "; " ⁀ joined ms

module _ {E : Type 0} (sv : Services E) (now : ℕ) where
  abbrev pub patched :
      FlowRun → NodeRun → Fields → Fields → List String → Store → Result (FlowRun × Store)
  patched r n resolved next [] s =
      let r' = record r { flow_config = next } in
      ok (
        r',
        emit now r' "FLOW_CONFIG_PATCHED"
            (field "patch" (obj resolved) (field "flowConfig" (obj next) end)) (some n.node_id)
            (save_run r' s),
      )
  patched r n resolved next (e ∷ es) s =
      err ("flowConfigPatch created invalid flow configuration: " ⁀ joined (e ∷ es))

  -- `if not resolved: return`
  abbrev pub patch_with : FlowRun → NodeRun → Fields → Store → Result (FlowRun × Store)
  patch_with r n end s = ok (r, s)
  patch_with r n (field k v d) s =
      let next = deep_merge r.flow_config (field k v d) in
      patched r n (field k v d) next (sv.config_errors r.flow_version_id next) s

  -- `_apply_flow_config_patch`: the run as it is then, and the tables
  unfoldable pub apply_flow_config_patch :
      FlowRun → NodeRun → Option Fields → Fields → Store → Result (FlowRun × Store)
  unfolding deep_merge emit save_run
  apply_flow_config_patch r n none templates s = ok (r, s)
  apply_flow_config_patch r n (some patch) templates s =
      sv.resolve patch templates >>= λ resolved. patch_with r n resolved s

  -- the `try` has come to an output
  abbrev pub succeed : FlowRun → NodeRun → NodeRunAttempt → Fields → Store → Store
  succeed r n a out s =
      emit now r "NODE_SUCCEEDED" (field "status" (str "SUCCESS") (field "output" (obj out) end))
        (some n.node_id)
        (save_attempt (closed_attempt now NodeRunStatus.success a)
          (save_node_run (succeeded_node now out n) s))

  abbrev pub wait_for_poll : FlowRun → NodeRun → NodeRunAttempt → ℕ → Fields → Store → Store
  wait_for_poll r n a delay last s =
      emit now r "NODE_POLL_WAIT"
        (field "status" (str "POLL_WAIT") (
          field "pollCount" (num (pos n.attempts)) (
            field "maxPolls" (num (pos n.max_attempts)) (
              field "nextPollAt" (str (sv.isoformat (now + delay)))
                (field "lastOutput" (obj last) end)))))
        (some n.node_id)
        (save_attempt (closed_attempt now NodeRunStatus.poll_wait a)
          (save_node_run (polling_node now delay last n) s))

  -- the `except` of the activity
  abbrev pub break : FlowRun → NodeRun → NodeRunAttempt → String → Store → Store
  break r n a e s =
      emit now r "NODE_FAILED" (field "status" (str "FAILED") (field "error" (str e) end))
        (some n.node_id)
        (save_attempt
          (record (closed_attempt now NodeRunStatus.failed a) { error_message = some e })
          (save_node_run (broken_node e n) s))

  abbrev pub after_patch :
      NodeRun
      → NodeRunAttempt
      → Fields
      → FlowRun
      → Store
      → Result (FlowRun × Store)
      → Result Reply × Store
  after_patch n a out r s (ok (r', s')) = (ok (done out), succeed r' n a out s')
  after_patch n a out r s (err e) = (err e, break r n a e s)

  -- what follows the handler; its changes of the tables are in `s`
  abbrev pub after_handler :
      FlowRun
      → NodeRun
      → NodeRunAttempt
      → Option Fields
      → Fields
      → Store
      → Result Handled
      → Result Reply × Store
  after_handler r n a patch templates s (ok (output out)) =
      after_patch n a (redact_fields out) r s (apply_flow_config_patch r n patch templates s)
  after_handler r n a patch templates s (ok (pending delay last)) = (
    ok (poll_pending delay (redact_fields last)),
    wait_for_poll r n a delay (redact_fields last) s,
  )
  after_handler r n a patch templates s (err e) = (err e, break r n a e s)

  abbrev pub with_effects : Effects → Store → Store
  with_effects x s = record s { variables = x.variables; events = x.events }

  abbrev pub handle_resolved :
      Payload
      → FlowRun
      → NodeRun
      → NodeRunAttempt
      → Fields
      → Store
      → E
      → Result Fields
      → Result Reply × World E
  handle_resolved p r n a templates s e (err m) =
      (err m, record { store = break r n a m s; outside = e })
  handle_resolved p r n a templates s e (ok config) =
      let (handled, effects, e') =
        sv.handle n p.inputs config (record { store = s; outside = e }) in
      let (reply, s') =
        after_handler r n a p.node_data.flow_config_patch templates (with_effects effects s)
          handled in
      (reply, record { store = s'; outside = e' })

  abbrev pub execute_found :
      Payload → ℕ → World E → Result (FlowRun × NodeRun) → Result Reply × World E
  execute_found p tries w (err m) = (err m, w)
  execute_found p tries w (ok (r, n₀)) =
      let n = started_node now p tries n₀ in
      let s₁ = save_node_run n w.store in
      let (a, s₂) = open_attempt now (sv.new_id w.outside) n s₁ (attempt_of s₁ n.id n.attempts) in
      let s₃ =
        emit now r "NODE_STARTED"
          (field "status" (str "RUNNING") (field "attempt" (num (pos n.attempts)) end))
          (some n.node_id) s₂ in
      let templates = template_data s₃ r n p.inputs in
      handle_resolved p r n a templates s₃ w.outside (sv.resolve n.config templates)

  -- one try of `execute_node_activity`, the `tries`-th of the server
  unfoldable pub execute_once : Payload → ℕ → World E → Result Reply × World E
  unfolding load emit save_node_run save_attempt redact_fields apply_flow_config_patch template_data
  execute_once p tries w = execute_found p tries w (load w.store p.run_id p.node_id)
