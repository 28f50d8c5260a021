-- ===== src/Projection/Marks.antt =====
-- `mark_run_activity`, `mark_node_skipped_activity` and `mark_node_failed_activity`.
use Prim.Native.String
use flow_demo.Base.{ℕ, String, Bool, true, false, Option, none, some, if◌then◌else◌}
use flow_demo.Json.{Json, Fields, str, end, field}
use flow_demo.Enums.{RunStatus, NodeRunStatus, run_text}
use flow_demo.Models.Runs.{FlowRun, NodeRun}
use flow_demo.Workflow.Activities.{Result, ok, err, Mark}
use flow_demo.Callback.Store.{Store, run_at, save_run, save_node_run}
use flow_demo.Projection.World.{emit, load}

infixr 60 ◌⁀◌
abbrev pub ◌⁀◌ : String → String → String
s ⁀ t = String.◌++◌ s t

abbrev is_running : RunStatus → Bool
is_running RunStatus.running = true
is_running _ = false

abbrev ends_run : RunStatus → Bool
ends_run RunStatus.success = true
ends_run RunStatus.failed = true
ends_run RunStatus.cancelled = true
ends_run _ = false

-- `value or default`
abbrev pub or_else {ℓ} : {A : Type ℓ} → Option A → Option A → Option A
or_else (some a) b = some a
or_else none b = b

-- the keys of a mark that are there, in the order in which the workflow gives them
abbrev optional : String → Option Json → Fields → Fields
optional key none d = d
optional key (some v) d = field key v d

abbrev as_text : Option String → Option Json
as_text none = none
as_text (some s) = some (str s)

abbrev mark_fields : Mark → Fields
mark_fields m = field "run_id" (str m.run_id) (
    field "status" (str (run_text m.status)) (
      optional "output" m.output
        (optional "error" (as_text m.error) (field "event_type" (str m.event_type) end))))

abbrev pub marked : ℕ → Mark → FlowRun → FlowRun
marked now m r = record r {
  status = m.status;
  started_at = if is_running m.status then or_else r.started_at (some now) else r.started_at;
  finished_at = if ends_run m.status then some now else r.finished_at;
  output_data = or_else m.output r.output_data;
  error_message = or_else m.error r.error_message;
}

abbrev pub failed_run : ℕ → String → FlowRun → FlowRun
failed_run now e r = record r {
  status = RunStatus.failed;
  error_message = some e;
  finished_at = some now;
}

abbrev pub failed_node : ℕ → String → NodeRun → NodeRun
failed_node now e n = record n {
  status = NodeRunStatus.failed;
  error_message = some e;
  finished_at = some now;
}

abbrev pub skipped_node : ℕ → NodeRun → NodeRun
skipped_node now n = record n { status = NodeRunStatus.skipped; finished_at = some now }

module _ (now : ℕ) where
  abbrev pub mark_found : Mark → Store → Option FlowRun → Store
  mark_found m s none = s
  mark_found m s (some r) =
      emit now (marked now m r) m.event_type (mark_fields m) none (save_run (marked now m r) s)

  -- the body of `mark_run_activity`
  unfoldable pub mark_run : Mark → Store → Store
  unfolding emit save_run
  mark_run m s = mark_found m s (run_at s m.run_id)

  -- Where the row is missing, the activity raises, and the server repeats it for ever: no table
  -- changes.
  abbrev pub skip_found : Store → Result (FlowRun × NodeRun) → Store
  skip_found s (err e) = s
  skip_found s (ok (r, n)) =
      emit now r "NODE_SKIPPED" (field "status" (str "SKIPPED") end) (some n.node_id)
        (save_node_run (skipped_node now n) s)

  -- the body of `mark_node_skipped_activity`
  unfoldable pub mark_node_skipped : String → String → Store → Store
  unfolding emit save_node_run load
  mark_node_skipped run_id node_id s = skip_found s (load s run_id node_id)

  abbrev run_error : String → String → String
  run_error node_id e = "Node '" ⁀ node_id ⁀ "' failed: " ⁀ e

  abbrev fail_found : String → Store → Result (FlowRun × NodeRun) → Store
  fail_found e s (err _) = s
  fail_found e s (ok (r, n)) =
      let r' = failed_run now (run_error n.node_id e) r in
      let s₁ = save_run r' (save_node_run (failed_node now e n) s) in
      let s₂ =
        emit now r' "NODE_FAILED" (field "status" (str "FAILED") (field "error" (str e) end))
          (some n.node_id) s₁ in
      emit now r' "RUN_FAILED"
        (field "status" (str "FAILED") (field "error" (str (run_error n.node_id e)) end)) none s₂

  -- the body of `mark_node_failed_activity`
  unfoldable pub mark_node_failed : String → String → String → Store → Store
  unfolding emit save_run save_node_run load
  mark_node_failed run_id node_id e s = fail_found e s (load s run_id node_id)
