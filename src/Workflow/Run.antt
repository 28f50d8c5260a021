-- ===== src/Workflow/Run.antt =====
-- `GenericFlowWorkflow.run` and `_execute_node`, over any implementation of the activities. Every
-- wait is answered: a cancellation by Temporal, or a signal that never comes, has no outcome here.
use flow_demo.Base.{
  ℕ, zero, suc, ◌+◌, String, Bool, true, false, not, ◌&&◌, Option, none, some, List, [], ◌∷◌, ◌==◌,
  if◌then◌else◌, all, contains, length,
}
use flow_demo.Json.{Json, Fields, obj, end, field}
use flow_demo.Enums.{NodeRunStatus, RunStatus}
use flow_demo.Content.{FlowNode, FlowContent, keys, node_at}
use flow_demo.Workflow.Activities.{
  Result, ok, err, Reply, done, poll_pending, Payload, Mark, Activities,
}
use flow_demo.Workflow.Engine.{
  terminal_success, is_pending, is_success, max_attempts, type_at, output_fields, collect_inputs,
  Sched, set_at, start, upstream_done, active_edges, executable,
}
use flow_demo.Workflow.Sorted.{sorted}

-- what the `while result.get("kind") == "poll_pending"` loop leaves behind
pub data Attempted : Type 0 where
  finished : Fields → Attempted
  raised : String → Attempted
  out_of_fuel : Attempted

-- one turn of `for node_id in sorted(nodes)`
pub data Visit (W : Type 0) : Type 0 where
  passed_over : Visit W
  progressed : Sched → W → Visit W
  node_raised : String → Sched → W → Visit W
  visit_out_of_fuel : Visit W

-- the whole `for` loop, with the flag `progressed`
pub data Pass (W : Type 0) : Type 0 where
  pass_ended : Sched → W → Bool → Pass W
  pass_raised : String → Sched → W → Pass W
  pass_out_of_fuel : Pass W

-- how `run` ends: by its three `return` statements, or by a KeyError on an edge that names no node
pub data Outcome (W : Type 0) : Type 0 where
  succeeded : Json → Sched → W → Outcome W
  node_failed : String → Sched → W → Outcome W
  no_progress : Sched → W → Outcome W
  key_error : Outcome W
  run_out_of_fuel : Outcome W

abbrev pub no_progress_error : String
no_progress_error = "Workflow made no progress; graph may be invalid"

module _ {W : Type 0} (act : Activities W) where
  abbrev pub then_reply : Result (Unit {0}) × W → (W → Result Reply × W) → Result Reply × W
  then_reply (ok _, w) k = k w
  then_reply (err e, w) k = (err e, w)

  abbrev pub execute_with : Option ℕ → Payload → W → Result Reply × W
  execute_with none p w = (err "invalid literal for int()", w)
  execute_with (some attempts) p w = act.execute_node p attempts w

  -- `_execute_node`
  unfoldable pub execute_node : Payload → W → Result Reply × W
  execute_node p w =
      if p.node_data.node_type == "manual_approval"
      then then_reply (act.create_manual_wait p w) (λ w1.
        let (signal, w2) = act.await_manual p.node_id w1 in act.complete_manual_wait p signal w2)
      else if p.node_data.node_type == "http_callback"
      then then_reply (act.create_callback_wait p w) (λ w1.
        let (signal, w2) = act.await_callback p.node_id w1 in
        act.complete_callback_wait p signal w2)
      else execute_with (max_attempts p.node_data) p w

  -- the polling loop; `p.attempt` is `attempts[node_id]`, and the result is that of the last call
  unfoldable pub poll : ℕ → Payload → Result Reply → W → Attempted × ℕ × W
  poll fuel p (err e) w = (raised e, p.attempt, w)
  poll fuel p (ok (done output)) w = (finished output, p.attempt, w)
  poll zero p (ok (poll_pending delay last)) w = (out_of_fuel, p.attempt, w)
  poll (suc fuel) p (ok (poll_pending delay last)) w =
      let p' = record p { attempt = p.attempt + 1 } in
      let (r, w') = execute_node p' w in poll fuel p' r w'

  module _ (fuel : ℕ) (run_id : String) (c : FlowContent) (run_input : Fields) where
    abbrev pub finish_visit : String → Sched → Attempted × ℕ × W → Visit W
    finish_visit j s (finished output, n, w) =
        progressed
          (record {
            statuses = set_at j NodeRunStatus.success s.statuses;
            outputs = set_at j (some output) s.outputs;
            attempts = set_at j n s.attempts;
          })
          w
    finish_visit j s (raised e, n, w) =
        node_raised e (record s { attempts = set_at j n s.attempts })
          (act.mark_node_failed run_id j e w)
    finish_visit j s (out_of_fuel, n, w) = visit_out_of_fuel

    abbrev pub run_node : FlowNode → Sched → W → Visit W
    run_node n s w =
        let p : Payload = record {
          run_id = run_id;
          node_id = n.id;
          node_data = n.content;
          inputs = collect_inputs c (active_edges c s n.id) s.outputs run_input;
          attempt = s.attempts n.id + 1;
        } in
        let (r, w') = execute_node p w in finish_visit n.id s (poll fuel p r w')

    abbrev pub run_at : Option FlowNode → Sched → W → Visit W
    run_at none s w = passed_over
    run_at (some n) s w = run_node n s w

    -- the body of the `for` loop
    unfoldable pub visit : String → Sched → W → Visit W
    visit j s w =
        if not (is_pending (s.statuses j))
        then passed_over
        else if not (upstream_done c s j)
        then passed_over
        else if not (executable c s j)
        then progressed (record s { statuses = set_at j NodeRunStatus.skipped s.statuses })
            (act.mark_node_skipped run_id j w)
        else run_at (node_at j c.nodes) s w

    unfoldable pub pass : List String → Sched → W → Bool → Pass W
    pass [] s w flag = pass_ended s w flag
    pass (j ∷ js) s w flag = elim (visit j s w) [
      | passed_over ↦ pass js s w flag
      | progressed s' w' ↦ pass js s' w' true
      | node_raised e s' w' ↦ pass_raised e s' w'
      | visit_out_of_fuel ↦ pass_out_of_fuel
    ]

    -- `all(status in TERMINAL_SUCCESS for status in statuses.values())`
    abbrev pub all_done : Sched → Bool
    all_done s = all (λ j. terminal_success (s.statuses j)) (keys c.nodes)

    pub end_outputs : Sched → List String → Fields
    end_outputs s [] = end
    end_outputs s (j ∷ js) =
        let rest = end_outputs s js in
        if type_at c j == "end" && is_success (s.statuses j)
        then field j (obj (output_fields (s.outputs j))) rest
        else rest

    abbrev pub final_output : Fields → Json
    final_output (field j v end) = v
    final_output d = obj d

    abbrev pub run_output : Sched → Json
    run_output s = final_output (end_outputs s (keys c.nodes))

    abbrev pub mark_success : Json → Mark
    mark_success output = record {
      run_id = run_id;
      status = RunStatus.success;
      output = some output;
      error = none;
      event_type = "RUN_SUCCEEDED";
    }

    abbrev pub mark_failure : Mark
    mark_failure = record {
      run_id = run_id;
      status = RunStatus.failed;
      output = none;
      error = some no_progress_error;
      event_type = "RUN_FAILED";
    }

    -- what follows the `for` loop; `again` is the next round of `while True`
    unfoldable pub after_pass : Sched → W → Bool → (Sched → W → Outcome W) → Outcome W
    unfolding end_outputs
    after_pass s w flag again =
        if all_done s
        then succeeded (run_output s) s (act.mark_run (mark_success (run_output s)) w)
        else if not flag
        then no_progress s (act.mark_run mark_failure w)
        else again s w

    unfoldable pub rounds : ℕ → Sched → W → Outcome W
    rounds zero s w = run_out_of_fuel
    rounds (suc n) s w = elim (pass (sorted (keys c.nodes)) s w false) [
      | pass_ended s' w' flag ↦ after_pass s' w' flag (rounds n)
      | pass_raised e s' w' ↦ node_failed e s' w'
      | pass_out_of_fuel ↦ run_out_of_fuel
    ]

    abbrev pub mark_started : Mark
    mark_started = record {
      run_id = run_id;
      status = RunStatus.running;
      output = none;
      error = none;
      event_type = "RUN_STARTED";
    }

    -- every edge is entered in `incoming` and `outgoing`, which have the node ids for keys
    abbrev pub edges_known : Bool
    edges_known =
        all (λ e. contains (keys c.nodes) e.target && contains (keys c.nodes) e.source) c.edges

    -- `run`, once the payload names a run; as many rounds as nodes and one more
    unfoldable pub run : W → Outcome W
    run w =
        if edges_known
        then rounds (suc (length (keys c.nodes))) start (act.mark_run mark_started w)
        else key_error
