-- ===== src/Tests/Workflow.antt =====
-- Runs of the loop on small graphs, and the theorems at them.
use flow_demo.Base.{
  ℕ, ◌<◌, String, true, none, some, ◌≡◌, refl, ◌⊎◌, arith, In, All-In, ◌==◌, if◌then◌else◌,
}
use flow_demo.Json.{Json, end, obj, get, put}
use flow_demo.Enums.{NodeRunStatus, RunStatus}
use flow_demo.Content.{FlowEdge, keys, node_at}
use flow_demo.Base.Int.{pos, negsuc}
use flow_demo.Workflow.Number.{int_of_text}
use flow_demo.Workflow.Engine.{Sched, incoming, active_edge, collect_inputs, max_attempts, start}
use flow_demo.Workflow.Sorted.{sorted}
use flow_demo.Workflow.Run.{
  succeeded, node_failed, execute_node, poll, visit, pass, rounds, after_pass, run, edges_known,
  Outcome, no_progress,
}
use flow_demo.Workflow.Correct.{IsRanked}
use flow_demo.Samples.{echo, diamond, echo-PollsBelow}
use flow_demo.Workflow.Completion.{run_total}
use flow_demo.Workflow.Active.{IsDone}
use flow_demo.Workflow.Traced.{Steps, run-IsTraced}

abbrev result : Outcome ℕ
result = run echo 5 "run-1" diamond end 0

abbrev sched_of : Outcome ℕ → Sched
sched_of (succeeded o s w) = s
sched_of (node_failed e s w) = s
sched_of (no_progress s w) = s
sched_of _ = start

abbrev output_of : Outcome ℕ → Json
output_of (succeeded o s w) = o
output_of _ = obj end

abbrev world_of : Outcome ℕ → ℕ
world_of (succeeded o s w) = w
world_of (node_failed e s w) = w
world_of (no_progress s w) = w
world_of _ = 0

-- everything that a run computes with
engine : Unit {0}
unfolding run rounds pass visit after_pass poll execute_node collect_inputs incoming active_edge
    keys node_at sorted max_attempts get put
engine = tt

diamond_runs : result ≡ succeeded (output_of result) (sched_of result) (world_of result)
unfolding engine
diamond_runs = refl

-- the branch that was not taken is skipped
diamond_skips :
    ((sched_of result).statuses "b" ≡ NodeRunStatus.skipped)
    × ((sched_of result).statuses "a" ≡ NodeRunStatus.success)
    × (world_of result ≡ 6)
unfolding engine
diamond_skips = (refl, refl, refl)

abbrev rank : String → ℕ
rank j = if j == "s" then 0 else if j == "c" then 1 else 2

run-IsTraced_example :
    (v : ℕ) × Steps echo 5 "run-1" diamond end (sched_of result) v start (
      echo.mark_run
        (record {
          run_id = "run-1";
          status = RunStatus.running;
          output = none;
          error = none;
          event_type = "RUN_STARTED";
        })
        0)
    × (world_of result
        ≡ echo.mark_run
            (record {
              run_id = "run-1";
              status = RunStatus.success;
              output = some (output_of result);
              error = none;
              event_type = "RUN_SUCCEEDED";
            })
            v)
    × ((j : String) → In j (keys diamond.nodes) → IsDone ((sched_of result).statuses j))
run-IsTraced_example =
    run-IsTraced echo 5 "run-1" diamond end 0 (world_of result) (output_of result) (sched_of result)
      diamond_runs

diamond-IsRanked : IsRanked diamond rank
diamond-IsRanked = record {
  grows = λ e m.
      All-In (λ (d : FlowEdge). rank d.source < rank d.target) e diamond.edges
        (omega arith, (omega arith, (omega arith, tt))) m;
}

diamond_known : edges_known echo 5 "run-1" diamond end ≡ true
unfolding keys
diamond_known = refl

run_total_example :
    ((output : Json) × (s : Sched) × (w' : ℕ) × (run echo 5 "run-1" diamond end 0
        ≡ succeeded output s w'))
    ⊎ ((e : String) × (s : Sched) × (w' : ℕ) × (run echo 5 "run-1" diamond end 0
          ≡ node_failed e s w'))
run_total_example =
    run_total echo 5 "run-1" diamond end 0 rank diamond_known diamond-IsRanked echo-PollsBelow

-- texts that `int` takes, and texts that it does not
numerals :
    (int_of_text " +1_000 " ≡ some (pos 1000))
    × (int_of_text "-5" ≡ some (negsuc 4))
    × (int_of_text "-0" ≡ some (pos 0))
    × (int_of_text "1__0" ≡ none)
    × (int_of_text "5 x" ≡ none)
    × (int_of_text "" ≡ none)
unfolding int_of_text
numerals = (refl, refl, refl, refl, refl, refl)
