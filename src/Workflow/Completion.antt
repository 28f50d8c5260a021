-- ===== src/Workflow/Completion.antt =====
-- The statements about a whole run of `GenericFlowWorkflow.run`.
use flow_demo.Base.{
  ℕ, suc, String, true, ◌≡◌, ◌≢◌, refl, ◌⊎◌, inl, inr, length, length-filter-le, arith, Bool-cases,
  In, all-In,
}
use flow_demo.Json.{Json, Fields}
use flow_demo.Content.{FlowContent, keys}
use flow_demo.Workflow.Activities.{Activities}
use flow_demo.Workflow.Engine.{terminal_success, is_pending, Sched, start}
use flow_demo.Workflow.Run.{
  Outcome, succeeded, node_failed, no_progress, key_error, run_out_of_fuel, rounds, edges_known,
  run, mark_started,
}
use flow_demo.Workflow.Settled.{IsSettled, start-IsSettled}
use flow_demo.Workflow.Fuel.{PollsBelow}
use flow_demo.Workflow.Correct.{
  IsRanked, edges_known-HasSources, rounds-succeeded, rounds-ne-no_progress, rounds-ends,
  rounds-ne-key_error,
}

module _ {W : Type 0} (act : Activities W) (fuel : ℕ) (run_id : String) (c : FlowContent)
    (run_input : Fields) where
  Outcome-cases :
      (r : Outcome W)
      → r ≢ run_out_of_fuel
      → r ≢ key_error
      → ((s : Sched) (w : W) → r ≢ no_progress s w)
      → ((output : Json) × (s : Sched) × (w : W) × (r ≡ succeeded output s w))
        ⊎ ((e : String) × (s : Sched) × (w : W) × (r ≡ node_failed e s w))
  Outcome-cases (succeeded o s w) a b d = inl (o, s, w, refl)
  Outcome-cases (node_failed e s w) a b d = inr (e, s, w, refl)
  Outcome-cases (no_progress s w) a b d = absurd (d s w refl)
  Outcome-cases key_error a b d = absurd (b refl)
  Outcome-cases run_out_of_fuel a b d = absurd (a refl)

-- When a run succeeds, every node is SUCCESS or SKIPPED and settled: a node that ran has
-- done upstream nodes, was attempted at least once, has an active edge or no edge into it, and has an
-- output; a skipped node has done upstream nodes and no active edge, and was never attempted.
pub run-IsSettled :
    {W : Type 0} (act : Activities W) (fuel : ℕ) (run_id : String) (c : FlowContent)
    (run_input : Fields) (w w' : W) (output : Json) (s : Sched)
    → run act fuel run_id c run_input w ≡ succeeded output s w'
    → (j : String) → In j (keys c.nodes)
    → (terminal_success (s.statuses j) ≡ true) × IsSettled c s j
unfolding run
run-IsSettled act fuel run_id c run_input w w' output s e j m =
    elim (Bool-cases (edges_known act fuel run_id c run_input)) [
      | inr bad ↦ absurd (cc (rw bad at e))
      | inl good ↦
          let (settled, done) =
            rounds-succeeded act fuel run_id c run_input _ start s _ w' output (start-IsSettled c)
              (rw good at e) in
          (
            all-In (λ (k : String). terminal_success (s.statuses k)) j (keys c.nodes) done m,
            settled j,
          )
    ]

-- A run of a graph without dangling edges and without cycles, whose nodes stop asking for polls below
-- the fuel, ends: it succeeds or some node failed. It never stops for lack of progress.
pub run_total :
    {W : Type 0} (act : Activities W) (fuel : ℕ) (run_id : String) (c : FlowContent)
    (run_input : Fields) (w : W) (rank : String → ℕ)
    → edges_known act fuel run_id c run_input ≡ true
    → IsRanked c rank
    → PollsBelow act fuel
    → ((output : Json) × (s : Sched) × (w' : W) × (run act fuel run_id c run_input w
          ≡ succeeded output s w'))
      ⊎ ((e : String) × (s : Sched) × (w' : W) × (run act fuel run_id c run_input w
            ≡ node_failed e s w'))
unfolding run
run_total act fuel run_id c run_input w rank good ranked polls = rw good (
    Outcome-cases act fuel run_id c run_input
      (rounds act fuel run_id c run_input (suc (length (keys c.nodes))) start
        (act.mark_run (mark_started act fuel run_id c run_input) w))
      (rounds-ends act fuel run_id c run_input _ start _ polls (start-IsSettled c) (
        omega
          (arith, length-filter-le (λ (j : String). is_pending (start.statuses j)) (keys c.nodes))))
      (rounds-ne-key_error act fuel run_id c run_input _ start _)
      (λ s w'.
        rounds-ne-no_progress act fuel run_id c run_input rank ranked
          (edges_known-HasSources c good) _ start s _ w' (start-IsSettled c)))
