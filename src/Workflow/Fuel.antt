-- ===== src/Workflow/Fuel.antt =====
-- The polling loop ends within its fuel when a node stops asking to be polled after so many attempts.
use flow_demo.Base.{
  ℕ, zero, suc, ◌+◌, ◌≤◌, ◌<◌, String, Bool, true, Option, none, some, List, [], ◌∷◌, ◌≡◌, ◌≢◌,
  refl, arith,
}
use flow_demo.Json.{Fields}
use flow_demo.Content.{FlowContent, FlowNode, node_at}
use flow_demo.Workflow.Activities.{Result, ok, err, Reply, poll_pending, done, Payload, Activities}
use flow_demo.Workflow.Engine.{Sched, active_edges, collect_inputs}
use flow_demo.Workflow.Run.{
  Attempted, finished, raised, out_of_fuel, Visit, passed_over, progressed, node_raised,
  visit_out_of_fuel, pass_out_of_fuel, execute_node, poll, finish_visit, run_node, run_at, visit,
  pass,
}

-- `bound` is above the attempt number of every reply that asks for another poll
pub record PollsBelow {W : Type 0} (act : Activities W) (bound : ℕ) : Type 0 where
  pub within :
      (p : Payload) (w : W) (delay : ℕ) (last : Fields)
      → (execute_node act p w).0 ≡ ok (poll_pending delay last)
      → p.attempt < bound

module _ {W : Type 0} (act : Activities W) (bound : ℕ) (polls : PollsBelow act bound) where
  poll_ends :
      (fuel : ℕ) (p : Payload) (v w : W) (r : Result Reply)
      → (execute_node act p v).0 ≡ r
      → bound ≤ fuel + p.attempt
      → (poll act fuel p r w).0 ≢ out_of_fuel
  unfolding poll
  poll_ends zero p v w (err e) q h = cc
  poll_ends (suc fuel) p v w (err e) q h = cc
  poll_ends zero p v w (ok (done o)) q h = cc
  poll_ends (suc fuel) p v w (ok (done o)) q h = cc
  poll_ends zero p v w (ok (poll_pending d l)) q h = absurd (omega (arith, polls.within p v d l q))
  poll_ends (suc fuel) p v w (ok (poll_pending d l)) q h =
      let p' = record p { attempt = p.attempt + 1 } in
      poll_ends fuel p' w (execute_node act p' w).1 (execute_node act p' w).0 refl (omega arith)

  module _ (run_id : String) (c : FlowContent) (run_input : Fields) where
    finish_visit-ends :
        (j : String) (s : Sched) (r : Attempted × ℕ × W)
        → r.0 ≢ out_of_fuel
        → finish_visit act bound run_id c run_input j s r ≢ visit_out_of_fuel
    finish_visit-ends j s (finished o, n, w) h e = cc
    finish_visit-ends j s (raised x, n, w) h e = cc
    finish_visit-ends j s (out_of_fuel, n, w) h e = absurd (h refl)

    run_node-ends :
        (n : FlowNode) (s : Sched) (w : W)
        → run_node act bound run_id c run_input n s w ≢ visit_out_of_fuel
    run_node-ends n s w =
        let p : Payload = record {
          run_id = run_id;
          node_id = n.id;
          node_data = n.content;
          inputs = collect_inputs c (active_edges c s n.id) s.outputs run_input;
          attempt = s.attempts n.id + 1;
        } in
        finish_visit-ends n.id s _
          (poll_ends bound p w (execute_node act p w).1 (execute_node act p w).0 refl (omega arith))

    run_at-ends :
        (o : Option FlowNode) (s : Sched) (w : W)
        → run_at act bound run_id c run_input o s w ≢ visit_out_of_fuel
    run_at-ends none s w = cc
    run_at-ends (some n) s w = run_node-ends n s w

    visit-ends :
        (j : String) (s : Sched) (w : W)
        → visit act bound run_id c run_input j s w ≢ visit_out_of_fuel
    unfolding visit
    visit-ends j s w = ground (arith, run_at-ends (node_at j c.nodes) s w)

    pub pass-ends :
        (js : List String) (s : Sched) (w : W) (flag : Bool)
        → pass act bound run_id c run_input js s w flag ≢ pass_out_of_fuel
    unfolding pass
    pass-ends [] s w flag = cc
    pass-ends (j ∷ js) s w flag =
        go (visit act bound run_id c run_input j s w) refl (λ u v b. pass-ends js u v b)
      where
        go :
            (v : Visit W)
            → visit act bound run_id c run_input j s w ≡ v
            → ((u : Sched) (v : W) (b : Bool)
                → pass act bound run_id c run_input js u v b ≢ pass_out_of_fuel)
            → pass act bound run_id c run_input (j ∷ js) s w flag ≢ pass_out_of_fuel
        go passed_over q ih e = ih s w flag (rw (q, pass) at e)
        go (progressed u v) q ih e = ih u v true (rw (q, pass) at e)
        go (node_raised x u v) q ih e = cc (rw (q, pass) at e)
        go visit_out_of_fuel q ih e = visit-ends j s w q
