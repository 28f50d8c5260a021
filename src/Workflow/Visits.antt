-- ===== src/Workflow/Visits.antt =====
-- One turn of the loop keeps what is settled, and a turn that does nothing found its node blocked.
use flow_demo.Base.{
  ℕ, zero, suc, ◌+◌, ◌≤◌, ◌<◌, String, true, false, Option, none, some, ◌≡◌, ◌≢◌, refl, ap, subst,
  ◌∙◌, ◌⊎◌, inl, inr, ◌==◌, eq_iff, eq_refl, arith, Bool-cases, In,
}
use flow_demo.Json.{Fields}
use flow_demo.Enums.{NodeRunStatus}
use flow_demo.Content.{FlowNode, FlowContent, keys, node_at, id-node_at, node_at-some}
use flow_demo.Workflow.Activities.{Result, ok, err, Reply, done, poll_pending, Payload, Activities}
use flow_demo.Workflow.Engine.{
  terminal_success, is_pending, collect_inputs, Sched, set_at, upstream_done, active_edges,
  executable,
}
use flow_demo.Workflow.Run.{
  Attempted, finished, raised, out_of_fuel, passed_over, progressed, execute_node, poll,
  finish_visit, run_node, run_at, visit,
}
use flow_demo.Workflow.Settled.{IsSettled, Extends, tests-Extends, IsSettled-Extends}

-- the polling loop only counts up
module _ {W : Type 0} (act : Activities W) where
  poll_attempts :
      (fuel : ℕ) (p : Payload) (r : Result Reply) (w : W) → p.attempt ≤ (poll act fuel p r w).1
  unfolding poll
  poll_attempts zero p (err e) w = omega arith
  poll_attempts (suc fuel) p (err e) w = omega arith
  poll_attempts zero p (ok (done o)) w = omega arith
  poll_attempts (suc fuel) p (ok (done o)) w = omega arith
  poll_attempts zero p (ok (poll_pending d l)) w = omega arith
  poll_attempts (suc fuel) p (ok (poll_pending d l)) w =
      let p' = record p { attempt = p.attempt + 1 } in
      let (r, w') = execute_node act p' w in omega (arith, poll_attempts fuel p' r w')

  module _ (fuel : ℕ) (run_id : String) (c : FlowContent) (run_input : Fields) where
    -- what a turn that made progress did to its node
    pub data Progress (j : String) (s t : Sched) : Type 0 where
      succeeded :
          (output : Fields) (n : ℕ)
          → is_pending (s.statuses j) ≡ true
          → upstream_done c s j ≡ true
          → executable c s j ≡ true
          → 0 < n
          → t ≡ record {
            statuses = set_at j NodeRunStatus.success s.statuses;
            outputs = set_at j (some output) s.outputs;
            attempts = set_at j n s.attempts;
          }
          → Progress j s t
      skipped :
          is_pending (s.statuses j) ≡ true
          → upstream_done c s j ≡ true
          → executable c s j ≡ false
          → t ≡ record s { statuses = set_at j NodeRunStatus.skipped s.statuses }
          → Progress j s t

    finish_visit-progressed :
        (j : String) (s t : Sched) (w : W) (r : Attempted × ℕ × W)
        → finish_visit act fuel run_id c run_input j s r ≡ progressed t w
        → (output : Fields) × (t ≡ record {
          statuses = set_at j NodeRunStatus.success s.statuses;
          outputs = set_at j (some output) s.outputs;
          attempts = set_at j r.1 s.attempts;
        })
    finish_visit-progressed j s t w (finished o, n, w') e = (o, cc)
    finish_visit-progressed j s t w (raised x, n, w') e = cc
    finish_visit-progressed j s t w (out_of_fuel, n, w') e = cc

    run_at-progressed :
        (j : String) (o : Option FlowNode) (s t : Sched) (w w' : W)
        → node_at j c.nodes ≡ o
        → run_at act fuel run_id c run_input o s w ≡ progressed t w'
        → (output : Fields) × (n : ℕ) × (0 < n)
          × (t ≡ record {
            statuses = set_at j NodeRunStatus.success s.statuses;
            outputs = set_at j (some output) s.outputs;
            attempts = set_at j n s.attempts;
          })
    run_at-progressed j none s t w w' at e = cc
    run_at-progressed j (some n) s t w w' at e =
        let p : Payload = record {
          run_id = run_id;
          node_id = n.id;
          node_data = n.content;
          inputs = collect_inputs c (active_edges c s n.id) s.outputs run_input;
          attempt = s.attempts n.id + 1;
        } in
        let (r, w1) = execute_node act p w in
        let more = poll_attempts fuel p r w1 in
        let (o, te) = finish_visit-progressed n.id s t w' (poll act fuel p r w1) e in
        (o, (poll act fuel p r w1).1, omega arith, rw (← id-node_at j c.nodes n at) te)

    finish_visit-moves :
        (j : String) (s : Sched) (r : Attempted × ℕ × W)
        → finish_visit act fuel run_id c run_input j s r ≢ passed_over
    finish_visit-moves j s (finished o, n, w') e = cc
    finish_visit-moves j s (raised x, n, w') e = cc
    finish_visit-moves j s (out_of_fuel, n, w') e = cc

    run_at-moves :
        (n : FlowNode) (s : Sched) (w : W)
        → run_node act fuel run_id c run_input n s w ≢ passed_over
    run_at-moves n s w e = finish_visit-moves n.id s _ e

    pub visit-Progress :
        (j : String) (s t : Sched) (w w' : W)
        → visit act fuel run_id c run_input j s w ≡ progressed t w'
        → Progress j s t
    unfolding visit
    visit-Progress j s t w w' e = elim (Bool-cases (is_pending (s.statuses j))) [
      | inr gone ↦ absurd (cc (gone, e))
      | inl pend ↦ elim (Bool-cases (upstream_done c s j)) [
        | inr wait ↦ absurd (ground (arith, pend, wait))
        | inl up ↦ elim (Bool-cases (executable c s j)) [
          | inr cold ↦ skipped pend up cold (ground arith)
          | inl hot ↦
              let (o, n, pos, te) =
                run_at-progressed j (node_at j c.nodes) s t w w' refl (rw (pend, up, hot) at e) in
              succeeded o n pend up hot pos te
        ]
      ]
    ]

    module _ (j : String) (s t : Sched) where
      pub Progress-Extends : Progress j s t → Extends s t
      Progress-Extends (succeeded o n pend up hot pos e) = record {
        at = λ k done. rw e (ground (arith, eq_iff j k));
      }
      Progress-Extends (skipped pend up cold e) = record {
        at = λ k done. rw e (ground (arith, eq_iff j k));
      }

      -- the node of the turn is pending before and done after
      pub Progress-done :
          Progress j s t
          → (is_pending (s.statuses j) ≡ true) × (terminal_success (t.statuses j) ≡ true)
      Progress-done (succeeded o n pend up hot pos e) = (pend, rw (e, eq_refl))
      Progress-done (skipped pend up cold e) = (pend, rw (e, eq_refl))

      -- the other nodes are as they were
      pub Progress-ne :
          (k : String)
          → (j == k) ≡ false
          → Progress j s t
          → (t.statuses k ≡ s.statuses k)
            × (t.outputs k ≡ s.outputs k)
            × (t.attempts k ≡ s.attempts k)
      Progress-ne k ne (succeeded o n pend up hot pos e) = (rw (e, ne), rw (e, ne), rw (e, ne))
      Progress-ne k ne (skipped pend up cold e) =
          (rw (e, ne), ap (λ (r : Sched). r.outputs k) e, ap (λ (r : Sched). r.attempts k) e)

      IsSettled-self : Progress j s t → IsSettled c s j → IsSettled c t j
      IsSettled-self (succeeded o n pend up hot pos e) h =
          let (up', ex') =
            tests-Extends c s t (Progress-Extends (succeeded o n pend up hot pos e)) j up in
          let status : t.statuses j ≡ NodeRunStatus.success = rw (e, eq_refl) in
          let output : t.outputs j ≡ some o = rw (e, eq_refl) in
          record {
            known = inr (rw status);
            untouched = λ k. absurd (cc (rw status at k));
            ran = λ k. (up', ex' ∙ hot, rw (e, eq_refl) pos, λ q. absurd (cc (output, q)));
            left_out = λ k. absurd (cc (rw status at k));
          }
      IsSettled-self (skipped pend up cold e) h =
          let (up', ex') = tests-Extends c s t (Progress-Extends (skipped pend up cold e)) j up in
          let status : t.statuses j ≡ NodeRunStatus.skipped = rw (e, eq_refl) in
          let fresh = h.untouched (ground (arith, pend)) in
          record {
            known = inr (rw status);
            untouched = λ k. (
              ap (λ (r : Sched). r.attempts j) e ∙ fresh.0,
              ap (λ (r : Sched). r.outputs j) e ∙ fresh.1,
            );
            ran = λ k. absurd (cc (rw status at k));
            left_out = λ k. (up', ex' ∙ cold);
          }

      IsSettled-ne :
          (k : String) → (j == k) ≡ false → Progress j s t → IsSettled c s k → IsSettled c t k
      IsSettled-ne k ne p h =
          let (st, out, att) = Progress-ne k ne p in
          elim (Bool-cases (is_pending (s.statuses k))) [
            | inr over ↦ IsSettled-Extends c s t (Progress-Extends p) k over h
            | inl pend ↦ record {
              known = inl (rw st pend);
              untouched = λ q. rw (att, out) (h.untouched (rw st at q));
              ran = λ q. absurd (ground (arith, st, pend, q));
              left_out = λ q. absurd (ground (arith, st, pend, q));
            }
          ]

      -- a turn keeps every node settled
      pub Progress-IsSettled :
          Progress j s t → ((k : String) → IsSettled c s k) → (k : String) → IsSettled c t k
      Progress-IsSettled p h k = elim (Bool-cases (j == k)) [
        | inl same ↦ subst (IsSettled c t) ((eq_iff j k).0 same) (IsSettled-self p (h j))
        | inr other ↦ IsSettled-ne k other p (h k)
      ]

    -- a node that a turn passes over is done, or waits for an upstream node
    pub passed_over-blocked :
        (j : String) (s : Sched) (w : W)
        → In j (keys c.nodes)
        → visit act fuel run_id c run_input j s w ≡ passed_over
        → (is_pending (s.statuses j) ≡ false) ⊎ (upstream_done c s j ≡ false)
    unfolding visit
    passed_over-blocked j s w m e = elim (Bool-cases (is_pending (s.statuses j))) [
      | inr over ↦ inl over
      | inl pend ↦ elim (Bool-cases (upstream_done c s j)) [
        | inr wait ↦ inr wait
        | inl up ↦ elim (Bool-cases (executable c s j)) [
          | inr cold ↦ absurd (cc (rw (pend, up, cold) at e))
          | inl hot ↦
              let (n, found) = node_at-some j c.nodes m in
              absurd (run_at-moves n s w (rw (pend, up, hot, found) at e))
        ]
      ]
    ]
