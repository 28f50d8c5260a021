-- ===== src/Projection/Waited.antt =====
-- What the activities around a wait leave in the rows.
use flow_demo.Base.{ℕ, String, ◌&&◌, Option, none, some, find?, ◌≡◌, refl, sym, ap, ◌∙◌, ◌==◌}
use flow_demo.Json.{Fields, get}
use flow_demo.Enums.{RunStatus, NodeRunStatus}
use flow_demo.Content.{FlowContent}
use flow_demo.Models.Runs.{FlowRun, NodeRun}
use flow_demo.Models.Identity.{ApprovalTask}
use flow_demo.Workflow.Activities.{ok, Payload}
use flow_demo.Callback.Auth.{Checked, passed, value_error, crash}
use flow_demo.Callback.Create.{Texts, text_at, create_callback_wait}
use flow_demo.Callback.Created.{create_callback_wait-bounds}
use flow_demo.Callback.Store.{Store, run_at, save_run, save_node_run}
use flow_demo.Projection.World.{Services, emit, load, node_row, after, ok-inj}
use flow_demo.Projection.Waits.{
  spread, spread_data, waiting_node, resumed_node, with_status, group_named, put_task,
  create_manual_wait, complete_manual_wait, calling_node, received_node, checked, create_callback,
  redacted_data, complete_callback,
}
use flow_demo.Projection.Rows.{
  Touches, SameKeys, Wrote, Wrote-start, Wrote-node, Wrote-same, Wrote-run, load-ok,
}
use flow_demo.Projection.Executed.{IsShown}

module _ (run_id : String) (c : FlowContent) where
  put_task-rows :
      (texts : Texts) (now : ℕ) (i : String) (r : FlowRun) (n : NodeRun) (prompt : String)
      (g : Option String) (o : Option ApprovalTask) (s : Store)
      → ((put_task texts now i r n prompt g o s).runs ≡ s.runs)
        × ((put_task texts now i r n prompt g o s).node_runs ≡ s.node_runs)
  put_task-rows texts now i r n prompt g none s = (refl, refl)
  put_task-rows texts now i r n prompt none (some t) s = (refl, refl)
  put_task-rows texts now i r n prompt (some g) (some t) s = (refl, refl)

  -- the row of a node written, then its run's row, then tables without rows
  node_then_run :
      (j : String) (s t u : Store) (r r' : FlowRun) (n n' : NodeRun)
      → run_at s run_id ≡ some r
      → node_row s run_id j ≡ some n
      → SameKeys run_id c n n'
      → r'.id ≡ r.id
      → t.runs ≡ s.runs
      → t.node_runs ≡ s.node_runs
      → u.runs ≡ (save_run r' (save_node_run n' t)).runs
      → u.node_runs ≡ (save_run r' (save_node_run n' t)).node_runs
      → Wrote run_id c j n' s u
  unfolding save_run save_node_run
  node_then_run j s t u r r' n n' here row same id runs₀ nodes₀ runs nodes =
      let start = Wrote-same run_id c j n s s t (Wrote-start run_id c j n s row) runs₀ nodes₀ in
      let here₀ : run_at t run_id ≡ some r = rw runs₀ here in
      let first = Wrote-node run_id c j n n' s t start same in
      let both = Wrote-run run_id c j n' s (save_node_run n' t) r r' first here₀ id in
      Wrote-same run_id c j n' s (save_run r' (save_node_run n' t)) u both runs nodes

  module _ (texts : Texts) (now : ℕ) (p : Payload) (s : Store) (own : p.run_id ≡ run_id) where
    loaded :
        (r : FlowRun) (n : NodeRun)
        → load s p.run_id p.node_id ≡ ok (r, n)
        → (run_at s run_id ≡ some r) × (node_row s run_id p.node_id ≡ some n)
    loaded r n e = load-ok s run_id p.node_id r n (rw own at e)

    pub create_manual_wait-Touches :
        (i : String) (t : Store)
        → create_manual_wait texts now i p s ≡ ok t
        → Touches run_id c p.node_id s t
    unfolding create_manual_wait emit save_run save_node_run
    create_manual_wait-Touches i t h = after (load s p.run_id p.node_id) _ t h (λ (r, n) found h₁.
        let prompt = text_at texts "prompt" "Manual action required" p.node_data.config in
        let alias = texts.strip_lower (text_at texts "approvalGroupRef" "" p.node_data.config) in
        after (group_named texts now r.group_id alias s) _ t h₁ (λ group _ h₂.
          let (here, row) = loaded r n found in
          let n' = waiting_node p n in
          let r' = with_status RunStatus.waiting r in
          let s₁ = save_run r' (save_node_run n' s) in
          let o = find? (λ t. t.flow_run_id == r.id && t.node_id == n'.node_id) s.tasks in
          let (runs, nodes) = put_task-rows texts now i r' n' prompt group o s₁ in
          let end_is = ok-inj _ t h₂ in
          let wrote =
            node_then_run p.node_id s s t r r' n n' here row
              (record { id = refl; node = refl; run = refl }) refl refl refl
              (ap (λ x. x.runs) (sym end_is) ∙ runs) (ap (λ x. x.node_runs) (sym end_is) ∙ nodes) in
          wrote.touches))

    pub complete_manual_wait-IsShown :
        (iso : String) (signal out : Fields) (t : Store)
        → complete_manual_wait texts now iso p signal s ≡ ok (out, t)
        → Touches run_id c p.node_id s t
          × IsShown run_id c p.node_id NodeRunStatus.success (some out) t
    unfolding complete_manual_wait emit save_run save_node_run
    complete_manual_wait-IsShown iso signal out t h =
        after (load s p.run_id p.node_id) _ (out, t) h
          (λ (r, n) found h₁.
            after (spread n.input_data) _ (out, t) h₁
              (λ inputs _ h₂.
                after (spread_data (get "data" signal)) _ (out, t) h₂
                  (λ given _ h₃.
                    let (here, row) = loaded r n found in
                    let end_is = ok-inj _ (out, t) h₃ in
                    let out_is = ap (λ x. x.0) end_is in
                    let n' = resumed_node now out n in
                    let r' = with_status RunStatus.running r in
                    let wrote =
                      node_then_run p.node_id s s t r r' n n' here row
                        (record { id = refl; node = refl; run = refl }) refl refl refl
                        (ap (λ x. x.1.runs) (sym end_is))
                        (ap (λ x. x.1.node_runs) (sym end_is)
                          ∙ ap
                              (λ d.
                                (save_run r' (save_node_run (resumed_node now d n) s)).node_runs)
                              out_is) in
                    (
                      wrote.touches,
                      record {
                        row = n';
                        found = wrote.row;
                        as_status = refl;
                        as_output = λ _. refl;
                      },
                    ))))

checked-ok : {A : Type 0} (m : Checked A) (a : A) → checked m ≡ ok a → m ≡ passed a
checked-ok (passed x) a h = cc
checked-ok (value_error e) a h = cc
checked-ok crash a h = cc

module _ (run_id : String) (c : FlowContent) where
  module _ {E : Type 0} (sv : Services E) (now : ℕ) (p : Payload) (s : Store)
      (own : p.run_id ≡ run_id) where
    pub create_callback-Touches :
        (i : String) (t : Store)
        → create_callback sv now i p s ≡ ok t
        → Touches run_id c p.node_id s t
    unfolding create_callback emit save_run save_node_run
    create_callback-Touches i t h = after (load s p.run_id p.node_id) _ t h (λ (r, n₀) found h₁.
        let n = calling_node p n₀ in
        after (checked (create_callback_wait sv.crypto sv.texts now i r n p.node_data.config s)) _ t
          h₁
          (λ (w, s₁) made h₂.
            let (here, row) = loaded run_id c sv.texts now p s own r n₀ found in
            let (_, _, _, _, _, _, is_s₁) =
              create_callback_wait-bounds sv.crypto sv.texts now i r n p.node_data.config s s₁ w
                (checked-ok _ (w, s₁) made) in
            let end_is = ok-inj _ t h₂ in
            let wrote =
              node_then_run run_id c p.node_id s s₁ t r (with_status RunStatus.waiting_callback r)
                n₀ _ here row (record { id = refl; node = refl; run = refl }) refl
                (ap (λ x. x.runs) is_s₁) (ap (λ x. x.node_runs) is_s₁)
                (ap (λ x. x.runs) (sym end_is)) (ap (λ x. x.node_runs) (sym end_is)) in
            wrote.touches))

    pub complete_callback-IsShown :
        (signal out : Fields) (t : Store)
        → complete_callback sv now p signal s ≡ ok (out, t)
        → Touches run_id c p.node_id s t
          × IsShown run_id c p.node_id NodeRunStatus.success (some out) t
    unfolding complete_callback emit save_run save_node_run
    complete_callback-IsShown signal out t h =
        after (load s p.run_id p.node_id) _ (out, t) h
          (λ (r, n) found h₁.
            after (spread n.input_data) _ (out, t) h₁
              (λ inputs _ h₂.
                after (spread_data (redacted_data sv now (get "data" signal))) _ (out, t) h₂
                  (λ given _ h₃.
                    let (here, row) = loaded run_id c sv.texts now p s own r n found in
                    let end_is = ok-inj _ (out, t) h₃ in
                    let out_is = ap (λ x. x.0) end_is in
                    let n' = received_node now out n in
                    let r' = with_status RunStatus.running r in
                    let wrote =
                      node_then_run run_id c p.node_id s s t r r' n n' here row
                        (record { id = refl; node = refl; run = refl }) refl refl refl
                        (ap (λ x. x.1.runs) (sym end_is))
                        (ap (λ x. x.1.node_runs) (sym end_is)
                          ∙ ap
                              (λ d.
                                (save_run r' (save_node_run (received_node now d n) s)).node_runs)
                              out_is) in
                    (
                      wrote.touches,
                      record {
                        row = n';
                        found = wrote.row;
                        as_status = refl;
                        as_output = λ _. refl;
                      },
                    ))))
