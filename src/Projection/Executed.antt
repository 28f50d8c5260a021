-- ===== src/Projection/Executed.antt =====
-- What one try of `execute_node_activity` leaves in the rows.
use flow_demo.Base.{ℕ, String, true, Option, none, some, List, [], ◌∷◌, ◌≡◌, refl, ap, subst}
use flow_demo.Base.Int.{pos}
use flow_demo.Json.{Json, Fields, str, num, obj, end, field}
use flow_demo.Enums.{NodeRunStatus}
use flow_demo.Content.{FlowContent}
use flow_demo.Models.Runs.{FlowRun, NodeRun, NodeRunAttempt}
use flow_demo.Redaction.{redact_fields}
use flow_demo.Workflow.Activities.{Result, ok, err, Reply, done, poll_pending, Payload}
use flow_demo.Workflow.Engine.{is_success}
use flow_demo.Callback.Store.{Store, run_at, save_run, save_node_run, save_attempt, attempt_of}
use flow_demo.Projection.World.{
  World, Handled, output, pending, Services, emit, load, node_row, ◌>>=◌,
}
use flow_demo.Projection.Execute.{
  open_attempt, started_node, succeeded_node, polling_node, broken_node, patched, patch_with,
  apply_flow_config_patch, succeed, wait_for_poll, break, after_patch, after_handler, with_effects,
  handle_resolved, execute_found, execute_once, template_data,
}
use flow_demo.Projection.Rows.{
  Touches, Touches-same, SameKeys, Wrote, Wrote-start, Wrote-node, Wrote-same, Wrote-run, load-ok,
}

abbrev as_object : Option Fields → Option Json
as_object none = none
as_object (some d) = some (obj d)

module _ (run_id : String) (c : FlowContent) where
  -- the row of a node shows a status, and where it is SUCCESS an output
  pub record IsShown (j : String) (status : NodeRunStatus) (out : Option Fields) (s : Store)
      : Type 0 where
    pub row : NodeRun
    pub found : node_row s run_id j ≡ some row
    pub as_status : row.status ≡ status
    pub as_output : is_success status ≡ true → row.output_data ≡ as_object out

  -- an activity for a node writes its rows only, and an output that it answers is in the row
  pub record IsEffect (j : String) (s : Store) (r : Result Reply) (t : Store) : Type 0 where
    pub touches : Touches run_id c j s t
    pub shows : (out : Fields) → r ≡ ok (done out) → IsShown j NodeRunStatus.success (some out) t

  open_attempt-rows :
      (now : ℕ) (i : String) (n : NodeRun) (s : Store) (o : Option NodeRunAttempt)
      → ((open_attempt now i n s o).1.runs ≡ s.runs)
        × ((open_attempt now i n s o).1.node_runs ≡ s.node_runs)
  unfolding save_attempt
  open_attempt-rows now i n s none = (refl, refl)
  open_attempt-rows now i n s (some a) = (refl, refl)

  module _ {E : Type 0} (sv : Services E) (now : ℕ) (j : String) (s₀ : Store) where
    break-IsEffect :
        (r : FlowRun) (n : NodeRun) (a : NodeRunAttempt) (e : String) (s : Store)
        → Wrote run_id c j n s₀ s
        → IsEffect j s₀ (err e) (break sv now r n a e s)
    unfolding emit save_attempt save_node_run
    break-IsEffect r n a e s h =
        let same : SameKeys run_id c n (broken_node e n) = record {
          id = refl;
          node = refl;
          run = refl;
        } in
        let w = Wrote-node run_id c j n (broken_node e n) s₀ s h same in
        record {
          touches =
              (Wrote-same run_id c j (broken_node e n) s₀ _ (break sv now r n a e s) w refl
                refl).touches;
          shows = λ out q. cc;
        }

    wait-IsEffect :
        (r : FlowRun) (n : NodeRun) (a : NodeRunAttempt) (delay : ℕ) (last : Fields) (s : Store)
        → Wrote run_id c j n s₀ s
        → IsEffect j s₀ (ok (poll_pending delay last)) (wait_for_poll sv now r n a delay last s)
    unfolding emit save_attempt save_node_run
    wait-IsEffect r n a delay last s h =
        let n' = polling_node now delay last n in
        let same : SameKeys run_id c n n' = record { id = refl; node = refl; run = refl } in
        let w = Wrote-node run_id c j n n' s₀ s h same in
        record {
          touches =
              (Wrote-same run_id c j n' s₀ _ (wait_for_poll sv now r n a delay last s) w refl
                refl).touches;
          shows = λ out q. cc;
        }

    succeed-IsEffect :
        (r : FlowRun) (n : NodeRun) (a : NodeRunAttempt) (out : Fields) (s : Store)
        → Wrote run_id c j n s₀ s
        → IsEffect j s₀ (ok (done out)) (succeed sv now r n a out s)
    unfolding emit save_attempt save_node_run
    succeed-IsEffect r n a out s h =
        let n' = succeeded_node now out n in
        let same : SameKeys run_id c n n' = record { id = refl; node = refl; run = refl } in
        let w = Wrote-node run_id c j n n' s₀ s h same in
        let w' = Wrote-same run_id c j n' s₀ _ (succeed sv now r n a out s) w refl refl in
        record {
          touches = w'.touches;
          shows = λ o q. record {
            row = n';
            found = w'.row;
            as_status = refl;
            as_output = λ _. (let e : out ≡ o = cc in ap (λ d. some (obj d)) e);
          };
        }

    patched-Wrote :
        (r : FlowRun) (n : NodeRun) (resolved next : Fields) (es : List String) (s : Store)
        (r' : FlowRun) (s' : Store)
        → Wrote run_id c j n s₀ s
        → run_at s run_id ≡ some r
        → patched sv now r n resolved next es s ≡ ok (r', s')
        → Wrote run_id c j n s₀ s'
    unfolding emit save_run
    patched-Wrote r n resolved next (e ∷ es) s r' s' h here q = cc
    patched-Wrote r n resolved next [] s r' s' h here q =
        let r₁ = record r { flow_config = next } in
        let w = Wrote-run run_id c j n s₀ s r r₁ h here refl in
        let u =
          emit now r₁ "FLOW_CONFIG_PATCHED"
            (field "patch" (obj resolved) (field "flowConfig" (obj next) end)) (some n.node_id)
            (save_run r₁ s) in
        let e : u ≡ s' = cc q in
        subst (Wrote run_id c j n s₀) e (Wrote-same run_id c j n s₀ (save_run r₁ s) u w refl refl)

    patch-Wrote :
        (r : FlowRun) (n : NodeRun) (patch : Option Fields) (templates : Fields) (s : Store)
        (r' : FlowRun) (s' : Store)
        → Wrote run_id c j n s₀ s
        → run_at s run_id ≡ some r
        → apply_flow_config_patch sv now r n patch templates s ≡ ok (r', s')
        → Wrote run_id c j n s₀ s'
    unfolding apply_flow_config_patch
    patch-Wrote r n none templates s r' s' h here q = subst (Wrote run_id c j n s₀) (cc q) h
    patch-Wrote r n (some patch) templates s r' s' h here q = go (sv.resolve patch templates) q
      where
        go :
            (o : Result Fields)
            → (o >>= λ d. patch_with sv now r n d s) ≡ ok (r', s')
            → Wrote run_id c j n s₀ s'
        go (err e) q = cc
        go (ok end) q = subst (Wrote run_id c j n s₀) (cc q) h
        go (ok (field k v d)) q = patched-Wrote r n (field k v d) _ _ s r' s' h here q

    after_patch-IsEffect :
        (r : FlowRun) (n : NodeRun) (a : NodeRunAttempt) (out : Fields) (s : Store)
        (o : Result (FlowRun × Store))
        → Wrote run_id c j n s₀ s
        → ((r' : FlowRun) (s' : Store) → o ≡ ok (r', s') → Wrote run_id c j n s₀ s')
        → IsEffect j s₀
            ((after_patch sv now n a out r s o).0)
            ((after_patch sv now n a out r s o).1)
    after_patch-IsEffect r n a out s (ok (r', s')) h step =
        succeed-IsEffect r' n a out s' (step r' s' refl)
    after_patch-IsEffect r n a out s (err e) h step = break-IsEffect r n a e s h

    after_handler-IsEffect :
        (r : FlowRun) (n : NodeRun) (a : NodeRunAttempt) (patch : Option Fields)
        (templates : Fields) (s : Store) (o : Result Handled)
        → Wrote run_id c j n s₀ s
        → run_at s run_id ≡ some r
        → IsEffect j s₀
            ((after_handler sv now r n a patch templates s o).0)
            ((after_handler sv now r n a patch templates s o).1)
    after_handler-IsEffect r n a patch templates s (ok (output out)) h here =
        after_patch-IsEffect r n a (redact_fields out) s
          (apply_flow_config_patch sv now r n patch templates s) h
          (λ r' s' q. patch-Wrote r n patch templates s r' s' h here q)
    after_handler-IsEffect r n a patch templates s (ok (pending delay last)) h here =
        wait-IsEffect r n a delay (redact_fields last) s h
    after_handler-IsEffect r n a patch templates s (err e) h here = break-IsEffect r n a e s h

    handle_resolved-IsEffect :
        (p : Payload) (r : FlowRun) (n : NodeRun) (a : NodeRunAttempt) (templates : Fields)
        (s : Store) (e : E) (o : Result Fields)
        → Wrote run_id c j n s₀ s
        → run_at s run_id ≡ some r
        → IsEffect j s₀
            ((handle_resolved sv now p r n a templates s e o).0)
            ((handle_resolved sv now p r n a templates s e o).1.store)
    handle_resolved-IsEffect p r n a templates s e (err m) h here = break-IsEffect r n a m s h
    handle_resolved-IsEffect p r n a templates s e (ok config) h here =
        let x = (sv.handle n p.inputs config (record { store = s; outside = e })).1 in
        let u = with_effects sv now x s in
        after_handler-IsEffect r n a p.node_data.flow_config_patch templates u
          ((sv.handle n p.inputs config (record { store = s; outside = e })).0)
          (Wrote-same run_id c j n s₀ s u h refl refl) here

  execute_found-IsEffect :
      {E : Type 0} (sv : Services E) (now : ℕ) (p : Payload) (tries : ℕ) (w : World E)
      (o : Result (FlowRun × NodeRun))
      → ((r : FlowRun) (n : NodeRun)
          → o ≡ ok (r, n)
          → (run_at w.store run_id ≡ some r) × (node_row w.store run_id p.node_id ≡ some n))
      → IsEffect p.node_id w.store
          ((execute_found sv now p tries w o).0)
          ((execute_found sv now p tries w o).1.store)
  unfolding emit save_node_run
  execute_found-IsEffect sv now p tries w (err m) loaded = record {
    touches = Touches-same run_id c p.node_id w.store w.store refl refl;
    shows = λ out q. cc;
  }
  execute_found-IsEffect sv now p tries w (ok (r, n₀)) loaded =
      let (here, row) = loaded r n₀ refl in
      let n = started_node now p tries n₀ in
      let same : SameKeys run_id c n₀ n = record { id = refl; node = refl; run = refl } in
      let s₁ = save_node_run n w.store in
      let o = attempt_of s₁ n.id n.attempts in
      let i = sv.new_id w.outside in
      let s₂ = (open_attempt now i n s₁ o).1 in
      let (runs, nodes) = open_attempt-rows now i n s₁ o in
      let h₁ =
        Wrote-node run_id c p.node_id n₀ n w.store w.store
          (Wrote-start run_id c p.node_id n₀ w.store row) same in
      let s₃ =
        emit now r "NODE_STARTED"
          (field "status" (str "RUNNING") (field "attempt" (num (pos n.attempts)) end))
          (some n.node_id) s₂ in
      let h₃ = Wrote-same run_id c p.node_id n w.store s₁ s₃ h₁ runs nodes in
      let here₃ : run_at s₃ run_id ≡ some r = rw runs here in
      let templates = template_data s₃ r n p.inputs in
      handle_resolved-IsEffect sv now p.node_id w.store p r n ((open_attempt now i n s₁ o).0)
        templates s₃ w.outside (sv.resolve n.config templates) h₃ here₃

  pub execute_once-IsEffect :
      {E : Type 0} (sv : Services E) (now : ℕ) (p : Payload) (tries : ℕ) (w : World E)
      → p.run_id ≡ run_id
      → IsEffect p.node_id w.store
          ((execute_once sv now p tries w).0)
          ((execute_once sv now p tries w).1.store)
  unfolding execute_once
  execute_once-IsEffect sv now p tries w own =
      execute_found-IsEffect sv now p tries w (load w.store p.run_id p.node_id)
        (λ r n e. load-ok w.store run_id p.node_id r n (rw own at e))
