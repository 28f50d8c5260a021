-- ===== src/Projection/Refined.antt =====
-- The tables after a run under the server, for `_execute_node` and for the whole workflow.
use flow_demo.Base.{
  ℕ, ◌-◌, String, true, Option, none, some, ◌≡◌, refl, ◌∙◌, inl, inr, Bool-cases, ◌==◌, eq_iff, In,
  find?-some,
}
use flow_demo.Json.{Json, Fields}
use flow_demo.Enums.{RunStatus, NodeRunStatus}
use flow_demo.Content.{FlowContent, keys}
use flow_demo.Models.Runs.{FlowRun, NodeRun}
use flow_demo.Table.{row_at-save_self}
use flow_demo.Workflow.Activities.{Result, ok, err, Reply, Payload, Mark}
use flow_demo.Workflow.Engine.{terminal_success, max_attempts, Sched}
use flow_demo.Workflow.Run.{execute_node, then_reply, execute_with, run, succeeded, mark_success}
use flow_demo.Workflow.Completion.{run-IsSettled}
use flow_demo.Workflow.Tracked.{IsTracking, Keeps, run-Agrees}
use flow_demo.Callback.Store.{Store, run_at, save_run, save_node_run}
use flow_demo.Projection.World.{World, Services, node_row, load, emit}
use flow_demo.Projection.Marks.{
  marked, mark_found, mark_run, skipped_node, skip_found, mark_node_skipped,
}
use flow_demo.Projection.Waits.{create_manual_wait, create_callback}
use flow_demo.Projection.Server.{server}
use flow_demo.Projection.Rows.{
  IsIntact, Touches, Touches-trans, Touches-same, Wrote, Wrote-start, Wrote-node, Wrote-same,
  load-ok,
}
use flow_demo.Projection.Executed.{IsShown, IsEffect}
use flow_demo.Projection.Waited.{
  create_manual_wait-Touches, complete_manual_wait-IsShown, create_callback-Touches,
  complete_callback-IsShown,
}
use flow_demo.Projection.Served.{
  IsQuiet, IsEffect-later, repeated-lem, tried-IsEffect, created-Touches, completed-IsEffect,
}

module _ {E : Type 0} (sv : Services E) (quiet : IsQuiet sv) (tries : ℕ) (run_id : String)
    (c : FlowContent) where
  module _ (p : Payload) (own : p.run_id ≡ run_id) where
    -- a wait made, the signal awaited, and the wait completed
    after_wait :
        (w : World E) (made : Result (Unit {0}) × World E) (await : World E → Fields × World E)
        (complete : Fields → World E → Result Reply × World E)
        → Touches run_id c p.node_id w.store (made.1.store)
        → ((v : World E)
            → ((await v).1.store.runs ≡ v.store.runs)
              × ((await v).1.store.node_runs ≡ v.store.node_runs))
        → ((signal : Fields) (v : World E)
            → IsEffect run_id c p.node_id v.store
                ((complete signal v).0)
                ((complete signal v).1.store))
        → IsEffect run_id c p.node_id w.store
            ((then_reply (server sv tries) made (λ v. complete ((await v).0) ((await v).1))).0)
            ((then_reply
              (server sv tries)
              made
              (λ v. complete ((await v).0) ((await v).1))).1.store)
    after_wait w (err e, v) await complete first still then_done = record {
      touches = first;
      shows = λ out q. cc;
    }
    after_wait w (ok _, v) await complete first still then_done =
        let (runs, nodes) = still v in
        let waited = Touches-same run_id c p.node_id v.store (await v).1.store runs nodes in
        IsEffect-later sv quiet run_id c p.node_id w.store (await v).1.store _ _
          (Touches-trans run_id c first waited) (then_done ((await v).0) ((await v).1))

    manual-IsEffect :
        (w : World E)
        → IsEffect run_id c p.node_id w.store
            ((then_reply (server sv tries) ((server sv tries).create_manual_wait p w) (λ v.
              (server sv tries).complete_manual_wait p
                ((sv.await_manual p.node_id v).0)
                ((sv.await_manual p.node_id v).1))).0)
            ((then_reply (server sv tries) ((server sv tries).create_manual_wait p w) (λ v.
              (server sv tries).complete_manual_wait p
                ((sv.await_manual p.node_id v).0)
                ((sv.await_manual p.node_id v).1))).1.store)
    unfolding server
    manual-IsEffect w =
        after_wait w _ (sv.await_manual p.node_id) ((server sv tries).complete_manual_wait p)
          (repeated-lem sv quiet run_id c p.node_id (λ s r t. Touches run_id c p.node_id s t)
            (λ s t r u f g. Touches-trans run_id c f g) (λ s r t f. f) tries _ w
            (λ v.
              created-Touches sv quiet run_id c p own v
                (create_manual_wait sv.texts (sv.now v.outside) (sv.new_id v.outside) p v.store)
                (λ t h.
                  create_manual_wait-Touches run_id c sv.texts (sv.now v.outside) p v.store own
                    (sv.new_id v.outside) t h)))
          (quiet.manual p.node_id)
          (λ signal v.
            repeated-lem sv quiet run_id c p.node_id (IsEffect run_id c p.node_id)
              (IsEffect-later sv quiet run_id c p.node_id) (λ s r t f. f.touches) tries _ v
              (λ u. completed-IsEffect sv quiet run_id c p own u _ (λ out t h.
                complete_manual_wait-IsShown run_id c sv.texts (sv.now u.outside) p u.store own _
                  signal out t h)))

    callback-IsEffect :
        (w : World E)
        → IsEffect run_id c p.node_id w.store
            ((then_reply (server sv tries) ((server sv tries).create_callback_wait p w) (λ v.
              (server sv tries).complete_callback_wait p
                ((sv.await_callback p.node_id v).0)
                ((sv.await_callback p.node_id v).1))).0)
            ((then_reply (server sv tries) ((server sv tries).create_callback_wait p w) (λ v.
              (server sv tries).complete_callback_wait p
                ((sv.await_callback p.node_id v).0)
                ((sv.await_callback p.node_id v).1))).1.store)
    unfolding server
    callback-IsEffect w =
        after_wait w _ (sv.await_callback p.node_id) ((server sv tries).complete_callback_wait p)
          (repeated-lem sv quiet run_id c p.node_id (λ s r t. Touches run_id c p.node_id s t)
            (λ s t r u f g. Touches-trans run_id c f g) (λ s r t f. f) tries _ w
            (λ v.
              created-Touches sv quiet run_id c p own v
                (create_callback sv (sv.now v.outside) (sv.new_id v.outside) p v.store)
                (λ t h.
                  create_callback-Touches run_id c sv (sv.now v.outside) p v.store own
                    (sv.new_id v.outside) t h)))
          (quiet.callback p.node_id)
          (λ signal v.
            repeated-lem sv quiet run_id c p.node_id (IsEffect run_id c p.node_id)
              (IsEffect-later sv quiet run_id c p.node_id) (λ s r t f. f.touches) tries _ v
              (λ u. completed-IsEffect sv quiet run_id c p own u _ (λ out t h.
                complete_callback-IsShown run_id c sv (sv.now u.outside) p u.store own signal out t
                  h)))

    execute_with-IsEffect :
        (o : Option ℕ) (w : World E)
        → IsEffect run_id c p.node_id w.store
            ((execute_with (server sv tries) o p w).0)
            ((execute_with (server sv tries) o p w).1.store)
    unfolding server
    execute_with-IsEffect none w = record {
      touches = Touches-same run_id c p.node_id w.store w.store refl refl;
      shows = λ out q. cc;
    }
    execute_with-IsEffect (some most) w = tried-IsEffect sv quiet run_id c p own (most - 1) 1 w

    execute_node-IsEffect :
        (w : World E)
        → IsEffect run_id c p.node_id w.store
            ((execute_node (server sv tries) p w).0)
            ((execute_node (server sv tries) p w).1.store)
    unfolding execute_node server
    execute_node-IsEffect w = elim (Bool-cases (p.node_data.node_type == "manual_approval")) [
      | inl manual ↦ rw manual (manual-IsEffect w)
      | inr other ↦ elim (Bool-cases (p.node_data.node_type == "http_callback")) [
        | inl callback ↦ rw (other, callback) (callback-IsEffect w)
        | inr plain ↦ rw (other, plain) (execute_with-IsEffect (max_attempts p.node_data) w)
      ]
    ]

  Shown : String → NodeRunStatus → Option Fields → World E → Type 0
  Shown j st o w = IsShown run_id c j st o w.store

  Rooted : World E → Type 0
  Rooted w = IsIntact run_id c w.store

  Touches-Keeps :
      (j : String) (w w' : World E)
      → Touches run_id c j w.store w'.store
      → Keeps (server sv tries) run_id c Rooted Shown j w w'
  unfolding Rooted Shown
  Touches-Keeps j w w' h = record {
    base = h.intact;
    others = λ k st o b ne shown. record {
      row = shown.row;
      found = h.frame b k ne ∙ shown.found;
      as_status = shown.as_status;
      as_output = shown.as_output;
    };
  }

  skip_found-Wrote :
      (now : ℕ) (j : String) (s : Store) (r : FlowRun) (n : NodeRun)
      → node_row s run_id j ≡ some n
      → Wrote run_id c j (skipped_node now n) s (skip_found now s (ok (r, n)))
  unfolding emit save_node_run
  skip_found-Wrote now j s r n row =
      let n' = skipped_node now n in
      Wrote-same run_id c j n' s (save_node_run n' s) (skip_found now s (ok (r, n)))
        (Wrote-node run_id c j n n' s s (Wrote-start run_id c j n s row)
          (record { id = refl; node = refl; run = refl }))
        refl refl

  skip_found-Touches :
      (now : ℕ) (j : String) (s : Store) (o : Result (FlowRun × NodeRun))
      → ((r : FlowRun) (n : NodeRun) → o ≡ ok (r, n) → node_row s run_id j ≡ some n)
      → Touches run_id c j s (skip_found now s o)
  skip_found-Touches now j s (err e) row = Touches-same run_id c j s s refl refl
  skip_found-Touches now j s (ok (r, n)) row = (skip_found-Wrote now j s r n (row r n refl)).touches

  mark_found-rows :
      (now : ℕ) (m : Mark) (s : Store) (o : Option FlowRun)
      → (mark_found now m s o).node_runs ≡ s.node_runs
  unfolding emit save_run
  mark_found-rows now m s none = refl
  mark_found-rows now m s (some r) = refl

  mark_found-run :
      (now : ℕ) (m : Mark) (s : Store) (r : FlowRun)
      → run_at s run_id ≡ some r
      → run_at (mark_found now m s (some r)) run_id ≡ some (marked now m r)
  unfolding emit save_run
  mark_found-run now m s r here =
      let (_, e) = find?-some (λ (x : FlowRun). x.id == run_id) r s.runs here in
      row_at-save_self (λ x. x.id) (marked now m r) r run_id s.runs ((eq_iff r.id run_id).0 e) here

  mark_run-marked :
      (now : ℕ) (m : Mark) (s : Store)
      → m.run_id ≡ run_id
      → IsIntact run_id c s
      → (r : FlowRun) × (run_at (mark_run now m s) run_id ≡ some (marked now m r))
        × IsIntact run_id c (mark_run now m s)
  unfolding mark_run
  mark_run-marked now m s own h =
      let (r, here) = h.run in
      let found : run_at s m.run_id ≡ some r = rw own here in
      let nodes = mark_found-rows now m s (some r) in
      let there = mark_found-run now m s r here in
      rw found (
        r,
        there,
        record {
          run = (marked now m r, there);
          nodes = λ k i. (let (n, e) = h.nodes k i in (n, rw nodes e));
          keyed = λ x y mx my. h.keyed x y (rw nodes at mx) (rw nodes at my);
        },
      )

  skipped-Touches :
      (now : ℕ) (j : String) (s : Store) → Touches run_id c j s (mark_node_skipped now run_id j s)
  unfolding mark_node_skipped
  skipped-Touches now j s =
      skip_found-Touches now j s (load s run_id j) (λ r n e. (load-ok s run_id j r n e).1)

  skipped-IsShown :
      (now : ℕ) (j : String) (o : Option Fields) (s : Store)
      → In j (keys c.nodes)
      → IsIntact run_id c s
      → IsShown run_id c j NodeRunStatus.skipped o (mark_node_skipped now run_id j s)
  unfolding mark_node_skipped load
  skipped-IsShown now j o s m h =
      let (r, here) = h.run in
      let (n, row) = h.nodes j m in
      let loaded : load s run_id j ≡ ok (r, n) = rw (here, row) refl in
      record {
        row = skipped_node now n;
        found = rw loaded (skip_found-Wrote now j s r n row).row;
        as_status = refl;
        as_output = λ e. cc;
      }

  marked_rows : (now : ℕ) (m : Mark) (s : Store) → (mark_run now m s).node_runs ≡ s.node_runs
  unfolding mark_run
  marked_rows now m s = mark_found-rows now m s (run_at s m.run_id)

  server-IsTracking : IsTracking (server sv tries) run_id c Rooted Shown
  unfolding Rooted Shown server
  server-IsTracking = record {
    executes = λ p w own. Touches-Keeps p.node_id w _ (execute_node-IsEffect p own w).touches;
    shows = λ p w out own b e. (execute_node-IsEffect p own w).shows out e;
    skips = λ j w. Touches-Keeps j w _ (skipped-Touches (sv.now w.outside) j w.store);
    shows_skip = λ j o w m b. skipped-IsShown (sv.now w.outside) j o w.store m b;
    marks = λ m w own b. (mark_run-marked (sv.now w.outside) m w.store own b).2;
    marks_rows = λ m j st o w shown. record {
      row = shown.row;
      found = rw (marked_rows (sv.now w.outside) m w.store) shown.found;
      as_status = shown.as_status;
      as_output = shown.as_output;
    };
  }

-- Under the server, and as long as others leave the rows of runs and node runs alone meanwhile, a run
-- that succeeds has its outcome in the tables: the run's row is SUCCESS with the run's output and
-- the time of the end, and the row of each node shows the status that the workflow has for it, which
-- is SUCCESS or SKIPPED, with its output where it is SUCCESS.
pub run-IsShown :
    {E : Type 0} (sv : Services E) (tries fuel : ℕ) (run_id : String) (c : FlowContent)
    (run_input : Fields) (w w' : World E) (output : Json) (s : Sched) (j : String)
    → IsQuiet sv
    → IsIntact run_id c w.store
    → run (server sv tries) fuel run_id c run_input w ≡ succeeded output s w'
    → In j (keys c.nodes)
    → ((r : FlowRun) × (run_at w'.store run_id ≡ some r)
        × (r.status ≡ RunStatus.success)
        × (r.output_data ≡ some output)
        × (r.finished_at ≡ some (sv.now w'.outside)))
      × (terminal_success (s.statuses j) ≡ true)
      × IsShown run_id c j (s.statuses j) (s.outputs j) w'.store
unfolding Rooted Shown server
run-IsShown {E} sv tries fuel run_id c run_input w w' output s j quiet intact e m =
    let act = server sv tries in
    let (ended, _) = run-IsSettled act fuel run_id c run_input w w' output s e j m in
    let (v, agrees, end_is) =
      run-Agrees act run_id c (Rooted sv quiet tries run_id c) (Shown sv quiet tries run_id c)
        (server-IsTracking sv quiet tries run_id c) fuel run_input s w w' output intact e in
    let mark = mark_success act fuel run_id c run_input output in
    let (r, found, _) =
      mark_run-marked sv quiet tries run_id c (sv.now v.outside) mark v.store refl agrees.base in
    let shown = agrees.rows j m ended in
    rw end_is (
      (marked (sv.now v.outside) mark r, found, refl, refl, refl),
      ended,
      record {
        row = shown.row;
        found =
            rw (marked_rows sv quiet tries run_id c (sv.now v.outside) mark v.store) shown.found;
        as_status = shown.as_status;
        as_output = shown.as_output;
      },
    )
