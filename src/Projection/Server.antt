-- ===== src/Projection/Server.antt =====
-- The activities under the Temporal server: the interface `Activities` of the workflow, filled with
-- the bodies of app/temporal/activities.py.
use flow_demo.Base.{ℕ, zero, suc, ◌+◌, ◌-◌, String}
use flow_demo.Json.{Fields}
use flow_demo.Workflow.Activities.{Result, ok, err, Reply, done, Payload, Activities}
use flow_demo.Callback.Store.{Store}
use flow_demo.Projection.World.{World, Services}
use flow_demo.Projection.Marks.{mark_run, mark_node_skipped, mark_node_failed}
use flow_demo.Projection.Execute.{execute_once}
use flow_demo.Projection.Waits.{
  create_manual_wait, complete_manual_wait, create_callback, complete_callback,
}

-- a session that commits, and one that is rolled back
abbrev pub in_store :
    {E A B : Type 0} → (A → B) → (A → Store) → World E → Result A → Result B × World E
in_store f g w (ok a) = (ok (f a), record w { store = g a })
in_store f g w (err e) = (err e, w)

-- what follows a try that raised
abbrev pub or_again :
    {E A : Type 0}
    → Result A × World E
    → (String → World E → Result A × World E)
    → Result A × World E
or_again (ok a, w) next = (ok a, w)
or_again (err e, w) next = next e w

module _ {E : Type 0} (sv : Services E) where
  -- An activity that raises is tried again after what others do in between. The server sets no limit
  -- to this; the model stops after so many tries and answers the last error.
  unfoldable pub repeated :
      {A : Type 0} → ℕ → (World E → Result A × World E) → World E → Result A × World E
  repeated zero body w = body w
  repeated (suc tries) body w = or_again (body w) (λ e w'. repeated tries body (sv.others w'))

  -- `execute_node_activity` under the retry policy, with so many tries left after this one; the
  -- workflow sees the failure of the last
  unfoldable pub tried : ℕ → ℕ → Payload → World E → Result Reply × World E
  unfolding execute_once
  tried zero number p w =
      or_again (execute_once sv (sv.now w.outside) p number w)
        (λ e w'. (err (sv.failure_text e), w'))
  tried (suc left) number p w =
      or_again (execute_once sv (sv.now w.outside) p number w)
        (λ e w'. tried left (number + 1) p (sv.others w'))

  abbrev pub reply_of : Fields × Store → Reply
  reply_of (out, s) = done out

  abbrev pub store_of : Fields × Store → Store
  store_of (out, s) = s

  unfoldable pub server : ℕ → Activities (World E)
  unfolding mark_run mark_node_skipped mark_node_failed repeated tried create_manual_wait
      complete_manual_wait create_callback complete_callback
  server tries = record {
    mark_run = λ m w. record w { store = mark_run (sv.now w.outside) m w.store };
    mark_node_skipped =
        λ r j w. record w { store = mark_node_skipped (sv.now w.outside) r j w.store };
    mark_node_failed =
        λ r j e w. record w { store = mark_node_failed (sv.now w.outside) r j e w.store };
    execute_node = λ p most w. tried (most - 1) 1 p w;
    create_manual_wait = λ p. repeated tries (λ w.
        in_store (λ s. tt) (λ s. s) w
          (create_manual_wait sv.texts (sv.now w.outside) (sv.new_id w.outside) p w.store));
    complete_manual_wait = λ p signal. repeated tries (λ w. in_store reply_of store_of w (
        complete_manual_wait sv.texts (sv.now w.outside) (sv.isoformat (sv.now w.outside)) p signal
          w.store));
    create_callback_wait = λ p. repeated tries (λ w.
        in_store (λ s. tt) (λ s. s) w
          (create_callback sv (sv.now w.outside) (sv.new_id w.outside) p w.store));
    complete_callback_wait = λ p signal. repeated tries (λ w.
        in_store reply_of store_of w (complete_callback sv (sv.now w.outside) p signal w.store));
    await_manual = sv.await_manual;
    await_callback = sv.await_callback;
  }
