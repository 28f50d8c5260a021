-- ===== src/Projection/Served.antt =====
-- The activities under the server keep the rows as a projection of the run.
use flow_demo.Base.{ℕ, zero, suc, ◌+◌, String, some, ◌≡◌, refl, subst}
use flow_demo.Json.{Fields}
use flow_demo.Enums.{NodeRunStatus}
use flow_demo.Content.{FlowContent}
use flow_demo.Workflow.Activities.{Result, ok, err, Reply, Payload}
use flow_demo.Callback.Store.{Store}
use flow_demo.Projection.World.{World, Services}
use flow_demo.Projection.Execute.{execute_once}
use flow_demo.Projection.Server.{in_store, or_again, repeated, tried, reply_of, store_of}
use flow_demo.Projection.Rows.{Touches, Touches-trans, Touches-same}
use flow_demo.Projection.Executed.{IsShown, IsEffect, execute_once-IsEffect}

-- while the workflow waits, others leave the rows of runs and node runs alone
pub record IsQuiet {E : Type 0} (sv : Services E) : Type 0 where
  pub others :
      (w : World E)
      → ((sv.others w).store.runs ≡ w.store.runs)
        × ((sv.others w).store.node_runs ≡ w.store.node_runs)
  pub manual :
      (j : String) (w : World E)
      → ((sv.await_manual j w).1.store.runs ≡ w.store.runs)
        × ((sv.await_manual j w).1.store.node_runs ≡ w.store.node_runs)
  pub callback :
      (j : String) (w : World E)
      → ((sv.await_callback j w).1.store.runs ≡ w.store.runs)
        × ((sv.await_callback j w).1.store.node_runs ≡ w.store.node_runs)

module _ {E : Type 0} (sv : Services E) (quiet : IsQuiet sv) (run_id : String)
    (c : FlowContent) where
  pub IsEffect-later :
      (j : String) (s t : Store) (r : Result Reply) (u : Store)
      → Touches run_id c j s t
      → IsEffect run_id c j t r u
      → IsEffect run_id c j s r u
  IsEffect-later j s t r u first then_r = record {
    touches = Touches-trans run_id c first then_r.touches;
    shows = then_r.shows;
  }

  quiet-Touches :
      (j : String) (s : Store) (w : World E)
      → Touches run_id c j s w.store
      → Touches run_id c j s (sv.others w).store
  quiet-Touches j s w h =
      let (runs, nodes) = quiet.others w in
      Touches-trans run_id c h (Touches-same run_id c j w.store (sv.others w).store runs nodes)

  -- an activity that is repeated does what its tries do
  pub repeated-lem :
      {A : Type 0} (j : String) (P : Store → Result A → Store → Type 0)
      → ((s t : Store) (r : Result A) (u : Store) → Touches run_id c j s t → P t r u → P s r u)
      → ((s : Store) (r : Result A) (t : Store) → P s r t → Touches run_id c j s t)
      → (tries : ℕ) (body : World E → Result A × World E) (w : World E)
      → ((w : World E) → P w.store ((body w).0) ((body w).1.store))
      → P w.store ((repeated sv tries body w).0) ((repeated sv tries body w).1.store)
  unfolding repeated
  repeated-lem j P later touch zero body w one = one w
  repeated-lem {A} j P later touch (suc tries) body w one =
      go (body w) (one w) (λ w'. repeated-lem j P later touch tries body w' one)
    where
      go :
          (r : Result A × World E)
          → P w.store (r.0) (r.1.store)
          → ((w' : World E)
              → P w'.store ((repeated sv tries body w').0) ((repeated sv tries body w').1.store))
          → P w.store
              ((or_again r (λ e w'. repeated sv tries body (sv.others w'))).0)
              ((or_again r (λ e w'. repeated sv tries body (sv.others w'))).1.store)
      go (ok a, w') h ih = h
      go (err e, w') h ih =
          later w.store (sv.others w').store _ _
            (quiet-Touches j w.store w' (touch w.store (err e) w'.store h)) (ih (sv.others w'))

  module _ (p : Payload) (own : p.run_id ≡ run_id) where
    pub tried-IsEffect :
        (left number : ℕ) (w : World E)
        → IsEffect run_id c p.node_id w.store
            ((tried sv left number p w).0)
            ((tried sv left number p w).1.store)
    unfolding tried
    tried-IsEffect zero number w =
        go (execute_once sv (sv.now w.outside) p number w)
          (execute_once-IsEffect run_id c sv (sv.now w.outside) p number w own)
      where
        go :
            (r : Result Reply × World E)
            → IsEffect run_id c p.node_id w.store (r.0) (r.1.store)
            → IsEffect run_id c p.node_id w.store
                ((or_again r (λ e w'. (err (sv.failure_text e), w'))).0)
                ((or_again r (λ e w'. (err (sv.failure_text e), w'))).1.store)
        go (ok a, w') h = h
        go (err e, w') h = record { touches = h.touches; shows = λ out q. cc }
    tried-IsEffect (suc left) number w =
        go (execute_once sv (sv.now w.outside) p number w)
          (execute_once-IsEffect run_id c sv (sv.now w.outside) p number w own)
          (λ w'. tried-IsEffect left (number + 1) w')
      where
        go :
            (r : Result Reply × World E)
            → IsEffect run_id c p.node_id w.store (r.0) (r.1.store)
            → ((w' : World E)
                → IsEffect run_id c p.node_id w'.store
                    ((tried sv left (number + 1) p w').0)
                    ((tried sv left (number + 1) p w').1.store))
            → IsEffect run_id c p.node_id w.store
                ((or_again r (λ e w'. tried sv left (number + 1) p (sv.others w'))).0)
                ((or_again r (λ e w'. tried sv left (number + 1) p (sv.others w'))).1.store)
        go (ok a, w') h ih = h
        go (err e, w') h ih =
            IsEffect-later p.node_id w.store (sv.others w').store _ _
              (quiet-Touches p.node_id w.store w' h.touches) (ih (sv.others w'))

    pub created-Touches :
        (w : World E) (r : Result Store)
        → ((t : Store) → r ≡ ok t → Touches run_id c p.node_id w.store t)
        → Touches run_id c p.node_id w.store ((in_store (λ s. tt {0}) (λ s. s) w r).1.store)
    created-Touches w (ok t) h = h t refl
    created-Touches w (err e) h = Touches-same run_id c p.node_id w.store w.store refl refl

    pub completed-IsEffect :
        (w : World E) (r : Result (Fields × Store))
        → ((out : Fields) (t : Store)
            → r ≡ ok (out, t)
            → Touches run_id c p.node_id w.store t
              × IsShown run_id c p.node_id NodeRunStatus.success (some out) t)
        → IsEffect run_id c p.node_id w.store
            ((in_store (reply_of sv) (store_of sv) w r).0)
            ((in_store (reply_of sv) (store_of sv) w r).1.store)
    completed-IsEffect w (ok (out, t)) h =
        let (touches, shown) = h out t refl in
        record {
          touches = touches;
          shows = λ o q.
              (let e : out ≡ o = cc in
                subst (λ x. IsShown run_id c p.node_id NodeRunStatus.success (some x) t) e shown);
        }
    completed-IsEffect w (err e) h = record {
      touches = Touches-same run_id c p.node_id w.store w.store refl refl;
      shows = λ out q. cc;
    }
