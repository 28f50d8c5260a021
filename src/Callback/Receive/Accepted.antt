-- ===== src/Callback/Receive/Accepted.antt =====
-- Requests to `receive_callback` that are accepted.
use flow_demo.Base.{
  ◌&&◌, [], ◌∷◌, ◌++◌, ◌≤◌, ◌<◌, ◌≢◌, sym, ap, arith, inl, inr, Bool-cases, Option-cases, ℕ, length,
  String, true, false, Option, none, some, ◌≡◌, refl, ◌∙◌, ltb, leb, ◌==◌, eq_iff, eq_refl,
  find?-some,
}
use flow_demo.Json.{Json, null, bool, num, str, arr, obj}
use flow_demo.Http.{answer, http_error}
use flow_demo.Models.Runs.{FlowRun, NodeRun, CallbackWait, CallbackStatus}
use flow_demo.Table.{row_at-save_self}
use flow_demo.Callback.Auth.{passed, verify_callback_auth}
use flow_demo.Callback.Store.{
  Signal, Store, run_at, node_run_at, wait_at, send, emit_event, save_wait,
}
use flow_demo.Callback.Expire.{Service}
use flow_demo.Callback.Receive.{
  given, same_key, Request, receive_callback, receipt, safe_payload, received_wait, signal_of,
  record_receipt, deliver, accept, body_or_empty, too_long, max_callback_bytes, is_json_type,
}
use flow_demo.Callback.Receive.Once.{
  IsAfter, IsPassedOn, safe_payload-IsPassedOn, record_receipt-waits,
}

-- a request that `receive_callback` has no reason to refuse, for a wait with its node run and run
pub record IsAcceptable (lib : Service) (now : ℕ) (q : Request) (id : String) (s : Store)
    (w : CallbackWait) (n : NodeRun) (r : FlowRun) (revision : Option ℕ) (decoded : Json)
    : Type 0 where
  pub small : length q.body ≤ 1000000
  pub short : too_long (q.headers "idempotency-key") ≡ false
  pub here : wait_at s id ≡ some w
  pub its_node : node_run_at s w.node_run_id ≡ some n
  pub its_run : run_at s n.flow_run_id ≡ some r
  pub open_wait : w.status ≡ CallbackStatus.waiting
  pub in_time : now < w.expires_at
  pub authentic :
      verify_callback_auth lib.crypto q.headers q.body s.vault w r.flow_id ≡ passed revision
  pub json_type : is_json_type (q.headers "content-type") ≡ true
  pub json_body : lib.json_loads (body_or_empty q.body) ≡ passed decoded

small_body : (n : ℕ) → n ≤ 1000000 → ltb max_callback_bytes n ≡ false
small_body n h = ground (arith, h)

before_end : (now n : ℕ) → now < n → leb n now ≡ false
before_end now n h = ground (arith, h)

record_receipt-runs :
    (now : ℕ) (q : Request) (w : CallbackWait) (n : NodeRun) (r : FlowRun) (rev : Option ℕ)
    (p : Json) (s : Store)
    → ((record_receipt now q w n r rev p s).runs ≡ s.runs)
      × ((record_receipt now q w n r rev p s).node_runs ≡ s.node_runs)
unfolding record_receipt emit_event save_wait
record_receipt-runs now q w n r none p s = (refl, refl)
record_receipt-runs now q w n r (some _) p s = (refl, refl)

not_equal : (a b : String) → a ≢ b → (a == b) ≡ false
not_equal a b ne = elim (Bool-cases (a == b)) [ inl e ↦ absurd (ne ((eq_iff a b).0 e)) | inr h ↦ h ]

IsPassedOn-unique : (decoded a b : Json) → IsPassedOn decoded a → IsPassedOn decoded b → a ≡ b
IsPassedOn-unique null a b x y = x ∙ sym y
IsPassedOn-unique (bool v) a b x y = x ∙ sym y
IsPassedOn-unique (num v) a b x y = x ∙ sym y
IsPassedOn-unique (str v) a b x y = x ∙ sym y
IsPassedOn-unique (arr v) a b x y = x ∙ sym y
IsPassedOn-unique (obj v) a b x y = x ∙ sym y

-- once a wait is RECEIVED, no request for it changes anything
received_quiet :
    (lib : Service) (later : ℕ) (q : Request) (id : String) (s : Store) (w : CallbackWait)
    → wait_at s id ≡ some w
    → w.status ≡ CallbackStatus.received
    → (receive_callback lib later q id s).0 ≡ s
unfolding receive_callback
received_quiet lib later q id s w here status =
    elim (Bool-cases (ltb max_callback_bytes (length q.body))) [
      | inl large ↦ rw large refl
      | inr small ↦ elim (Bool-cases (too_long (q.headers "idempotency-key"))) [
        | inl long ↦ rw (small, here, long) refl
        | inr short ↦ elim (Option-cases (node_run_at s w.node_run_id)) [
          | inl none_there ↦ rw (small, here, short, none_there) refl
          | inr (n, node) ↦ elim (Option-cases (run_at s n.flow_run_id)) [
            | inl none_there ↦ rw (small, here, short, node, none_there) refl
            | inr (r, run) ↦
                elim (Bool-cases (
                  given (q.headers "idempotency-key")
                  && same_key (q.headers "idempotency-key") w.idempotency_key)) [
                    | inl same ↦ rw (small, here, short, node, run, status, same) refl
                    | inr other ↦ rw (small, here, short, node, run, status, other) refl
                  ]
          ]
        ]
      ]
    ]

module _ (lib : Service) (now : ℕ) (q : Request) (id : String) (s : Store) (w : CallbackWait)
    (n : NodeRun) (r : FlowRun) (revision : Option ℕ) (decoded : Json) where
  abbrev pub final_wait : CallbackWait
  final_wait = received_wait now q revision (safe_payload decoded) w

  abbrev pub committed : Store
  committed = record_receipt now q w n r revision (safe_payload decoded) s

  accepted :
      IsAcceptable lib now q id s w n r revision decoded
      → receive_callback lib now q id s ≡ accept lib now q w n r revision decoded s
  unfolding receive_callback
  accepted g =
      rw
        (
          small_body (length q.body) g.small,
          g.here,
          g.short,
          g.its_node,
          g.its_run,
          g.open_wait,
          before_end now w.expires_at g.in_time,
          g.authentic,
          g.json_type,
          g.json_body,
        )
        refl

-- a wait that is RECEIVED, asked for again with its own key
repeated :
    (lib : Service) (now : ℕ) (q : Request) (id : String) (s : Store) (w : CallbackWait)
    (n : NodeRun) (r : FlowRun) (key : String)
    → ltb max_callback_bytes (length q.body) ≡ false
    → too_long (q.headers "idempotency-key") ≡ false
    → wait_at s id ≡ some w
    → node_run_at s w.node_run_id ≡ some n
    → run_at s n.flow_run_id ≡ some r
    → w.status ≡ CallbackStatus.received
    → q.headers "idempotency-key" ≡ some key
    → w.idempotency_key ≡ some key
    → (key == "") ≡ false
    → receive_callback lib now q id s ≡ (s, answer (receipt w true))
unfolding receive_callback
repeated lib now q id s w n r key small short here node run status sent_key stored full =
    rw (small, here, short, node, run, status, sent_key, stored, full, eq_refl key) refl

module _ (lib : Service) (now later : ℕ) (q : Request) (id : String) (s : Store) (w : CallbackWait)
    (n : NodeRun) (r : FlowRun) (revision : Option ℕ) (decoded : Json) (workflow key : String) where
  -- A callback whose signal Temporal does not take is answered 500 after its receipt was committed;
  -- the same request with its idempotency key, sent again at any later time and whatever Temporal
  -- then does, is answered 202 as a repeat, changes nothing, and nothing was ever signalled.
  pub receive_callback-lost :
      (lib' : Service)
      → IsAcceptable lib now q id s w n r revision decoded
      → r.temporal_workflow_id ≡ some workflow
      → (workflow == "") ≡ false
      → lib.delivers (
          signal_of workflow
            (final_wait lib now q id s w n r revision decoded)
            n
            (safe_payload decoded))
        ≡ false
      → q.headers "idempotency-key" ≡ some key
      → (key == "") ≡ false
      → let s' = committed lib now q id s w n r revision decoded in
        (receive_callback lib now q id s ≡ (s', http_error 500))
        × (receive_callback lib' later q id s'
            ≡ (s', answer (receipt (final_wait lib now q id s w n r revision decoded) true)))
        × (s'.signals ≡ s.signals)
  unfolding accept deliver
  receive_callback-lost lib' g attached full down keyed key_full =
      let w' = final_wait lib now q id s w n r revision decoded in
      let s' = committed lib now q id s w n r revision decoded in
      let (rows, same) = record_receipt-waits now q w n r revision (safe_payload decoded) s in
      let (runs, nodes) = record_receipt-runs now q w n r revision (safe_payload decoded) s in
      let (m, k) = find?-some (λ x. x.id == id) w s.waits g.here in
      let here : wait_at s' id ≡ some w' =
        rw rows (row_at-save_self (λ x. x.id) w' w id s.waits ((eq_iff w.id id).0 k) g.here) in
      (
        accepted lib now q id s w n r revision decoded g ∙ rw (attached, full, down) refl,
        repeated lib' later q id s' w' n r key (small_body (length q.body) g.small) g.short here
            (rw nodes g.its_node) (rw runs g.its_run) refl keyed keyed key_full,
        same,
      )

module _ (lib lib' : Service) (now later : ℕ) (q q' : Request) (id : String) (s : Store)
    (w : CallbackWait) (n : NodeRun) (r : FlowRun) (revision : Option ℕ) (decoded : Json)
    (workflow : String) where
  -- the signal of an accepted callback
  abbrev pub signalled : Json → Signal
  signalled payload = record {
    workflow_id = workflow;
    node_id = n.node_id;
    callback_id = w.id;
    payload = payload;
  }

  -- A request that nothing speaks against is answered 202 with the wait's run and node, now and not as a
  -- repeat, once the run is attached to a workflow and Temporal takes the signal: the wait is RECEIVED,
  -- holds the redacted payload and the request's idempotency key, and keeps its run, node and attempt;
  -- exactly one signal, with this payload, is sent; the runs and the node runs stay as they are. No
  -- later request for the wait, whatever it is, changes anything more.
  pub receive_callback-delivers :
      (payload : Json)
      → IsAcceptable lib now q id s w n r revision decoded
      → IsPassedOn decoded payload
      → r.temporal_workflow_id ≡ some workflow
      → workflow ≢ ""
      → lib.delivers (signalled payload) ≡ true
      → (t : Store) × (w' : CallbackWait) × (receive_callback lib now q id s ≡ (
        t,
        answer (record {
          run_id = w.flow_run_id;
          node_id = w.node_id;
          idempotent = false;
          received_at = some now;
        }),
      ))
        × (wait_at t id ≡ some w')
        × IsAfter now CallbackStatus.received w w'
        × (w'.payload ≡ some payload)
        × (w'.idempotency_key ≡ q.headers "idempotency-key")
        × (t.signals ≡ s.signals ++ (signalled payload ∷ []))
        × (t.runs ≡ s.runs)
        × (t.node_runs ≡ s.node_runs)
        × ((receive_callback lib' later q' id t).0 ≡ t)
  unfolding accept deliver send
  receive_callback-delivers payload g as_sent attached full up =
      let same : payload ≡ safe_payload decoded =
        IsPassedOn-unique decoded payload (safe_payload decoded) as_sent
          (safe_payload-IsPassedOn decoded) in
      let w' = received_wait now q revision (safe_payload decoded) w in
      let t = record_receipt now q w n r revision (safe_payload decoded) s in
      let signal = signalled (safe_payload decoded) in
      let (rows, kept) = record_receipt-waits now q w n r revision (safe_payload decoded) s in
      let (runs, nodes) = record_receipt-runs now q w n r revision (safe_payload decoded) s in
      let (m, k) = find?-some (λ x. x.id == id) w s.waits g.here in
      let here : wait_at t id ≡ some w' =
        rw rows (row_at-save_self (λ x. x.id) w' w id s.waits ((eq_iff w.id id).0 k) g.here) in
      let not_empty : (workflow == "") ≡ false = not_equal workflow "" full in
      let taken : lib.delivers signal ≡ true = rw same at up in
      (
        send signal t,
        w',
        accepted lib now q id s w n r revision decoded g ∙ rw (attached, not_empty, taken) refl,
        here,
        record {
          id = refl;
          run = refl;
          node_run = refl;
          node = refl;
          attempt = refl;
          status = refl;
          updated = refl;
        },
        ap some (sym same),
        refl,
        ap (λ x. x ++ (signal ∷ [])) kept ∙ ap (λ x. s.signals ++ (signalled x ∷ [])) (sym same),
        runs,
        nodes,
        received_quiet lib' later q' id (send signal t) w' here refl,
      )
