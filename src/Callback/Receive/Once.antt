-- ===== src/Callback/Receive/Once.antt =====
-- What a request to `receive_callback` does to the waits and the signals.
use flow_demo.Base.{
  true, ◌≢◌, ◌==◌, eq_iff, ℕ, length, String, ◌&&◌, Option, none, some, [], ◌∷◌, ◌++◌, ◌≡◌, refl,
  ap, ◌<◌, ◌≤◌, ◌⊎◌, inl, inr, arith, Bool-cases, ltb, leb,
}
use flow_demo.Redaction.{redact}
use flow_demo.Json.{Json, null, bool, num, str, arr, obj, field, end}
use flow_demo.Models.Runs.{FlowRun, NodeRun, NodeRunAttempt, CallbackWait, CallbackStatus}
use flow_demo.Table.{save}
use flow_demo.Callback.Auth.{Checked, passed, value_error, crash, verify_callback_auth}
use flow_demo.Callback.Store.{
  Store, run_at, node_run_at, wait_at, attempt_of, emit_event, save_wait, save_node_run, save_run,
  save_attempt, send,
}
use flow_demo.Callback.Expire.{
  Service, reject, expire, expired_wait, waits_callback, fail_run, fail_node, fail_attempt,
}
use flow_demo.Callback.Receive.{
  Request, Reply, receive_callback, safe_payload, received_wait, signal_of, record_receipt, deliver,
  accept, body_or_empty, decode_body, authenticated, open_wait, by_status, with_run, loaded, found,
  given, too_long, same_key, max_callback_bytes, is_json_type, text_or_empty,
}

-- a decoded body as it is stored and passed on: a dictionary as it is, anything else as its "data", and
-- redacted
abbrev pub IsPassedOn : Json → Json → Type 0
IsPassedOn (obj d) payload = payload ≡ redact (obj d)
IsPassedOn decoded payload = payload ≡ redact (obj (field "data" decoded end))

-- a wait after a change of its status, which belongs to the same run, node and attempt
pub record IsAfter (now : ℕ) (as_now : CallbackStatus) (w w' : CallbackWait) : Type 0 where
  pub id : w'.id ≡ w.id
  pub run : w'.flow_run_id ≡ w.flow_run_id
  pub node_run : w'.node_run_id ≡ w.node_run_id
  pub node : w'.node_id ≡ w.node_id
  pub attempt : w'.attempt_number ≡ w.attempt_number
  pub status : w'.status ≡ as_now
  pub updated : w'.updated_at ≡ now

module _ (lib : Service) (now : ℕ) (q : Request) (id : String) (s : Store) where
  -- nothing is signalled, or the payload is, once, to the run's workflow for the wait and its node
  abbrev pub Sends : CallbackWait → NodeRun → FlowRun → Json → Store → Type 0
  Sends w n r payload t =
      (t.signals ≡ s.signals)
      ⊎ ((workflow : String) × (r.temporal_workflow_id ≡ some workflow)
          × (workflow ≢ "")
          × (t.signals
              ≡ s.signals
                ++ (record {
                  workflow_id = workflow;
                  node_id = n.node_id;
                  callback_id = w.id;
                  payload = payload;
                }
                    ∷ [])))

  -- one transition of the wait `id`: none, to EXPIRED, or to RECEIVED with at most one signal
  pub data IsStep (t : Store) : Type 0 where
    kept : t.waits ≡ s.waits → t.signals ≡ s.signals → IsStep t
    lapsed :
        (w w' : CallbackWait)
        → wait_at s id ≡ some w
        → w.status ≡ CallbackStatus.waiting
        → w.expires_at ≤ now
        → IsAfter now CallbackStatus.expired w w'
        → t.waits ≡ save (λ x. x.id) w' s.waits
        → t.signals ≡ s.signals
        → IsStep t
    taken :
        (w w' : CallbackWait) (n : NodeRun) (r : FlowRun) (revision : Option ℕ)
        (decoded payload : Json)
        → wait_at s id ≡ some w
        → node_run_at s w.node_run_id ≡ some n
        → run_at s n.flow_run_id ≡ some r
        → w.status ≡ CallbackStatus.waiting
        → now < w.expires_at
        → verify_callback_auth lib.crypto q.headers q.body s.vault w r.flow_id ≡ passed revision
        → lib.json_loads (body_or_empty q.body) ≡ passed decoded
        → IsPassedOn decoded payload
        → IsAfter now CallbackStatus.received w w'
        → w'.received_at ≡ some now
        → w'.payload ≡ some payload
        → w'.idempotency_key ≡ q.headers "idempotency-key"
        → t.waits ≡ save (λ x. x.id) w' s.waits
        → Sends w n r payload t
        → IsStep t

pub safe_payload-IsPassedOn : (decoded : Json) → IsPassedOn decoded (safe_payload decoded)
safe_payload-IsPassedOn null = refl
safe_payload-IsPassedOn (bool b) = refl
safe_payload-IsPassedOn (num n) = refl
safe_payload-IsPassedOn (str x) = refl
safe_payload-IsPassedOn (arr a) = refl
safe_payload-IsPassedOn (obj d) = refl

given_text :
    (o : Option String) → given o ≡ true → (o ≡ some (text_or_empty o)) × (text_or_empty o ≢ "")
given_text none h = cc
given_text (some x) h =
    (refl, λ e. (let empty : (x == "") ≡ true = (eq_iff x "").1 e in ground (arith, h, empty)))

pub record_receipt-waits :
    (now : ℕ) (q : Request) (w : CallbackWait) (n : NodeRun) (r : FlowRun) (rev : Option ℕ)
    (p : Json) (s : Store)
    → ((record_receipt now q w n r rev p s).waits
        ≡ save (λ x. x.id) (received_wait now q rev p w) s.waits)
      × ((record_receipt now q w n r rev p s).signals ≡ s.signals)
unfolding record_receipt emit_event save_wait
record_receipt-waits now q w n r none p s = (refl, refl)
record_receipt-waits now q w n r (some _) p s = (refl, refl)

fail_attempt-waits :
    (now : ℕ) (o : Option NodeRunAttempt) (s : Store)
    → ((fail_attempt now o s).waits ≡ s.waits) × ((fail_attempt now o s).signals ≡ s.signals)
unfolding save_attempt
fail_attempt-waits now none s = (refl, refl)
fail_attempt-waits now (some a) s = (refl, refl)

expire-waits :
    (lib : Service) (now : ℕ) (w : CallbackWait) (n : NodeRun) (r : FlowRun) (s : Store)
    → ((expire lib now w n r s).waits ≡ save (λ x. x.id) (expired_wait now w) s.waits)
      × ((expire lib now w n r s).signals ≡ s.signals)
unfolding expire emit_event save_wait save_run save_node_run
expire-waits lib now w n r s = elim (Bool-cases (waits_callback n.status)) [
  | inr other ↦ rw other (refl, refl)
  | inl waits ↦
      let s₂ =
        save_run (fail_run now r)
          (save_node_run (fail_node now n) (save_wait (expired_wait now w) s)) in
      rw waits (fail_attempt-waits now (attempt_of s₂ n.id w.attempt_number) s₂)
]

module _ (lib : Service) (now : ℕ) (q : Request) (id : String) (s : Store) where
  abbrev Stepped : Reply → Type 0
  Stepped reply = IsStep lib now q id s (reply.0)

  module _ (w : CallbackWait) (n : NodeRun) (r : FlowRun) (here : wait_at s id ≡ some w)
      (its_node : node_run_at s w.node_run_id ≡ some n)
      (its_run : run_at s n.flow_run_id ≡ some r) where
    module _ (waits : w.status ≡ CallbackStatus.waiting) where
      accept-IsStep :
          (rev : Option ℕ) (decoded : Json)
          → now < w.expires_at
          → verify_callback_auth lib.crypto q.headers q.body s.vault w r.flow_id ≡ passed rev
          → lib.json_loads (body_or_empty q.body) ≡ passed decoded
          → Stepped (accept lib now q w n r rev decoded s)
      unfolding accept deliver send
      accept-IsStep rev decoded soon auth body =
          let payload = safe_payload decoded in
          let (rows, same) = record_receipt-waits now q w n r rev payload s in
          let t = record_receipt now q w n r rev payload s in
          let signal =
            signal_of (text_or_empty r.temporal_workflow_id) (received_wait now q rev payload w) n
              payload in
          let w' = received_wait now q rev payload w in
          let step : (t : Store)
              → t.waits ≡ save (λ x. x.id) w' s.waits
              → Sends lib now q id s w n r payload t
              → IsStep lib now q id s t =
            λ t stored sends.
              taken w w' n r rev decoded payload here its_node its_run waits soon auth body
                (safe_payload-IsPassedOn decoded)
                (record {
                  id = refl;
                  run = refl;
                  node_run = refl;
                  node = refl;
                  attempt = refl;
                  status = refl;
                  updated = refl;
                })
                refl refl refl stored sends in
          elim (Bool-cases (given r.temporal_workflow_id)) [
            | inr no_id ↦ rw no_id (step _ rows (inl same))
            | inl some_id ↦
                let (attached, full) = given_text r.temporal_workflow_id some_id in
                elim (Bool-cases (lib.delivers signal)) [
                  | inl ok ↦
                      rw (some_id, ok)
                        (step _ rows (
                          inr (
                            text_or_empty r.temporal_workflow_id,
                            attached,
                            full,
                            ap (λ x. x ++ (signal ∷ [])) same,
                          )))
                  | inr bad ↦ rw (some_id, bad) (step _ rows (inl same))
                ]
          ]

      decode_body-IsStep :
          (rev : Option ℕ) (c : Checked Json)
          → now < w.expires_at
          → verify_callback_auth lib.crypto q.headers q.body s.vault w r.flow_id ≡ passed rev
          → lib.json_loads (body_or_empty q.body) ≡ c
          → Stepped (decode_body lib now q w n r rev s c)
      unfolding reject emit_event
      decode_body-IsStep rev (passed decoded) soon auth body =
          accept-IsStep rev decoded soon auth body
      decode_body-IsStep rev (value_error e) soon auth body = kept refl refl
      decode_body-IsStep rev crash soon auth body = kept refl refl

      authenticated-IsStep :
          (c : Checked (Option ℕ))
          → now < w.expires_at
          → verify_callback_auth lib.crypto q.headers q.body s.vault w r.flow_id ≡ c
          → Stepped (authenticated lib now q w n r s c)
      unfolding reject emit_event
      authenticated-IsStep (value_error e) soon auth = kept refl refl
      authenticated-IsStep crash soon auth = kept refl refl
      authenticated-IsStep (passed rev) soon auth =
          elim (Bool-cases (is_json_type (q.headers "content-type"))) [
            | inl yes_json ↦
                rw yes_json
                  (decode_body-IsStep rev (lib.json_loads (body_or_empty q.body)) soon auth refl)
            | inr no_json ↦ rw no_json (kept refl refl)
          ]

      open_wait-IsStep : Stepped (open_wait lib now q w n r s)
      open_wait-IsStep = elim (Bool-cases (leb w.expires_at now)) [
        | inl over ↦
            let (rows, same) = expire-waits lib now w n r s in
            rw over (
              lapsed w (expired_wait now w) here waits (ground arith)
                (record {
                  id = refl;
                  run = refl;
                  node_run = refl;
                  node = refl;
                  attempt = refl;
                  status = refl;
                  updated = refl;
                })
                rows same)
        | inr soon ↦ rw soon (
            authenticated-IsStep
              (verify_callback_auth lib.crypto q.headers q.body s.vault w r.flow_id) (ground arith)
              refl)
      ]

    by_status-IsStep :
        (status : CallbackStatus) → w.status ≡ status → Stepped (by_status lib now q w n r s status)
    by_status-IsStep CallbackStatus.waiting e = open_wait-IsStep e
    by_status-IsStep CallbackStatus.expired e = kept refl refl
    by_status-IsStep CallbackStatus.cancelled e = kept refl refl
    by_status-IsStep CallbackStatus.received e =
        elim (Bool-cases (
          given (q.headers "idempotency-key")
          && same_key (q.headers "idempotency-key") w.idempotency_key)) [
            | inl same ↦ rw same (kept refl refl)
            | inr other ↦ rw other (kept refl refl)
          ]

  with_run-IsStep :
      (w : CallbackWait) (n : NodeRun) (o : Option FlowRun)
      → wait_at s id ≡ some w
      → node_run_at s w.node_run_id ≡ some n
      → run_at s n.flow_run_id ≡ o
      → Stepped (with_run lib now q w n s o)
  with_run-IsStep w n none here its_node e = kept refl refl
  with_run-IsStep w n (some r) here its_node e =
      by_status-IsStep w n r here its_node e w.status refl

  loaded-IsStep :
      (w : CallbackWait) (o : Option NodeRun)
      → wait_at s id ≡ some w
      → node_run_at s w.node_run_id ≡ o
      → Stepped (loaded lib now q w s o)
  loaded-IsStep w none here e = kept refl refl
  loaded-IsStep w (some n) here e = with_run-IsStep w n (run_at s n.flow_run_id) here e refl

  found-IsStep : (o : Option CallbackWait) → wait_at s id ≡ o → Stepped (found lib now q s o)
  found-IsStep none e = kept refl refl
  found-IsStep (some w) e = elim (Bool-cases (too_long (q.headers "idempotency-key"))) [
    | inl long ↦ rw long (kept refl refl)
    | inr short ↦ rw short (loaded-IsStep w (node_run_at s w.node_run_id) e refl)
  ]

  -- Every request to the endpoint is one transition of the wait it names: the waits and the signals
  -- stay as they are; or the wait was WAITING, its time is over, it becomes EXPIRED and nothing is
  -- signalled; or it was WAITING and in time, the request's authentication passed for the flow of the
  -- wait's run and its body was decoded, the wait becomes RECEIVED now with the redacted payload and
  -- the request's idempotency key, and at most one signal, with the same payload for the wait's
  -- node, is sent to the run's workflow. A wait keeps its run, its node and its attempt.
  pub receive_callback-IsStep : IsStep lib now q id s ((receive_callback lib now q id s).0)
  unfolding receive_callback
  receive_callback-IsStep = elim (Bool-cases (ltb max_callback_bytes (length q.body))) [
    | inl large ↦ rw large (kept refl refl)
    | inr small ↦ rw small (found-IsStep (wait_at s id) refl)
  ]
