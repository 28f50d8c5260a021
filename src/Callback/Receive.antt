-- ===== src/Callback/Receive.antt =====
-- The endpoint `receive_callback` of app/callback_api.py, with `_expire` and `_reject`.
pub mod Once
pub mod Delivery
pub mod Accepted
use Prim.Native.Char.{code}
use Prim.Native.String
use flow_demo.Base.{
  ℕ, length, String, Bool, true, false, not, ◌&&◌, Option, none, some, List, [], ◌∷◌, ◌==◌, ltb,
  leb, eqb, if◌then◌else◌,
}
use flow_demo.Base.Int.{ℤ, pos}
use flow_demo.Json.{Json, Fields, null, str, num, obj, end, field, is_obj}
use flow_demo.Enums.{RunStatus, NodeRunStatus}
use flow_demo.Http.{Response, answer, http_error}
use flow_demo.Redaction.{redact, lower_is}
use flow_demo.Models.Runs.{FlowRun, NodeRun, CallbackWait, NodeRunAttempt, CallbackStatus, AuthMode}
use flow_demo.Models.Runs
use flow_demo.Callback.Auth.{Checked, passed, value_error, crash, Crypto, verify_callback_auth}
use flow_demo.Callback.Expire.{Service, mode_text, reject, expire}
use flow_demo.Callback.Store.{
  Store, Signal, run_at, node_run_at, wait_at, emit_event, save_wait, save_node_run, save_run,
  save_attempt, attempt_of, send,
}

pub record Request : Type 0 where
  pub body : List ℕ
  pub client_host : Option String
  -- by the name in lower case: the lookup ignores case
  pub headers : String → Option String

-- the body of the answer 202; `received_at` is sent as its ISO text
pub record Receipt : Type 0 where
  pub run_id : String
  pub node_id : String
  pub idempotent : Bool
  pub received_at : Option ℕ

-- `_response`
abbrev pub receipt : CallbackWait → Bool → Receipt
receipt w idempotent = record {
  run_id = w.flow_run_id;
  node_id = w.node_id;
  idempotent = idempotent;
  received_at = w.received_at;
}

abbrev pub Reply : Type 0
Reply = Store × Response Receipt

abbrev pub max_callback_bytes : ℕ
max_callback_bytes = 1000000

abbrev pub text_or_empty : Option String → String
text_or_empty none = ""
text_or_empty (some s) = s

abbrev or_null : Option String → Json
or_null none = null
or_null (some s) = str s

abbrev source_of : Request → Json
source_of q = elim q.client_host [ none ↦ str "unknown" | some host ↦ str host ]

-- a key that is there and not empty
abbrev pub given : Option String → Bool
given none = false
given (some key) = not (key == "")

abbrev too_long : Option String → Bool
too_long none = false
too_long (some key) = ltb 200 (String.count key)

abbrev pub same_key : Option String → Option String → Bool
same_key (some a) (some b) = a == b
same_key _ _ = false

-- `headers.get("content-type", "").split(";", 1)[0].lower() != "application/json"`, negated
before_semicolon : String → String
before_semicolon String.[] = String.[]
before_semicolon (String.◌∷◌ c s) =
    if eqb (code c) b';' then String.[] else String.◌∷◌ c (before_semicolon s)

unfoldable pub is_json_type : Option String → Bool
unfolding before_semicolon lower_is
is_json_type none = false
is_json_type (some t) = lower_is (before_semicolon t) "application/json"

-- `body or b"{}"`
abbrev body_or_empty : List ℕ → List ℕ
body_or_empty [] = b'{' ∷ b'}' ∷ []
body_or_empty (x ∷ xs) = x ∷ xs

-- `decoded if isinstance(decoded, dict) else {"data": decoded}`, redacted
abbrev pub safe_payload : Json → Json
safe_payload decoded = redact (if is_obj decoded then decoded else obj (field "data" decoded end))

abbrev revision_json : Option ℕ → Json
revision_json none = null
revision_json (some r) = num (pos r)

abbrev pub received_wait : ℕ → Request → Option ℕ → Json → CallbackWait → CallbackWait
received_wait now q revision payload w = record w {
  status = CallbackStatus.received;
  received_at = some now;
  idempotency_key = q.headers "idempotency-key";
  payload = some payload;
  request_metadata = field "source" (source_of q) (
      field "contentType" (str "application/json") (
        field "authMode" (mode_text w.auth_mode) (
          field "credentialAlias" (or_null w.credential_alias)
            (field "credentialRevision" (revision_json revision) end))));
  updated_at = now;
}

-- the event CREDENTIAL_USED, where a credential was used
abbrev credential_used : ℕ → CallbackWait → NodeRun → FlowRun → Option ℕ → Store → Store
credential_used now w n r none s = s
credential_used now w n r (some revision) s =
    emit_event now r.id "CREDENTIAL_USED"
      (field "alias" (or_null w.credential_alias)
        (field "revision" (num (pos revision)) (field "direction" (str "inbound-callback") end)))
      (some n.node_id) s

-- what is committed when a callback is accepted
unfoldable pub record_receipt :
    ℕ → Request → CallbackWait → NodeRun → FlowRun → Option ℕ → Json → Store → Store
unfolding save_wait emit_event
record_receipt now q w n r revision payload s =
    let s₁ =
      credential_used now w n r revision (save_wait (received_wait now q revision payload w) s) in
    let s₂ =
      emit_event now r.id "CALLBACK_RECEIVED"
        (field "callbackId" (str w.id) (
          field "source" (source_of q) (
            field "authMode" (mode_text w.auth_mode)
              (field "idempotencyKey" (or_null (q.headers "idempotency-key")) end))))
        (some n.node_id) s₁ in
    emit_event now r.id "CALLBACK_SIGNALLED"
      (field "callbackId" (str w.id) (field "nodeId" (str n.node_id) end)) (some n.node_id) s₂

abbrev pub signal_of : String → CallbackWait → NodeRun → Json → Signal
signal_of workflow w n payload = record {
  workflow_id = workflow;
  node_id = n.node_id;
  callback_id = w.id;
  payload = payload;
}

module _ (lib : Service) (now : ℕ) (q : Request) where
  -- after the commit: the signal, which may fail
  unfoldable pub deliver : CallbackWait → NodeRun → FlowRun → Json → Store → Reply
  unfolding send
  deliver w n r payload s =
      if given r.temporal_workflow_id
      then (let signal = signal_of (text_or_empty r.temporal_workflow_id) w n payload in
          if lib.delivers signal
          then (send signal s, answer (receipt w false))
          else (s, http_error 500))
      else (s, http_error 409)

  -- a body that was decoded
  unfoldable pub accept : CallbackWait → NodeRun → FlowRun → Option ℕ → Json → Store → Reply
  unfolding record_receipt deliver
  accept w n r revision decoded s =
      let payload = safe_payload decoded in
      deliver (received_wait now q revision payload w) n r payload
        (record_receipt now q w n r revision payload s)

  -- the body of an authenticated request
  abbrev decode_body : CallbackWait → NodeRun → FlowRun → Option ℕ → Store → Checked Json → Reply
  decode_body w n r revision s (passed decoded) = accept w n r revision decoded s
  decode_body w n r revision s (value_error e) =
      (reject now w "Invalid JSON body" (source_of q) s, http_error 400)
  decode_body w n r revision s crash = (s, http_error 500)

  abbrev authenticated : CallbackWait → NodeRun → FlowRun → Store → Checked (Option ℕ) → Reply
  authenticated w n r s (passed revision) =
      if is_json_type (q.headers "content-type")
      then decode_body w n r revision s (lib.json_loads (body_or_empty q.body))
      else (reject now w "JSON content type required" (source_of q) s, http_error 415)
  authenticated w n r s (value_error e) = (reject now w e (source_of q) s, http_error 401)
  authenticated w n r s crash = (s, http_error 500)

  -- a wait that is still open
  abbrev open_wait : CallbackWait → NodeRun → FlowRun → Store → Reply
  open_wait w n r s =
      if leb w.expires_at now
      then (expire lib now w n r s, http_error 410)
      else authenticated w n r s
          (verify_callback_auth lib.crypto q.headers q.body s.vault w r.flow_id)

  -- by the status of the wait
  abbrev by_status : CallbackWait → NodeRun → FlowRun → Store → CallbackStatus → Reply
  by_status w n r s CallbackStatus.waiting = open_wait w n r s
  by_status w n r s CallbackStatus.received =
      if given (q.headers "idempotency-key")
        && same_key (q.headers "idempotency-key") w.idempotency_key
      then (s, answer (receipt w true))
      else (s, http_error 409)
  by_status w n r s CallbackStatus.expired = (s, http_error 410)
  by_status w n r s CallbackStatus.cancelled = (s, http_error 410)

  -- `item.node_run` and its `flow_run`, which foreign keys keep
  abbrev pub with_run : CallbackWait → NodeRun → Store → Option FlowRun → Reply
  with_run w n s none = (s, http_error 500)
  with_run w n s (some r) = by_status w n r s w.status

  abbrev loaded : CallbackWait → Store → Option NodeRun → Reply
  loaded w s none = (s, http_error 500)
  loaded w s (some n) = with_run w n s (run_at s n.flow_run_id)

  abbrev found : Store → Option CallbackWait → Reply
  found s none = (s, http_error 404)
  found s (some w) =
      if too_long (q.headers "idempotency-key")
      then (s, http_error 422)
      else loaded w s (node_run_at s w.node_run_id)

  -- `receive_callback`
  unfoldable pub receive_callback : String → Store → Reply
  unfolding reject expire accept is_json_type verify_callback_auth
  receive_callback callback_id s =
      if ltb max_callback_bytes (length q.body)
      then (s, http_error 413)
      else found s (wait_at s callback_id)
