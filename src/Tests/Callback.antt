-- ===== src/Tests/Callback.antt =====
-- Requests to `receive_callback` for one wait with a bearer credential, and the theorems at them.
use flow_demo.Base.{
  arith, ◌≢◌, eq_iff, ◌+◌, ◌≤◌, ◌++◌, String, Bool, true, false, none, some, List, [], ◌∷◌, ◌≡◌,
  refl, ◌==◌, if◌then◌else◌,
}
use flow_demo.Json.{Json, Fields, str, num, obj, end, field, get}
use flow_demo.Base.Int.{pos}
use flow_demo.Enums.{RunStatus, NodeRunStatus, RunTriggerType}
use flow_demo.Http.{answer, http_error}
use flow_demo.Redaction.{redact, is_sensitive}
use flow_demo.Models.Flows.{bearer}
use flow_demo.Models.Runs.{FlowRun, NodeRun, CallbackWait, CallbackStatus}
use flow_demo.Models.Runs
use flow_demo.Callback.Auth.{Checked, passed, Crypto, verify_callback_auth}
use flow_demo.Callback.Evidence.{IsProof, verify_callback_auth-IsProof}
use flow_demo.Callback.Create.{Texts, create_callback_wait}
use flow_demo.Callback.Created.{create_callback_wait-bounds}
use flow_demo.Callback.Store.{Store, wait_at, send}
use flow_demo.Callback.Expire.{Service}
use flow_demo.Callback.Receive.{Request, receive_callback, receipt, record_receipt, is_json_type}
use flow_demo.Callback.Receive.Once.{IsStep, IsAfter, IsPassedOn, receive_callback-IsStep}
use flow_demo.Callback.Receive.Delivery.{
  Delivery, receive_all, sent, is_waiting, receive_all-at_most_once,
}
use flow_demo.Callback.Receive.Accepted.{
  IsAcceptable, final_wait, committed, receive_callback-delivers, receive_callback-lost,
}

abbrev crypto : Crypto
crypto = record {
  credential_keys = λ k. some k;
  open_sealed = λ key nonce text aad. some (obj (field "token" (str "t0k") end));
  hmac_sha256 = λ key body. key;
  decimal = λ n. "1";
  show = λ v. "";
}

abbrev service : Bool → Service
service up = record {
  crypto = crypto;
  json_loads = λ body. passed (obj (field "password" (str "p") (field "ok" (str "yes") end)));
  isoformat = λ t. "";
  delivers = λ g. up;
}

abbrev a_run : FlowRun
a_run = record {
  id = "r";
  group_id = "g";
  flow_id = "f";
  flow_version_id = "v";
  status = RunStatus.waiting;
  input_data = end;
  flow_config = end;
  output_data = none;
  error_message = none;
  cancel_requested = false;
  trigger_type = RunTriggerType.manual;
  trigger_id = none;
  parent_run_id = none;
  idempotency_key = none;
  source_metadata = end;
  temporal_workflow_id = some "g:r";
  requested_at = 0;
  created_at = 0;
  started_at = none;
  finished_at = none;
}

abbrev a_node : NodeRun
a_node = record {
  id = "n";
  flow_run_id = "r";
  node_id = "hook";
  node_type = "http_callback";
  node_version = "1.0";
  status = NodeRunStatus.waiting_callback;
  config = end;
  input_data = none;
  output_data = none;
  attempts = 1;
  max_attempts = 1;
  available_at = 0;
  error_message = none;
  started_at = none;
  finished_at = none;
}

abbrev a_wait : CallbackWait
a_wait = record {
  id = "w";
  flow_run_id = "r";
  node_run_id = "n";
  node_id = "hook";
  attempt_number = 1;
  status = CallbackStatus.waiting;
  auth_mode = Runs.bearer;
  credential_alias = some "api";
  expires_at = 10;
  received_at = none;
  idempotency_key = none;
  payload = none;
  request_metadata = end;
  created_at = 0;
  updated_at = 0;
}

abbrev store : Store
store = record {
  runs = a_run ∷ [];
  node_runs = a_node ∷ [];
  attempts = [];
  waits = a_wait ∷ [];
  events = [];
  vault = record {
    credentials =
        record {
          id = "c";
          group_id = "g";
          flow_id = "f";
          alias = "api";
          credential_type = bearer;
          allowed_origins = [];
          enabled = true;
          current_revision = 1;
          created_at = 0;
          updated_at = 0;
        }
        ∷ [];
    revisions =
        record {
          id = "x";
          credential_id = "c";
          revision = 1;
          key_id = "k";
          nonce = "n";
          ciphertext = "z";
          created_at = 0;
        }
        ∷ [];
  };
  tasks = [];
  approval_groups = [];
  variables = [];
  signals = [];
}

abbrev request : String → Request
request token = record {
  body = [];
  client_host = none;
  headers = λ name.
      if name == "authorization"
      then some token
      else if name == "content-type"
      then some "Application/JSON; charset=utf-8"
      else if name == "idempotency-key"
      then some "key-1"
      else none;
}

abbrev good : Request
good = request "Bearer t0k"

delivery : Unit {0}
unfolding get receive_callback is_json_type record_receipt send receive_all sent redact
    verify_callback_auth
delivery = tt

-- a wrong token is refused, and signals nothing
wrong_token : (receive_callback (service true) 5 (request "Bearer no") "w" store).1 ≡ http_error 401
unfolding delivery
wrong_token = refl

too_late : (receive_callback (service true) 10 good "w" store).1 ≡ http_error 410
unfolding delivery
too_late = refl

good-IsAcceptable :
    (up : Bool)
    → IsAcceptable
        (service up)
        5
        good
        "w"
        store
        a_wait
        a_node
        a_run
        (some 1)
        (obj (field "password" (str "p") (field "ok" (str "yes") end)))
unfolding delivery
good-IsAcceptable up = record {
  small = omega arith;
  short = refl;
  here = refl;
  its_node = refl;
  its_run = refl;
  open_wait = refl;
  in_time = omega arith;
  authentic = refl;
  json_type = refl;
  json_body = refl;
}

abbrev decoded : Json
decoded = obj (field "password" (str "p") (field "ok" (str "yes") end))

receive_callback-IsStep_example :
    IsStep (service true) 5 good "w" store ((receive_callback (service true) 5 good "w" store).0)
receive_callback-IsStep_example = receive_callback-IsStep (service true) 5 good "w" store

abbrev twice : List Delivery
twice =
    record { callback_id = "w"; time = 5; request = good }
    ∷ record { callback_id = "w"; time = 6; request = good }
    ∷ []

signalled_once : sent "w" (receive_all (service true) twice store) ≡ 1
unfolding delivery
signalled_once = refl

receive_all-at_most_once_example :
    sent "w" (receive_all (service true) twice store)
    ≤ sent "w" store + (if is_waiting (wait_at store "w") then 1 else 0)
receive_all-at_most_once_example = receive_all-at_most_once (service true) twice "w" store

authentic :
    verify_callback_auth crypto good.headers good.body store.vault a_wait "f" ≡ passed (some 1)
unfolding delivery
authentic = refl

verify_callback_auth-IsProof_example :
    IsProof crypto good.headers good.body store.vault Runs.bearer (some "api") "f" (some 1)
verify_callback_auth-IsProof_example =
    verify_callback_auth-IsProof crypto good.headers good.body store.vault a_wait "f" (some 1)
      authentic

-- the password is redacted
abbrev safe : Json
safe = obj (field "password" (str "[REDACTED]") (field "ok" (str "yes") end))

safe-IsPassedOn : IsPassedOn decoded safe
unfolding delivery is_sensitive
safe-IsPassedOn = refl

full_id : ◌≢◌ {A = String} "g:r" ""
full_id e = (let bad : ("g:r" == "") ≡ true = (eq_iff "g:r" "").1 e in cc)

receive_callback-delivers_example :
    (t : Store) × (w' : CallbackWait) × (receive_callback (service true) 5 good "w" store ≡ (
      t,
      answer (record {
        run_id = a_wait.flow_run_id;
        node_id = a_wait.node_id;
        idempotent = false;
        received_at = some 5;
      }),
    ))
    × (wait_at t "w" ≡ some w')
    × IsAfter 5 CallbackStatus.received a_wait w'
    × (w'.payload ≡ some safe)
    × (w'.idempotency_key ≡ good.headers "idempotency-key")
    × (t.signals
        ≡ store.signals
          ++ (record {
            workflow_id = "g:r";
            node_id = a_node.node_id;
            callback_id = a_wait.id;
            payload = safe;
          }
              ∷ []))
    × (t.runs ≡ store.runs)
    × (t.node_runs ≡ store.node_runs)
    × ((receive_callback (service true) 7 good "w" t).0 ≡ t)
receive_callback-delivers_example =
    receive_callback-delivers (service true) (service true) 5 7 good good "w" store a_wait a_node
      a_run (some 1) decoded "g:r" safe (good-IsAcceptable true) safe-IsPassedOn refl full_id refl

receive_callback-lost_example :
    let s' = committed (service false) 5 good "w" store a_wait a_node a_run (some 1) decoded in
    (receive_callback (service false) 5 good "w" store ≡ (s', http_error 500))
    × (receive_callback (service true) 7 good "w" s' ≡ (
      s',
      answer (
          receipt
            (final_wait (service false) 5 good "w" store a_wait a_node a_run (some 1) decoded)
            true),
    ))
    × (s'.signals ≡ store.signals)
receive_callback-lost_example =
    receive_callback-lost (service false) 5 7 good "w" store a_wait a_node a_run (some 1) decoded
      "g:r" "key-1" (service true) (good-IsAcceptable false) refl refl refl refl refl

abbrev asked : Fields
asked = field "authMode" (str "CAPABILITY_URL") (field "timeoutSeconds" (num (pos 5)) end)

abbrev names : Texts
names = record {
  str_of = λ v. (elim v [ str s ↦ s | _ ↦ "" ]);
  upper = λ s. s;
  strip_lower = λ s. s;
}

abbrev made : Checked (CallbackWait × Store)
made = create_callback_wait crypto names 100 "w2" a_run a_node asked store

abbrev made_of : Checked (CallbackWait × Store) → CallbackWait × Store
made_of (passed p) = p
made_of _ = (a_wait, store)

was_made : made ≡ passed (made_of made)
unfolding create_callback_wait
was_made = refl

create_callback_wait-bounds_example :
    ((made_of made).0.status ≡ CallbackStatus.waiting)
    × ((made_of made).0.flow_run_id ≡ a_run.id)
    × ((made_of made).0.node_run_id ≡ a_node.id)
    × ((made_of made).0.attempt_number ≡ a_node.attempts)
    × (100 + 10 ≤ (made_of made).0.expires_at)
    × ((made_of made).0.expires_at ≤ 100 + 604800)
    × ((made_of made).1 ≡ record store { waits = store.waits ++ ((made_of made).0 ∷ []) })
create_callback_wait-bounds_example =
    create_callback_wait-bounds crypto names 100 "w2" a_run a_node asked store (made_of made).1
      (made_of made).0 was_made
