-- ===== src/Callback/Expire.antt =====
-- `_expire` and `_reject` of app/callback_api.py.
use flow_demo.Base.{ℕ, String, Bool, true, false, Option, none, some, List, if◌then◌else◌}
use flow_demo.Json.{Json, str, end, field}
use flow_demo.Enums.{RunStatus, NodeRunStatus}
use flow_demo.Models.Runs.{FlowRun, NodeRun, CallbackWait, NodeRunAttempt, CallbackStatus, AuthMode}
use flow_demo.Models.Runs
use flow_demo.Callback.Auth.{Checked, Crypto}
use flow_demo.Callback.Store.{
  Store, Signal, emit_event, save_wait, save_node_run, save_run, save_attempt, attempt_of,
}

-- the libraries and services behind the endpoint: `json.loads` (JSONDecodeError is `value_error`;
-- bytes in no Unicode encoding raise another error), times as texts, and whether Temporal takes a
-- signal
pub record Service : Type 0 where
  pub crypto : Crypto
  pub json_loads : List ℕ → Checked Json
  pub isoformat : ℕ → String
  pub delivers : Signal → Bool

abbrev pub mode_text : AuthMode → Json
mode_text Runs.capability_url = str "CAPABILITY_URL"
mode_text Runs.bearer = str "BEARER"
mode_text Runs.api_key_header = str "API_KEY_HEADER"
mode_text Runs.hmac_sha256 = str "HMAC_SHA256"

-- `_reject`
unfoldable pub reject : ℕ → CallbackWait → String → Json → Store → Store
unfolding emit_event
reject now w reason source =
    emit_event now w.flow_run_id "CALLBACK_REJECTED"
      (field "reason" (str reason)
        (field "source" source (field "authMode" (mode_text w.auth_mode) end)))
      (some w.node_id)

abbrev timed_out : Option String
timed_out = some "Callback wait timed out"

abbrev pub fail_node : ℕ → NodeRun → NodeRun
fail_node now n = record n {
  status = NodeRunStatus.failed;
  error_message = timed_out;
  finished_at = some now;
}

abbrev pub fail_run : ℕ → FlowRun → FlowRun
fail_run now r = record r {
  status = RunStatus.failed;
  error_message = timed_out;
  finished_at = some now;
}

abbrev pub fail_attempt : ℕ → Option NodeRunAttempt → Store → Store
fail_attempt now none s = s
fail_attempt now (some a) s =
    save_attempt
      (record a {
        status = NodeRunStatus.failed;
        error_message = timed_out;
        finished_at = some now;
      })
      s

abbrev pub waits_callback : NodeRunStatus → Bool
waits_callback NodeRunStatus.waiting_callback = true
waits_callback _ = false

abbrev pub expired_wait : ℕ → CallbackWait → CallbackWait
expired_wait now w = record w { status = CallbackStatus.expired; updated_at = now }

-- `_expire`, for the node run and the run of the wait
unfoldable pub expire : Service → ℕ → CallbackWait → NodeRun → FlowRun → Store → Store
unfolding emit_event save_wait save_node_run save_run save_attempt
expire lib now w n r s =
    let s₁ = save_wait (expired_wait now w) s in
    if waits_callback n.status
    then (let s₂ = save_run (fail_run now r) (save_node_run (fail_node now n) s₁) in
        let s₃ = fail_attempt now (attempt_of s₂ n.id w.attempt_number) s₂ in
        let s₄ =
          emit_event now r.id "CALLBACK_EXPIRED"
            (field "callbackId" (str w.id) (field "expiredAt" (str (lib.isoformat now)) end))
            (some n.node_id) s₃ in
        emit_event now r.id "NODE_FAILED"
          (field "status" (str "FAILED") (field "error" (str "Callback wait timed out") end))
          (some n.node_id) s₄)
    else s₁
