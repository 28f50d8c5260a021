-- ===== src/Projection/Waits.antt =====
-- The activities around a wait for a person or a callback.
use flow_demo.Base.{
  ℕ, zero, String, false, ◌&&◌, Option, none, some, [], ◌∷◌, ◌++◌, ◌==◌, max, find?, if◌then◌else◌,
}
use flow_demo.Base.Int.{pos}
use flow_demo.Json.{Json, Fields, null, bool, num, str, arr, obj, nil, end, field, get, put, update}
use flow_demo.Enums.{RunStatus, NodeRunStatus, ApprovalTaskStatus}
use flow_demo.Models.Runs.{FlowRun, NodeRun, CallbackWait}
use flow_demo.Models.Identity.{ApprovalTask}
use flow_demo.Redaction.{redact}
use flow_demo.Table.{save}
use flow_demo.Workflow.Activities.{Result, ok, err, Payload}
use flow_demo.Callback.Auth.{Checked, passed, value_error, crash}
use flow_demo.Callback.Expire.{mode_text}
use flow_demo.Callback.Create.{Texts, create_callback_wait, callback_url, text_at}
use flow_demo.Callback.Store.{Store, save_run, save_node_run}
use flow_demo.Projection.World.{Services, emit, load, ◌>>=◌}
use flow_demo.Projection.Marks.{◌⁀◌}

-- `value or {}` under `**`: the dictionary, or a TypeError
unfoldable pub spread : Option Json → Result Fields
spread none = ok end
spread (some null) = ok end
spread (some (bool false)) = ok end
spread (some (num (pos zero))) = ok end
spread (some (str s)) = if s == "" then ok end else err "argument must be a mapping"
spread (some (arr nil)) = ok end
spread (some (obj d)) = ok d
spread (some _) = err "argument must be a mapping"

-- `**payload.get("data", {})`
unfoldable pub spread_data : Option Json → Result Fields
spread_data none = ok end
spread_data (some (obj d)) = ok d
spread_data (some _) = err "argument must be a mapping"

abbrev pub value_at : String → Json → Fields → Json
value_at key default d = elim (get key d) [ none ↦ default | some v ↦ v ]

abbrev pub or_null : Option String → Json
or_null none = null
or_null (some s) = str s

abbrev pub filled : String → Json
filled s = if s == "" then null else str s

abbrev pub waiting_node : Payload → NodeRun → NodeRun
waiting_node p n = record n {
  input_data = some p.inputs;
  status = NodeRunStatus.waiting;
  attempts = max n.attempts p.attempt;
}

abbrev pub resumed_node : ℕ → Fields → NodeRun → NodeRun
resumed_node now out n = record n {
  output_data = some (obj out);
  status = NodeRunStatus.success;
  finished_at = some now;
}

abbrev pub with_status : RunStatus → FlowRun → FlowRun
with_status status r = record r { status = status }

module _ (texts : Texts) (now : ℕ) where
  -- the approval group that an alias names in the run's group; an empty alias names none
  abbrev pub group_named : String → String → Store → Result (Option String)
  group_named group alias s =
      if alias == ""
      then ok none
      else elim (find? (λ g. g.group_id == group && g.alias == alias) s.approval_groups) [
        | none ↦ err ("Approval group '" ⁀ alias ⁀ "' does not exist")
        | some g ↦ ok (some g.id)
      ]

  abbrev new_task : String → FlowRun → NodeRun → String → Option String → ApprovalTask
  new_task new_id r n prompt group = record {
    id = new_id;
    group_id = r.group_id;
    approval_group_id = group;
    flow_run_id = r.id;
    node_run_id = n.id;
    node_id = n.node_id;
    status = ApprovalTaskStatus.pending;
    prompt = prompt;
    decision = none;
    comment = "";
    decided_by_user_id = none;
    decided_at = none;
    created_at = now;
  }

  -- the task of the node, made or given the approval group
  abbrev pub put_task :
      String → FlowRun → NodeRun → String → Option String → Option ApprovalTask → Store → Store
  put_task new_id r n prompt group none s = record s {
    tasks = s.tasks ++ (new_task new_id r n prompt group ∷ []);
  }
  put_task new_id r n prompt none (some t) s = s
  put_task new_id r n prompt (some g) (some t) s = record s {
    tasks = save (λ x. x.id) (record t { approval_group_id = some g }) s.tasks;
  }

  -- the body of `create_manual_wait_activity`, under the key `new_id` for a new task
  unfoldable pub create_manual_wait : String → Payload → Store → Result Store
  unfolding get save emit save_run save_node_run load
  create_manual_wait new_id p s = load s p.run_id p.node_id >>= λ (r, n₀).
      let prompt = text_at texts "prompt" "Manual action required" p.node_data.config in
      let alias = texts.strip_lower (text_at texts "approvalGroupRef" "" p.node_data.config) in
      group_named r.group_id alias s >>= λ group.
      let n = waiting_node p n₀ in
      let r' = with_status RunStatus.waiting r in
      let s₁ = save_run r' (save_node_run n s) in
      let s₂ =
        put_task new_id r' n prompt group
          (find? (λ t. t.flow_run_id == r.id && t.node_id == n.node_id) s.tasks) s₁ in
      let s₃ =
        emit now r' "NODE_WAITING"
          (field "status" (str "WAITING")
            (field "prompt" (str prompt) (field "approvalGroupRef" (filled alias) end)))
          (some n.node_id) s₂ in
      ok (emit now r' "RUN_WAITING" (field "status" (str "WAITING") end) none s₃)

  -- the body of `complete_manual_wait_activity`, for the data of a signal; `iso` is the time as a text
  unfoldable pub complete_manual_wait : String → Payload → Fields → Store → Result (Fields × Store)
  unfolding get put update spread spread_data emit save_run save_node_run load
  complete_manual_wait iso p signal s = load s p.run_id p.node_id >>= λ (r, n).
      spread n.input_data >>= λ inputs. spread_data (get "data" signal) >>= λ given.
      let decision = value_at "decision" (str "CONTINUE") signal in
      let out = put "manualResumedAt" (str iso) (
        put "manualComment" (value_at "comment" (str "") signal)
          (put "manualDecision" decision (update inputs given))) in
      let r' = with_status RunStatus.running r in
      let s₁ = save_run r' (save_node_run (resumed_node now out n) s) in
      let s₂ =
        emit now r' "NODE_RESUMED" (field "status" (str "SUCCESS") (field "decision" decision end))
          (some n.node_id) s₁ in
      ok (out, emit now r' "RUN_RESUMED" (field "status" (str "RUNNING") end) none s₂)

abbrev pub calling_node : Payload → NodeRun → NodeRun
calling_node p n = record n { input_data = some p.inputs; attempts = max n.attempts p.attempt }

abbrev pub waiting_callback_node : CallbackWait → Fields → NodeRun → NodeRun
waiting_callback_node w out n = record n {
  output_data = some (obj out);
  status = NodeRunStatus.waiting_callback;
  available_at = w.expires_at;
}

abbrev pub received_node : ℕ → Fields → NodeRun → NodeRun
received_node now out n = record n {
  output_data = some (obj out);
  status = NodeRunStatus.success;
  error_message = none;
  finished_at = some now;
}

abbrev pub checked : {A : Type 0} → Checked A → Result A
checked (passed a) = ok a
checked (value_error e) = err e
checked crash = err "error"

module _ {E : Type 0} (sv : Services E) (now : ℕ) where
  -- the body of `create_callback_wait_activity`, under the key `new_id`
  unfoldable pub create_callback : String → Payload → Store → Result Store
  unfolding create_callback_wait callback_url emit save_run save_node_run load
  create_callback new_id p s = load s p.run_id p.node_id >>= λ (r, n₀).
      let n = calling_node p n₀ in
      checked (create_callback_wait sv.crypto sv.texts now new_id r n p.node_data.config s)
      >>= λ (w, s₁).
          let expires : Json = str (sv.isoformat w.expires_at) in
          let out =
            field "_callback"
              (obj (
                field "id" (str w.id) (
                  field "status" (str "WAITING") (
                    field "url" (str (callback_url sv.callback_base_url w)) (
                      field "authMode" (mode_text w.auth_mode) (
                        field "credentialAlias" (or_null w.credential_alias)
                          (field "expiresAt" expires end)))))))
              end in
          let r' = with_status RunStatus.waiting_callback r in
          let s₂ = save_run r' (save_node_run (waiting_callback_node w out n) s₁) in
          let s₃ =
            emit now r' "CALLBACK_WAITING"
              (field "callbackId" (str w.id) (
                field "status" (str "WAITING_CALLBACK") (
                  field "authMode" (mode_text w.auth_mode) (
                    field "credentialAlias" (or_null w.credential_alias)
                      (field "expiresAt" expires end)))))
              (some n.node_id) s₂ in
          ok (
            emit now r' "RUN_WAITING_CALLBACK" (field "status" (str "WAITING_CALLBACK") end) none
              s₃)

  abbrev pub redacted_data : Option Json → Option Json
  redacted_data none = none
  redacted_data (some v) = some (redact v)

  -- the body of `complete_callback_wait_activity`, for the data of a signal
  unfoldable pub complete_callback : Payload → Fields → Store → Result (Fields × Store)
  unfolding get put update redact spread spread_data emit save_run save_node_run load
  complete_callback p signal s = load s p.run_id p.node_id >>= λ (r, n).
      spread n.input_data >>= λ inputs. spread_data (redacted_data (get "data" signal)) >>= λ given.
      let id = value_at "callback_id" null signal in
      let out =
        put "_callback"
          (obj (
            field "id" id
              (field "status" (str "RECEIVED") (field "receivedAt" (str (sv.isoformat now)) end))))
          (update inputs given) in
      let r' = with_status RunStatus.running r in
      let s₁ = save_run r' (save_node_run (received_node now out n) s) in
      let s₂ = emit now r' "CALLBACK_RECEIVED" (field "callbackId" id end) (some n.node_id) s₁ in
      let s₃ =
        emit now r' "NODE_SUCCEEDED" (field "status" (str "SUCCESS") (field "output" (obj out) end))
          (some n.node_id) s₂ in
      ok (out, emit now r' "RUN_RESUMED" (field "status" (str "RUNNING") end) none s₃)
