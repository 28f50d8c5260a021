-- ===== src/Models/Runs.antt =====
-- Runs, their nodes, attempts, callbacks, variables and events.
use flow_demo.Base.{ℕ, String, Bool, Option}
use flow_demo.Json.{Json, Fields}
use flow_demo.Enums.{RunStatus, NodeRunStatus, RunTriggerType}

pub record FlowRun : Type 0 where
  pub id : String
  pub group_id : String
  pub flow_id : String
  pub flow_version_id : String
  pub status : RunStatus
  pub input_data : Fields
  pub flow_config : Fields
  pub output_data : Option Json
  pub error_message : Option String
  pub cancel_requested : Bool
  pub trigger_type : RunTriggerType
  pub trigger_id : Option String
  pub parent_run_id : Option String
  pub idempotency_key : Option String
  pub source_metadata : Fields
  pub temporal_workflow_id : Option String
  pub requested_at : ℕ
  pub created_at : ℕ
  pub started_at : Option ℕ
  pub finished_at : Option ℕ

pub record NodeRun : Type 0 where
  pub id : String
  pub flow_run_id : String
  pub node_id : String
  pub node_type : String
  pub node_version : String
  pub status : NodeRunStatus
  pub config : Fields
  pub input_data : Option Json
  pub output_data : Option Json
  pub attempts : ℕ
  pub max_attempts : ℕ
  pub available_at : ℕ
  pub error_message : Option String
  pub started_at : Option ℕ
  pub finished_at : Option ℕ

pub data CallbackStatus : Type 0 where
  waiting received expired cancelled : CallbackStatus

pub data AuthMode : Type 0 where
  capability_url bearer api_key_header hmac_sha256 : AuthMode

pub record CallbackWait : Type 0 where
  pub id : String
  pub flow_run_id : String
  pub node_run_id : String
  pub node_id : String
  pub attempt_number : ℕ
  pub status : CallbackStatus
  pub auth_mode : AuthMode
  pub credential_alias : Option String
  pub expires_at : ℕ
  pub received_at : Option ℕ
  pub idempotency_key : Option String
  pub payload : Option Json
  pub request_metadata : Fields
  pub created_at : ℕ
  pub updated_at : ℕ

pub record NodeRunAttempt : Type 0 where
  pub id : String
  pub node_run_id : String
  pub attempt_number : ℕ
  pub status : NodeRunStatus
  pub error_message : Option String
  pub started_at : ℕ
  pub finished_at : Option ℕ

-- `group_id` as `emit_event` passes it, without a value where the run is missing
pub record FlowEvent : Type 0 where
  pub group_id : Option String
  pub flow_run_id : String
  pub node_id : Option String
  pub event_type : String
  pub payload : Fields
  pub created_at : ℕ

pub record FlowRunVariable : Type 0 where
  pub id : String
  pub group_id : String
  pub flow_run_id : String
  pub name : String
  pub value : Json
  pub value_type : String
  pub updated_by_node_id : String
  pub revision : ℕ
  pub created_at : ℕ
  pub updated_at : ℕ
