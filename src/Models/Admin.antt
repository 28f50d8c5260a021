-- ===== src/Models/Admin.antt =====
-- Groups, schedules, sessions and the security audit.
use flow_demo.Base.{ℕ, String, Bool, Option}
use flow_demo.Json.{Fields}

pub record Group : Type 0 where
  pub id : String
  pub name : String
  pub description : String
  pub created_at : ℕ
  pub updated_at : ℕ

pub record FlowSchedule : Type 0 where
  pub id : String
  pub group_id : String
  pub flow_id : String
  pub flow_version_id : String
  pub name : String
  pub cron_expression : String
  pub timezone : String
  pub input_data : Fields
  pub config_overrides : Fields
  pub temporal_schedule_id : Option String
  pub enabled : Bool
  pub next_run_at : ℕ
  pub last_triggered_at : Option ℕ
  pub created_at : ℕ
  pub updated_at : ℕ

pub record AdminSession : Type 0 where
  pub id : String
  pub user_id : Option String
  pub token_hash : String
  pub csrf_token : String
  pub expires_at : ℕ
  pub created_at : ℕ

pub record SecurityAuditEvent : Type 0 where
  pub id : ℕ
  pub event_type : String
  pub group_id : Option String
  pub flow_id : Option String
  pub credential_id : Option String
  pub actor : String
  pub payload : Fields
  pub created_at : ℕ
