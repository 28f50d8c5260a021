-- ===== src/Models/Identity.antt =====
-- Users, groups, approval groups and approval tasks.
use flow_demo.Base.{ℕ, String, Bool, Option}
use flow_demo.Enums.{GroupRole, ApprovalTaskStatus}

pub record User : Type 0 where
  pub id : String
  pub username : String
  pub password_hash : String
  pub display_name : String
  pub is_super_admin : Bool
  pub enabled : Bool
  pub created_at : ℕ
  pub updated_at : ℕ

pub record GroupMember : Type 0 where
  pub id : String
  pub group_id : String
  pub user_id : String
  pub role : GroupRole
  pub created_at : ℕ

pub record ApprovalGroup : Type 0 where
  pub id : String
  pub group_id : String
  pub alias : String
  pub name : String
  pub created_at : ℕ

pub record ApprovalGroupMember : Type 0 where
  pub id : String
  pub approval_group_id : String
  pub user_id : String

pub record ApprovalTask : Type 0 where
  pub id : String
  pub group_id : String
  pub approval_group_id : Option String
  pub flow_run_id : String
  pub node_run_id : String
  pub node_id : String
  pub status : ApprovalTaskStatus
  pub prompt : String
  pub decision : Option String
  pub comment : String
  pub decided_by_user_id : Option String
  pub decided_at : Option ℕ
  pub created_at : ℕ
