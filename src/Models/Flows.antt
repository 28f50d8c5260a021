-- ===== src/Models/Flows.antt =====
-- Flows, their versions, and their credentials. `draft_content` and `content` are kept as the graph
-- that app/schemas.py parses from the JSON column.
use flow_demo.Base.{ℕ, String, Bool, List}
use flow_demo.Json.{Fields}
use flow_demo.Enums.{FlowStatus}
use flow_demo.Content.{FlowContent}

pub record FlowDefinition : Type 0 where
  pub id : String
  pub group_id : String
  pub name : String
  pub description : String
  pub status : FlowStatus
  pub draft_content : FlowContent
  pub input_schema : Fields
  pub config_schema : Fields
  pub default_config : Fields
  pub current_version : ℕ
  pub row_version : ℕ
  pub created_at : ℕ
  pub updated_at : ℕ

pub record FlowVersion : Type 0 where
  pub id : String
  pub group_id : String
  pub flow_id : String
  pub version_number : ℕ
  pub content : FlowContent
  pub input_schema : Fields
  pub config_schema : Fields
  pub default_config : Fields
  pub node_registry_fingerprint : String
  pub created_at : ℕ

pub data CredentialType : Type 0 where
  bearer basic api_key_header : CredentialType

pub record FlowCredential : Type 0 where
  pub id : String
  pub group_id : String
  pub flow_id : String
  pub alias : String
  pub credential_type : CredentialType
  pub allowed_origins : List String
  pub enabled : Bool
  pub current_revision : ℕ
  pub created_at : ℕ
  pub updated_at : ℕ

pub record FlowCredentialRevision : Type 0 where
  pub id : String
  pub credential_id : String
  pub revision : ℕ
  pub key_id : String
  pub nonce : String
  pub ciphertext : String
  pub created_at : ℕ
