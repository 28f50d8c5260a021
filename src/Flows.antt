-- ===== src/Flows.antt =====
-- The life of a flow in app/group_api.py: drafts, published versions, rollbacks and the status.
pub mod Handlers
pub mod Versions
pub mod Changes
pub mod Editing
use flow_demo.Base.{
  ℕ, ◌+◌, String, Bool, true, false, not, ◌&&◌, Option, none, some, List, [], ◌∷◌, ◌++◌, find?, map,
  any, all, contains, ◌==◌, eqb, ltb, if◌then◌else◌,
}
use flow_demo.Json.{Json, Fields, str, get}
use flow_demo.Enums.{FlowStatus, active, is_active}
use flow_demo.Content.{FlowNode, FlowContent}
use flow_demo.Http.{Response, answer, http_error, require, found_or, ◌>>=◌, ◌>>◌}
use flow_demo.Models.Identity.{User}
use flow_demo.Models.Flows.{FlowDefinition, FlowVersion, FlowCredential}
use flow_demo.Permissions.{Access, require_design}
use flow_demo.Validator.{Registry, validate_flow}
use flow_demo.Table.{row_at, save}

pub record Store : Type 0 where
  pub access : Access
  pub flows : List FlowDefinition
  pub versions : List FlowVersion
  pub credentials : List FlowCredential

-- the libraries behind the handlers: the number of errors that `jsonschema` has for an input schema
-- and for a configuration under its schema, Python's `strip` and `lower` of a text, new keys, and
-- the registry of node types with its fingerprint
pub record Library : Type 0 where
  pub input_schema_errors : Fields → ℕ
  pub config_errors : Fields → Fields → ℕ
  pub strip_lower : String → String
  pub registry : Registry
  pub fingerprint : String

abbrev pub flow_at : Store → String → Option FlowDefinition
flow_at s k = row_at (λ f. f.id) k s.flows

abbrev in_group : String → Option FlowDefinition → Response FlowDefinition
in_group group none = http_error 404
in_group group (some f) = if f.group_id == group then answer f else http_error 404

-- `_flow_or_404`; `id` is the primary key
unfoldable pub flow_or_404 : Store → String → String → Response FlowDefinition
flow_or_404 s group id = in_group group (flow_at s id)

-- what is written back when a flow changes
unfoldable pub save_flow : FlowDefinition → Store → Store
unfolding save
save_flow f s = record s { flows = save (λ x. x.id) f s.flows }

unfoldable pub add_version : FlowVersion → Store → Store
add_version v s = record s { versions = s.versions ++ (v ∷ []) }

module _ (lib : Library) where
  -- the name that a node's configuration refers to, as `credential_references` reads it
  abbrev reference : Option Json → List String
  reference (some (str s)) = let name = lib.strip_lower s in if name == "" then [] else name ∷ []
  reference _ = []

  -- `credential_references`, as a list
  unfoldable pub credential_references : List FlowNode → List String
  credential_references [] = []
  credential_references (n ∷ ns) =
      reference (get "credentialRef" n.content.config) ++ credential_references ns

  -- `_ensure_credentials_available`
  unfoldable pub ensure_credentials_available : Store → String → FlowContent → Response (Unit {0})
  unfolding credential_references
  ensure_credentials_available s flow content =
      require
        (all (λ a. any (λ c. c.flow_id == flow && c.alias == a) s.credentials)
          (credential_references content.nodes))
        422

  -- `ensure_valid_input_schema` and `ensure_valid_flow_configuration`
  abbrev pub ensure_valid_schemas : Fields → Fields → Fields → Response (Unit {0})
  ensure_valid_schemas input schema value = do
    require (eqb (lib.input_schema_errors input) 0) 422
    require (eqb (lib.config_errors schema value) 0) 422

-- `FlowDraftUpdate`
pub record DraftUpdate : Type 0 where
  pub content : FlowContent
  pub input_schema : Fields
  pub config_schema : Fields
  pub default_config : Fields
  pub description : Option String
  pub expected_row_version : ℕ

abbrev or_kept : String → Option String → String
or_kept old none = old
or_kept old (some new) = new

abbrev pub drafted : ℕ → DraftUpdate → FlowDefinition → FlowDefinition
drafted now d f = record f {
  description = or_kept f.description d.description;
  draft_content = d.content;
  input_schema = d.input_schema;
  config_schema = d.config_schema;
  default_config = d.default_config;
  row_version = f.row_version + 1;
  updated_at = now;
}

abbrev pub published : ℕ → ℕ → FlowDefinition → FlowDefinition
published now number f = record f { status = active; current_version = number; updated_at = now }

abbrev pub restored_flow : ℕ → ℕ → FlowVersion → FlowDefinition → FlowDefinition
restored_flow now number v f = record f {
  status = active;
  draft_content = v.content;
  input_schema = v.input_schema;
  config_schema = v.config_schema;
  default_config = v.default_config;
  current_version = number;
  row_version = f.row_version + 1;
  updated_at = now;
}

abbrev pub with_status : ℕ → FlowStatus → FlowDefinition → FlowDefinition
with_status now status f = record f {
  status = status;
  row_version = f.row_version + 1;
  updated_at = now;
}
