-- ===== src/Flows/Handlers.antt =====
-- The handlers `update_draft`, `publish_flow`, `rollback_flow_version` and `update_flow_status` of
-- app/group_api.py. An error leaves the tables as they were: nothing was committed. Each
-- request is handled alone; the code takes no lock here, and requests that overlap are not modelled.
use flow_demo.Base.{ℕ, ◌+◌, String, Bool, not, ◌&&◌, find?, ◌==◌, eqb, ltb, length}
use flow_demo.Enums.{FlowStatus, is_active}
use flow_demo.Http.{Response, answer, require, found_or, ◌>>=◌, ◌>>◌}
use flow_demo.Models.Identity.{User}
use flow_demo.Models.Flows.{FlowDefinition, FlowVersion}
use flow_demo.Permissions.{require_design}
use flow_demo.Validator.{validate_flow}
use flow_demo.Flows.{
  Store, Library, DraftUpdate, flow_or_404, save_flow, add_version, ensure_credentials_available,
  ensure_valid_schemas, drafted, published, restored_flow, with_status,
}

-- the version that `publish_flow` makes of a draft
abbrev pub version_of_draft : Library → ℕ → String → String → FlowDefinition → FlowVersion
version_of_draft lib now new_id group f = record {
  id = new_id;
  group_id = group;
  flow_id = f.id;
  version_number = f.current_version + 1;
  content = f.draft_content;
  input_schema = f.input_schema;
  config_schema = f.config_schema;
  default_config = f.default_config;
  node_registry_fingerprint = lib.fingerprint;
  created_at = now;
}

-- the version that `rollback_flow_version` makes of an older one
abbrev pub version_again :
    Library → ℕ → String → String → FlowVersion → FlowDefinition → FlowVersion
version_again lib now new_id group v f = record {
  id = new_id;
  group_id = group;
  flow_id = f.id;
  version_number = f.current_version + 1;
  content = v.content;
  input_schema = v.input_schema;
  config_schema = v.config_schema;
  default_config = v.default_config;
  node_registry_fingerprint = lib.fingerprint;
  created_at = now;
}

module _ (lib : Library) (now : ℕ) (user : User) (group flow_id : String) (s : Store) where
  unfoldable pub update_draft : DraftUpdate → Response (Store × FlowDefinition)
  unfolding require_design flow_or_404 save_flow
  update_draft d = do
    require_design s.access user group
    f ← flow_or_404 s group flow_id
    require (eqb f.row_version d.expected_row_version) 409
    ensure_valid_schemas lib d.input_schema d.config_schema d.default_config
    answer (save_flow (drafted now d f) s, drafted now d f)

  -- `issues` is empty: the graph's, the input schema's and the configuration's
  abbrev pub has_no_issues : FlowDefinition → Bool
  has_no_issues f =
      eqb (length (validate_flow lib.registry f.draft_content)) 0
      && eqb (lib.input_schema_errors f.input_schema) 0
      && eqb (lib.config_errors f.config_schema f.default_config) 0

  -- `new_id` is the key of the new version
  unfoldable pub publish_flow : String → Response (Store × FlowVersion)
  unfolding require_design flow_or_404 save_flow add_version ensure_credentials_available
      validate_flow
  publish_flow new_id = do
    require_design s.access user group
    f ← flow_or_404 s group flow_id
    ensure_credentials_available lib s f.id f.draft_content
    require (has_no_issues f) 422
    let version = version_of_draft lib now new_id group f in
        answer (save_flow (published now version.version_number f) (add_version version s), version)

  unfoldable pub rollback_flow_version : String → ℕ → Response (Store × FlowVersion)
  unfolding require_design flow_or_404 save_flow add_version
  rollback_flow_version new_id number = do
    require_design s.access user group
    f ← flow_or_404 s group flow_id
    source ← found_or 404 (
        find? (λ v. v.group_id == group && v.flow_id == f.id && eqb v.version_number number)
          s.versions)
    let version = version_again lib now new_id group source f in
        answer (
          save_flow (restored_flow now version.version_number source f) (add_version version s),
          version,
        )

  unfoldable pub update_flow_status : FlowStatus → Response (Store × FlowDefinition)
  unfolding require_design flow_or_404 save_flow
  update_flow_status status = do
    require_design s.access user group
    f ← flow_or_404 s group flow_id
    require (not (is_active status && ltb f.current_version 1)) 409
    answer (save_flow (with_status now status f) s, with_status now status f)
