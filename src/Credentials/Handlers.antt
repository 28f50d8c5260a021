-- ===== src/Credentials/Handlers.antt =====
-- The handlers of credentials in app/group_api.py.
use flow_demo.Base.{
  ℕ, String, Bool, true, not, ◌&&◌, ◌||◌, Option, none, some, List, [], ◌∷◌, ◌++◌, find?, filter,
  any, ◌==◌,
}
use flow_demo.Base.Int.{pos}
use flow_demo.Json.{Items, Fields, str, num, bool, arr, nil, cons, field, end}
use flow_demo.Content.{FlowContent}
use flow_demo.Http.{Response, answer, http_error, require, found_or, ◌>>=◌, ◌>>◌}
use flow_demo.Models.Admin.{SecurityAuditEvent}
use flow_demo.Models.Identity.{User}
use flow_demo.Models.Flows.{
  FlowDefinition, FlowVersion, CredentialType, bearer, basic, api_key_header, FlowCredential,
}
use flow_demo.Permissions.{Access, require_design}
use flow_demo.Table.{save}
use flow_demo.Flows
use flow_demo.Flows.{Library, flow_or_404, credential_references}
use flow_demo.Callback.Auth.{Checked, passed, value_error, crash, Vault}
use flow_demo.Credentials.{Sealer}
use flow_demo.Credentials.Define.{validate_credential_definition, origins_of}
use flow_demo.Credentials.Revisions.{Fresh, create_revision}

-- the tables that the handlers use
pub record Office : Type 0 where
  pub access : Access
  pub flows : List FlowDefinition
  pub versions : List FlowVersion
  pub vault : Vault
  pub audits : List SecurityAuditEvent

-- those of a flow
abbrev pub shop : Office → Flows.Store
shop o = record {
  access = o.access;
  flows = o.flows;
  versions = o.versions;
  credentials = o.vault.credentials;
}

pub record CredentialCreate : Type 0 where
  pub alias : String
  pub type : CredentialType
  pub allowed_origins : List String
  pub secret : Fields

pub record CredentialUpdate : Type 0 where
  pub allowed_origins : Option (List String)
  pub enabled : Option Bool

abbrev type_text : CredentialType → String
type_text bearer = "BEARER"
type_text basic = "BASIC"
type_text api_key_header = "API_KEY_HEADER"

-- `except ValueError: raise HTTPException(422)`; any other error is answered 500
abbrev pub checked {ℓ} : {A : Type ℓ} → Checked A → Response A
checked (passed a) = answer a
checked (value_error e) = http_error 422
checked crash = http_error 500

-- a ValueError that nobody catches
abbrev pub uncaught {ℓ} : {A : Type ℓ} → Checked A → Response A
uncaught (passed a) = answer a
uncaught (value_error e) = http_error 500
uncaught crash = http_error 500

-- `add_audit`, with the number of the row
unfoldable pub add_audit : ℕ → ℕ → String → String → String → String → Fields → Office → Office
add_audit number now event_type actor flow credential payload o = record o {
  audits =
      o.audits
      ++ (record {
        id = number;
        event_type = event_type;
        group_id = none;
        flow_id = some flow;
        credential_id = some credential;
        actor = actor;
        payload = payload;
        created_at = now;
      }
          ∷ []);
}

abbrev pub is_credential : String → String → FlowCredential → Bool
is_credential flow id c = c.id == id && c.flow_id == flow

-- `get_credential_or_404`
unfoldable pub get_credential_or_404 : Vault → String → String → Response FlowCredential
get_credential_or_404 v flow id = found_or 404 (find? (is_credential flow id) v.credentials)

module _ (lib : Library) where
  abbrev mentions : String → FlowContent → Bool
  mentions alias content = any (λ a. alias == a) (credential_references lib content.nodes)

  -- `credential_is_referenced`
  unfoldable pub credential_is_referenced : Office → FlowDefinition → String → Bool
  unfolding credential_references
  credential_is_referenced o f alias =
      mentions alias f.draft_content
      || any (λ v. v.flow_id == f.id && mentions alias v.content) o.versions

abbrev pub with_row : FlowCredential → Vault → Vault
with_row c v = record v { credentials = v.credentials ++ (c ∷ []) }

unfoldable pub save_credential : FlowCredential → Vault → Vault
unfolding save
save_credential c v = record v { credentials = save (λ x. x.id) c v.credentials }

abbrev pub new_credential :
    ℕ → String → FlowDefinition → String → String → CredentialType → List String → FlowCredential
new_credential now id f group alias type origins = record {
  id = id;
  group_id = group;
  flow_id = f.id;
  alias = alias;
  credential_type = type;
  allowed_origins = origins;
  enabled = true;
  current_revision = 0;
  created_at = now;
  updated_at = now;
}

abbrev pub enabled_or : Bool → Option Bool → Bool
enabled_or old none = old
enabled_or old (some b) = b

module _ (sl : Sealer) where
  abbrev pub origins_or : List String → Option (List String) → Checked (List String)
  origins_or old none = passed old
  origins_or old (some items) = origins_of sl items

-- a list of texts as a value
unfoldable pub items_of : List String → Items
items_of [] = nil
items_of (s ∷ ss) = cons (str s) (items_of ss)

-- the keys and the number of the audit row that a request makes
pub record Numbers : Type 0 where
  pub credential_id : String
  pub fresh : Fresh
  pub audit : ℕ

module _ (lib : Library) (sl : Sealer) (now : ℕ) (user : User) (group flow_id : String)
    (o : Office) where
  -- the credential, if it is the group's
  abbrev pub own_credential : String → Response FlowCredential
  own_credential id = do
    c ← get_credential_or_404 o.vault flow_id id
    require (c.group_id == group) 404
    answer c

  -- the flush of a second row with the same flow and alias raises IntegrityError
  unfoldable pub create_credential : Numbers → CredentialCreate → Response (Office × FlowCredential)
  unfolding require_design flow_or_404 validate_credential_definition create_revision add_audit
  create_credential ns p = do
    f ← flow_or_404 (shop o) group flow_id
    require_design o.access user group
    defined ← checked (validate_credential_definition sl p.alias p.type p.allowed_origins p.secret)
    let row = new_credential now ns.credential_id f group (defined.0) p.type (defined.1) in
        do
          require (not (any (λ c. c.flow_id == f.id && c.alias == defined.0) o.vault.credentials))
              500
          made ← uncaught (create_revision sl ns.fresh now row (defined.2) none)
          let v = record o.vault {
            credentials = o.vault.credentials ++ (made.0 ∷ []);
            revisions = o.vault.revisions ++ (made.1 ∷ []);
          } in
              answer (
                add_audit ns.audit now "CREDENTIAL_CREATED" user.username f.id ns.credential_id
                    (field "alias" (str (defined.0)) (
                      field "type" (str (type_text p.type))
                        (field "revision" (num (pos made.0.current_revision)) end)))
                    (record o { vault = v }),
                made.0,
              )

  unfoldable pub rotate_credential : Numbers → String → Fields → Response (Office × FlowCredential)
  unfolding require_design get_credential_or_404 validate_credential_definition create_revision
      add_audit save_credential
  rotate_credential ns id secret = do
    require_design o.access user group
    c ← own_credential id
    defined ←
        checked
          (validate_credential_definition sl c.alias c.credential_type c.allowed_origins secret)
    made ← uncaught (create_revision sl ns.fresh now c (defined.2) none)
    let c' = record (made.0) { updated_at = now } in
        let saved = save_credential c' o.vault in
        let v = record saved { revisions = saved.revisions ++ (made.1 ∷ []) } in
        answer (
          add_audit ns.audit now "CREDENTIAL_ROTATED" user.username flow_id c.id
              (field "alias" (str c.alias) (field "revision" (num (pos made.1.revision)) end))
              (record o { vault = v }),
          c',
        )

  unfoldable pub update_credential :
      Numbers → String → CredentialUpdate → Response (Office × FlowCredential)
  unfolding require_design get_credential_or_404 add_audit save_credential items_of
  update_credential ns id p = do
    require_design o.access user group
    c ← own_credential id
    origins ← checked (origins_or sl c.allowed_origins p.allowed_origins)
    let c' = record c {
      allowed_origins = origins;
      enabled = enabled_or c.enabled p.enabled;
      updated_at = now;
    } in
        answer (
          add_audit ns.audit now "CREDENTIAL_UPDATED" user.username flow_id c.id
              (field "alias" (str c.alias) (
                field "enabled" (bool c'.enabled)
                  (field "allowedOrigins" (arr (items_of origins)) end)))
              (record o { vault = save_credential c' o.vault }),
          c',
        )

  -- the revisions are deleted with the credential
  unfoldable pub delete_credential : String → Response Office
  unfolding require_design flow_or_404 get_credential_or_404 credential_is_referenced
  delete_credential id = do
    require_design o.access user group
    f ← flow_or_404 (shop o) group flow_id
    c ← own_credential id
    require (not (credential_is_referenced lib o f c.alias)) 409
    answer (record o {
      vault = record {
        credentials = filter (λ x. not (x.id == c.id)) o.vault.credentials;
        revisions = filter (λ r. not (r.credential_id == c.id)) o.vault.revisions;
      };
    })
