-- ===== src/Tests/Flows.antt =====
-- A flow that is drafted, published and rolled back, and the theorems at it.
use flow_demo.Base.{
  ◌++◌, ℕ, suc, true, none, some, List, [], ◌∷◌, ◌≡◌, refl, ◌==◌, Bool-cases, inl, inr,
}
use flow_demo.Json.{end, get}
use flow_demo.Enums.{FlowStatus}
use flow_demo.Content.{FlowContent, keys, node_at}
use flow_demo.Http.{answer, http_error}
use flow_demo.Models.Identity.{User}
use flow_demo.Models.Flows.{FlowDefinition, FlowVersion}
use flow_demo.Permissions.{require_design}
use flow_demo.Validator.{validate_flow, linked, kahn}
use flow_demo.Validator.Sound.{IsValidFlow}
use flow_demo.Flows.{
  Store, Library, DraftUpdate, flow_at, save_flow, add_version, drafted, published,
}
use flow_demo.Flows.Handlers.{update_draft, publish_flow, version_of_draft}
use flow_demo.Flows.Versions.{IsNumbered, numbers}
use flow_demo.Flows.Changes.{
  Command, Action, draft, publish, rollback, handle_all, handle_all-IsNumbered, IsExtension,
  handle_all-IsExtension,
}
use flow_demo.Flows.Editing.{publish_flow-IsValidFlow, update_draft-conflict}
use flow_demo.Samples.{diamond, ports}

abbrev library : Library
library = record {
  input_schema_errors = λ d. 0;
  config_errors = λ d v. 0;
  strip_lower = λ s. s;
  registry = ports;
  fingerprint = "1";
}

abbrev root : User
root = record {
  id = "u";
  username = "root";
  password_hash = "";
  display_name = "Root";
  is_super_admin = true;
  enabled = true;
  created_at = 0;
  updated_at = 0;
}

abbrev empty_flow : FlowContent
empty_flow = record { schema_version = 1; nodes = []; edges = [] }

abbrev new_flow : FlowDefinition
new_flow = record {
  id = "f";
  group_id = "g";
  name = "Flow";
  description = "";
  status = FlowStatus.draft;
  draft_content = diamond;
  input_schema = end;
  config_schema = end;
  default_config = end;
  current_version = 0;
  row_version = 1;
  created_at = 0;
  updated_at = 0;
}

abbrev store : Store
store = record {
  access = record { members = []; approvers = [] };
  flows = new_flow ∷ [];
  versions = [];
  credentials = [];
}

abbrev edit : DraftUpdate
edit = record {
  content = empty_flow;
  input_schema = end;
  config_schema = end;
  default_config = end;
  description = none;
  expected_row_version = 1;
}

abbrev by_root : ℕ → Action → Command
by_root t a = record { user = root; group = "g"; flow = "f"; time = t; action = a }

-- published, edited, published without a valid draft, rolled back to the first version
abbrev story : List Command
story =
    by_root 1 (publish "v1")
    ∷ by_root 2 (draft edit)
    ∷ by_root 3 (publish "v2")
    ∷ by_root 4 (rollback "v3" 1)
    ∷ []

desk : Unit {0}
unfolding get keys node_at linked kahn validate_flow require_design update_draft publish_flow
    handle_all
desk = tt

-- the invalid draft is not published
two_versions : numbers "f" (handle_all library story store).versions ≡ 1 ∷ 2 ∷ []
unfolding desk
two_versions = refl

store-IsNumbered : IsNumbered store
store-IsNumbered k f h = elim (Bool-cases ("f" == k)) [
  | inl e ↦
      let here : some new_flow ≡ some f = rw e at h in
      let same : new_flow ≡ f = cc in rw (← same) refl
  | inr ne ↦ let none_here : none ≡ some f = rw ne at h in cc
]

handle_all-IsNumbered_example : IsNumbered (handle_all library story store)
handle_all-IsNumbered_example = handle_all-IsNumbered library story store store-IsNumbered

handle_all-IsExtension_example : IsExtension store (handle_all library story store)
handle_all-IsExtension_example = handle_all-IsExtension library story store

abbrev first : FlowVersion
first = version_of_draft library 1 "v1" "g" new_flow

abbrev after_first : Store
after_first = save_flow (published 1 1 new_flow) (add_version first store)

first_publication : publish_flow library 1 root "g" "f" store "v1" ≡ answer (after_first, first)
unfolding desk
first_publication = refl

publish_flow-IsValidFlow_example :
    (f f' : FlowDefinition) × (flow_at store "f" ≡ some f)
    × (f.group_id ≡ "g")
    × (first.id ≡ "v1")
    × (first.group_id ≡ "g")
    × (first.flow_id ≡ f.id)
    × (first.content ≡ f.draft_content)
    × (first.input_schema ≡ f.input_schema)
    × (first.config_schema ≡ f.config_schema)
    × (first.default_config ≡ f.default_config)
    × (first.version_number ≡ suc f.current_version)
    × IsValidFlow ports first.content
    × (after_first.versions ≡ store.versions ++ (first ∷ []))
    × (flow_at after_first "f" ≡ some f')
    × (f'.status ≡ FlowStatus.active)
    × (f'.current_version ≡ first.version_number)
    × (f'.draft_content ≡ f.draft_content)
publish_flow-IsValidFlow_example =
    publish_flow-IsValidFlow library 1 root "g" "f" store "v1" after_first first first_publication

first_edit :
    update_draft library 1 root "g" "f" store edit
    ≡ answer (save_flow (drafted 1 edit new_flow) store, drafted 1 edit new_flow)
unfolding desk
first_edit = refl

root_designs : require_design store.access root "g" ≡ answer tt
unfolding require_design
root_designs = refl

update_draft-conflict_example :
    update_draft library 2 root "g" "f" (save_flow (drafted 1 edit new_flow) store) edit
    ≡ http_error 409
update_draft-conflict_example =
    update_draft-conflict library 1 root "g" "f" store edit
      (save_flow (drafted 1 edit new_flow) store) (drafted 1 edit new_flow) first_edit 2 root edit
      root_designs refl
