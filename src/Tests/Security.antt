-- ===== src/Tests/Security.antt =====
-- The permission checks and the redaction at concrete inputs.
use flow_demo.Base.{String, true, false, none, some, [], ◌∷◌, ◌≡◌, refl, ◌↔◌, ◌⊎◌}
use flow_demo.Json.{Json, null, str, arr, obj, cons, nil, end, field}
use flow_demo.Enums.{GroupRole, group_admin, flow_designer, approver, ApprovalTaskStatus}
use flow_demo.Http.{answer, http_error}
use flow_demo.Models.Identity.{User, ApprovalTask}
use flow_demo.Permissions.{
  Access, has_role, design_roles, require_group_role, require_approve_task, roles_for,
}
use flow_demo.Permissions.Laws.{Holds, require_group_role_iff}
use flow_demo.Permissions.Approval.{Listed, require_approve_task_iff}
use flow_demo.Redaction.{redact}
use flow_demo.Redaction.Laws.{IsClean, redact-IsClean}

abbrev ada : User
ada = record {
  id = "ada";
  username = "ada";
  password_hash = "";
  display_name = "Ada";
  is_super_admin = false;
  enabled = true;
  created_at = 0;
  updated_at = 0;
}

-- a designer of one group, and an approver of another who is in the approval group "qa"
abbrev tables : Access
tables = record {
  members =
      record { id = "1"; group_id = "a"; user_id = "ada"; role = flow_designer; created_at = 0 }
      ∷ record { id = "2"; group_id = "b"; user_id = "ada"; role = approver; created_at = 0 }
      ∷ [];
  approvers = record { id = "3"; approval_group_id = "qa"; user_id = "ada" } ∷ [];
}

abbrev task : ApprovalTask
task = record {
  id = "t";
  group_id = "b";
  approval_group_id = some "qa";
  flow_run_id = "r";
  node_run_id = "n";
  node_id = "approve";
  status = ApprovalTaskStatus.pending;
  prompt = "";
  decision = none;
  comment = "";
  decided_by_user_id = none;
  decided_at = none;
  created_at = 0;
}

designs_in_a : require_group_role tables ada "a" design_roles ≡ answer tt
unfolding require_group_role
designs_in_a = refl

not_in_b : require_group_role tables ada "b" design_roles ≡ http_error 403
unfolding require_group_role
not_in_b = refl

may_approve : require_approve_task tables ada task ≡ answer tt
unfolding require_approve_task roles_for
may_approve = refl

require_group_role_iff_example :
    ((require_group_role tables ada "a" design_roles ≡ answer tt) ↔ (
      (false ≡ true)
      ⊎ ((role : GroupRole) × (has_role role design_roles ≡ true) × Holds tables ada "a" role)))
    × ((require_group_role tables ada "a" design_roles ≡ answer tt)
        ⊎ (require_group_role tables ada "a" design_roles ≡ http_error 403))
require_group_role_iff_example = require_group_role_iff tables ada "a" design_roles

require_approve_task_iff_example : (require_approve_task tables ada task ≡ answer tt) ↔ (
    (false ≡ true)
    ⊎ Holds tables ada "b" group_admin
    ⊎ Holds tables ada "b" approver
      × ((task.approval_group_id ≡ none)
          ⊎ ((g : String) × (task.approval_group_id ≡ some g) × Listed tables ada g)))
require_approve_task_iff_example = require_approve_task_iff tables ada task

abbrev leak : Json
leak =
    obj (
      field "Token" (str "t") (field "items" (arr (cons (obj (field "api_key" null end)) nil)) end))

redact-IsClean_example : IsClean (redact leak) × (redact (redact leak) ≡ redact leak)
redact-IsClean_example = redact-IsClean leak
