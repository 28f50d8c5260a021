-- ===== src/Permissions.antt =====
-- app/security/permissions.py: which roles allow which action of a group.
pub mod Laws
pub mod Approval
use flow_demo.Base.{
  String, Bool, true, false, not, ◌&&◌, Option, none, some, List, [], ◌∷◌, map, filter, find?, any,
  is_some, ◌==◌, if◌then◌else◌,
}
use flow_demo.Enums.{
  GroupRole, group_admin, flow_designer, flow_executor, approver, viewer, role_eq,
}
use flow_demo.Models.Identity.{User, GroupMember, ApprovalGroupMember, ApprovalTask}
use flow_demo.Http.{Response, answer, http_error, require, ◌>>=◌, ◌>>◌}

-- the tables that the checks read
pub record Access : Type 0 where
  pub members : List GroupMember
  pub approvers : List ApprovalGroupMember

abbrev pub design_roles : List GroupRole
design_roles = group_admin ∷ flow_designer ∷ []

abbrev pub execute_roles : List GroupRole
execute_roles = group_admin ∷ flow_executor ∷ flow_designer ∷ []

abbrev pub view_roles : List GroupRole
view_roles = group_admin ∷ flow_designer ∷ flow_executor ∷ approver ∷ viewer ∷ []

abbrev pub admin_roles : List GroupRole
admin_roles = group_admin ∷ []

abbrev pub has_role : GroupRole → List GroupRole → Bool
has_role r roles = any (role_eq r) roles

abbrev all_roles : List GroupRole
all_roles = group_admin ∷ flow_designer ∷ flow_executor ∷ approver ∷ viewer ∷ []

unfoldable pub roles_for : Access → User → String → List GroupRole
roles_for db user group =
    if user.is_super_admin
    then all_roles
    else map (λ m. m.role) (filter (λ m. m.user_id == user.id && m.group_id == group) db.members)

unfoldable pub require_group_role : Access → User → String → List GroupRole → Response (Unit {0})
unfolding roles_for
require_group_role db user group allowed =
    if user.is_super_admin
    then answer tt
    else require (any (λ r. has_role r allowed) (roles_for db user group)) 403

unfoldable pub require_view : Access → User → String → Response (Unit {0})
unfolding require_group_role
require_view db user group = require_group_role db user group view_roles

unfoldable pub require_design : Access → User → String → Response (Unit {0})
unfolding require_group_role
require_design db user group = require_group_role db user group design_roles

unfoldable pub require_execute : Access → User → String → Response (Unit {0})
unfolding require_group_role
require_execute db user group = require_group_role db user group execute_roles

unfoldable pub require_group_admin : Access → User → String → Response (Unit {0})
unfolding require_group_role
require_group_admin db user group = require_group_role db user group admin_roles

abbrev pub is_approver : Access → User → String → Bool
is_approver db user group =
    is_some (find? (λ m. m.approval_group_id == group && m.user_id == user.id) db.approvers)

abbrev pub require_member : Access → User → Option String → Response (Unit {0})
require_member db user none = answer tt
require_member db user (some group) = require (is_approver db user group) 403

unfoldable pub require_approve_task : Access → User → ApprovalTask → Response (Unit {0})
require_approve_task db user task =
    if user.is_super_admin
    then answer tt
    else let current = roles_for db user task.group_id in
      if has_role group_admin current
      then answer tt
      else if not (has_role approver current)
      then http_error 403
      else require_member db user task.approval_group_id
