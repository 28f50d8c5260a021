-- ===== src/Permissions/Approval.antt =====
-- The order of the permissions, and who may decide an approval task.
use flow_demo.Base.{
  String, Bool, true, false, not, ◌&&◌, Option, none, some, List, [], ◌∷◌, find?, find?-some,
  is_some, ◌==◌, if◌then◌else◌, ◌≡◌, refl, sym, ◌⊎◌, inl, inr, ◌↔◌, eq_iff, eq_refl, arith, In,
  Bool-cases, Option-cases, subst,
}
use mathlib.Core.Option.{some-injective}
use flow_demo.Enums.{GroupRole, group_admin, approver, role_eq}
use flow_demo.Models.Identity.{User, ApprovalGroupMember, ApprovalTask}
use flow_demo.Http.{Response, answer, http_error}
use flow_demo.Permissions.{
  Access, design_roles, execute_roles, view_roles, admin_roles, has_role, roles_for,
  require_group_role, require_view, require_design, require_execute, require_group_admin,
  is_approver, require_member, require_approve_task,
}
use flow_demo.Permissions.Laws.{
  Holds, any-own_roles, own_roles-any, role_eq_iff, require_group_role_iff,
}

-- a wider list of roles lets more users pass
require_mono :
    (db : Access) (user : User) (group : String) (narrow wide : List GroupRole)
    → ((r : GroupRole) → has_role r narrow ≡ true → has_role r wide ≡ true)
    → require_group_role db user group narrow ≡ answer tt
    → require_group_role db user group wide ≡ answer tt
require_mono db user group narrow wide sub h =
    (require_group_role_iff db user group wide).0.1
      (elim ((require_group_role_iff db user group narrow).0.0 h) [
        | inl super ↦ inl super
        | inr (role, ok, held) ↦ inr (role, sub role ok, held)
      ])

-- Whoever may administer a group may design in it, whoever may design may execute, and whoever may
-- execute may view.
pub permission_order :
    (db : Access) (user : User) (group : String)
    → (require_group_admin db user group ≡ answer tt → require_design db user group ≡ answer tt)
      × (require_design db user group ≡ answer tt → require_execute db user group ≡ answer tt)
      × (require_execute db user group ≡ answer tt → require_view db user group ≡ answer tt)
unfolding require_group_admin require_design require_execute require_view
permission_order db user group = (
  require_mono db user group admin_roles design_roles (λ r h. ground arith),
  require_mono db user group design_roles execute_roles (λ r h. ground arith),
  require_mono db user group execute_roles view_roles (λ r h. ground arith),
)

-- `user` is listed in the approval group
pub record Listed (db : Access) (user : User) (group : String) : Type 0 where
  pub row : ApprovalGroupMember
  pub stored : In row db.approvers
  pub as_group : row.approval_group_id ≡ group
  pub as_user : row.user_id ≡ user.id

search-finds :
    (p : ApprovalGroupMember → Bool) (m : ApprovalGroupMember) (ms : List ApprovalGroupMember)
    → In m ms
    → p m ≡ true
    → is_some (find? p ms) ≡ true
search-finds p m [] i h = absurd i
search-finds p m (k ∷ ms) (inl e) h = let here : p k ≡ true = rw (← e) h in rw here
search-finds p m (k ∷ ms) (inr i) h = ground (arith, search-finds p m ms i h)

is_approver_iff :
    (db : Access) (user : User) (group : String)
    → (is_approver db user group ≡ true) ↔ Listed db user group
is_approver_iff db user group = (
  λ h.
      elim (Option-cases
        (find? (λ m. m.approval_group_id == group && m.user_id == user.id) db.approvers)) [
          | inl missing ↦ absurd (cc (rw missing at h))
          | inr (m, found) ↦
              let (stored, ok) = find?-some _ m db.approvers found in
              record {
                row = m;
                stored = stored;
                as_group = ground (arith, ok, eq_iff m.approval_group_id group);
                as_user = ground (arith, ok, eq_iff m.user_id user.id);
              }
        ],
  λ l.
      search-finds _ l.row db.approvers l.stored
        (ground (arith, l.as_group, l.as_user, eq_refl group, eq_refl user.id)),
)

role_held_iff :
    (db : Access) (user : User) (group : String) (role : GroupRole)
    → user.is_super_admin ≡ false
    → (has_role role (roles_for db user group) ≡ true) ↔ Holds db user group role
unfolding roles_for
role_held_iff db user group role plain = rw plain (
  λ h.
      let (m, i, a, b, r) = any-own_roles user group db.members (role_eq role) h in
      record {
        row = m;
        listed = i;
        own = a;
        here = b;
        as_role = sym ((role_eq_iff role m.role).0 r);
      },
  λ held.
      own_roles-any user group db.members (role_eq role) held.row held.listed held.own held.here
        ((role_eq_iff role held.row.role).1 (sym held.as_role)),
)

require_member_iff :
    (db : Access) (user : User) (o : Option String)
    → (require_member db user o ≡ answer tt)
      ↔ ((o ≡ none) ⊎ ((g : String) × (o ≡ some g) × Listed db user g))
require_member_iff db user none = (λ h. inl refl, λ h. refl)
require_member_iff db user (some g) = (
  λ h. inr (g, refl, (is_approver_iff db user g).0 (ground arith)),
  λ h. elim h [
    | inl e ↦ cc
    | inr (k, e, l) ↦
        let pass =
          (is_approver_iff db user g).1 (subst (Listed db user) (some-injective k g (sym e)) l) in
        rw pass
  ],
)

-- the ladder of the two roles
ladder_iff :
    (admin reviewer : Bool) (m : Response (Unit {0}))
    → ((if admin then answer tt else if not reviewer then http_error 403 else m) ≡ answer tt)
      ↔ ((admin ≡ true) ⊎ (reviewer ≡ true) × (m ≡ answer tt))
ladder_iff true reviewer m = (λ h. inl refl, λ h. refl)
ladder_iff false true m = (λ h. inr (refl, h), λ h. elim h [ inl e ↦ cc | inr (e, k) ↦ k ])
ladder_iff false false m = (λ h. cc, λ h. elim h [ inl e ↦ cc | inr (e, k) ↦ cc ])

-- An approval task may be decided exactly by super administrators, by administrators of the task's
-- group, and by its approvers; if the task names an approval group, only by approvers listed there.
pub require_approve_task_iff :
    (db : Access) (user : User) (task : ApprovalTask)
    → (require_approve_task db user task ≡ answer tt) ↔ (
        (user.is_super_admin ≡ true)
        ⊎ Holds db user task.group_id group_admin
        ⊎ Holds db user task.group_id approver
          × ((task.approval_group_id ≡ none)
              ⊎ ((g : String) × (task.approval_group_id ≡ some g) × Listed db user g)))
unfolding require_approve_task
require_approve_task_iff db user task = elim (Bool-cases user.is_super_admin) [
  | inl super ↦ (λ h. inl super, λ h. rw super)
  | inr plain ↦
      let (admin, to_admin) = role_held_iff db user task.group_id group_admin plain in
      let (review, to_review) = role_held_iff db user task.group_id approver plain in
      let (member, to_member) = require_member_iff db user task.approval_group_id in
      let (down, up) =
        ladder_iff (has_role group_admin (roles_for db user task.group_id))
          (has_role approver (roles_for db user task.group_id))
          (require_member db user task.approval_group_id) in
      (
        λ h. elim (down (simp plain at h)) [
          | inl a ↦ inr (inl (admin a))
          | inr (r, m) ↦ inr (inr (review r, member m))
        ],
        λ h. elim h [
          | inl super ↦ rw super
          | inr (inl a) ↦ simp plain (up (inl (to_admin a)))
          | inr (inr (r, m)) ↦ simp plain (up (inr (to_review r, to_member m)))
        ],
      )
]
