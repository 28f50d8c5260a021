-- ===== src/Permissions/Laws.antt =====
-- Who passes the checks of app/security/permissions.py.
use flow_demo.Base.{
  String, Bool, true, ◌&&◌, List, [], ◌∷◌, map, filter, any, ◌==◌, ◌≡◌, refl, ◌⊎◌, inl, inr, ◌↔◌,
  eq_iff, eq_refl, arith, In, Bool-cases,
}
use flow_demo.Enums.{GroupRole, role_eq}
use flow_demo.Models.Identity.{User, GroupMember}
use flow_demo.Http.{answer, http_error}
use flow_demo.Permissions.{Access, has_role, require_group_role}

-- `user` holds `role` in `group`
pub record Holds (db : Access) (user : User) (group : String) (role : GroupRole) : Type 0 where
  pub row : GroupMember
  pub listed : In row db.members
  pub own : row.user_id ≡ user.id
  pub here : row.group_id ≡ group
  pub as_role : row.role ≡ role

abbrev pub own_roles : User → String → List GroupMember → List GroupRole
own_roles user group ms =
    map (λ m. m.role) (filter (λ m. m.user_id == user.id && m.group_id == group) ms)

pub role_eq_iff : (r s : GroupRole) → (role_eq r s ≡ true) ↔ (r ≡ s)
role_eq_iff r s = ground arith

pub any-own_roles :
    (user : User) (group : String) (ms : List GroupMember) (p : GroupRole → Bool)
    → any p (own_roles user group ms) ≡ true
    → (m : GroupMember) × In m ms × (m.user_id ≡ user.id) × (m.group_id ≡ group) × (p m.role ≡ true)
any-own_roles user group [] p h = cc
any-own_roles user group (m ∷ ms) p h =
    elim (Bool-cases (m.user_id == user.id && m.group_id == group && p m.role)) [
      | inl good ↦ (
        m,
        inl refl,
        ground (arith, eq_iff m.user_id user.id),
        ground (arith, eq_iff m.group_id group),
        ground arith,
      )
      | inr bad ↦
          let (k, i, a, b, r) = any-own_roles user group ms p (ground arith) in (k, inr i, a, b, r)
    ]

pub own_roles-any :
    (user : User) (group : String) (ms : List GroupMember) (p : GroupRole → Bool) (m : GroupMember)
    → In m ms
    → m.user_id ≡ user.id
    → m.group_id ≡ group
    → p m.role ≡ true
    → any p (own_roles user group ms) ≡ true
own_roles-any user group [] p m i a b r = absurd i
own_roles-any user group (k ∷ ms) p m (inl e) a b r =
    let same : (k.user_id == user.id) ≡ true = rw (← e, a) (eq_refl user.id) in
    let here : (k.group_id == group) ≡ true = rw (← e, b) (eq_refl group) in
    let pass : p k.role ≡ true = rw (← e) r in ground arith
own_roles-any user group (k ∷ ms) p m (inr i) a b r =
    ground (arith, own_roles-any user group ms p m i a b r)

-- A group action is allowed exactly to super administrators and to the users who hold one of the
-- allowed roles in that very group; all others get status 403.
pub require_group_role_iff :
    (db : Access) (user : User) (group : String) (allowed : List GroupRole)
    → ((require_group_role db user group allowed ≡ answer tt) ↔ (
        (user.is_super_admin ≡ true)
        ⊎ ((role : GroupRole) × (has_role role allowed ≡ true) × Holds db user group role)))
      × ((require_group_role db user group allowed ≡ answer tt)
          ⊎ (require_group_role db user group allowed ≡ http_error 403))
unfolding require_group_role
require_group_role_iff db user group allowed = elim (Bool-cases user.is_super_admin) [
  | inl super ↦ ((λ h. inl super, λ h. rw super), inl (rw super))
  | inr plain ↦ (
    (
      λ h.
          let (m, i, a, b, r) =
            any-own_roles user group db.members (λ k. has_role k allowed)
              (ground (arith, plain, h)) in
          inr (m.role, r, record { row = m; listed = i; own = a; here = b; as_role = refl }),
      λ h. elim h [
        | inl super ↦ rw super
        | inr (role, ok, held) ↦
            let pass =
              own_roles-any user group db.members (λ k. has_role k allowed) held.row held.listed
                held.own held.here (rw held.as_role ok) in
            ground (arith, plain, pass)
      ],
    ),
    ground arith,
  )
]
