-- ===== src/Workflow/Active.antt =====
-- Which edges `_active_edge` takes: those out of a node that ran, and out of a condition only the branch
-- that it chose.
use flow_demo.Base.{
  String, true, ◌&&◌, Option, none, some, ◌≡◌, ◌≢◌, refl, sym, ap, ◌⊎◌, inl, inr, ◌==◌, eq_iff,
  eq_refl, Bool-cases,
}
use flow_demo.Json.{Json, Fields, null, bool, num, str, arr, obj, end, field, get}
use flow_demo.Enums.{NodeRunStatus}
use flow_demo.Content.{FlowEdge, FlowContent}
use flow_demo.Workflow.Engine.{
  terminal_success, is_success, is_handle, is_filled, branch_of, active_edge, is_active_edge,
  type_at, Sched,
}

-- `branch` is the handle: the same text, or both are missing
abbrev pub IsHandle : Option Json → Option String → Type 0
IsHandle v h =
    ((b : String) × (v ≡ some (str b)) × (h ≡ some b))
    ⊎ (((v ≡ none) ⊎ (v ≡ some null)) × (h ≡ none))

-- a condition's output is not empty, and its branch is the handle
abbrev pub IsChosen : Option Fields → Option String → Type 0
IsChosen o h = (d : Fields) × (o ≡ some d) × (d ≢ end) × IsHandle (get "branch" d) h

-- the edge's source is SUCCESS and, if it is a condition, chose the edge
abbrev pub IsActive : FlowContent → Sched → FlowEdge → Type 0
IsActive c s e =
    (s.statuses e.source ≡ NodeRunStatus.success)
    × ((type_at c e.source ≢ "condition") ⊎ IsChosen (s.outputs e.source) e.source_handle)

abbrev pub IsDone : NodeRunStatus → Type 0
IsDone x = (x ≡ NodeRunStatus.success) ⊎ (x ≡ NodeRunStatus.skipped)

pub terminal_success-IsDone : (x : NodeRunStatus) → terminal_success x ≡ true → IsDone x
terminal_success-IsDone NodeRunStatus.success h = inl refl
terminal_success-IsDone NodeRunStatus.skipped h = inr refl
terminal_success-IsDone NodeRunStatus.pending h = cc
terminal_success-IsDone NodeRunStatus.ready h = cc
terminal_success-IsDone NodeRunStatus.waiting h = cc
terminal_success-IsDone NodeRunStatus.waiting_callback h = cc
terminal_success-IsDone NodeRunStatus.retry_wait h = cc
terminal_success-IsDone NodeRunStatus.poll_wait h = cc
terminal_success-IsDone NodeRunStatus.running h = cc
terminal_success-IsDone NodeRunStatus.failed h = cc
terminal_success-IsDone NodeRunStatus.cancelled h = cc

is_success-success : (x : NodeRunStatus) → is_success x ≡ true → x ≡ NodeRunStatus.success
is_success-success NodeRunStatus.pending h = cc
is_success-success NodeRunStatus.ready h = cc
is_success-success NodeRunStatus.running h = cc
is_success-success NodeRunStatus.waiting h = cc
is_success-success NodeRunStatus.waiting_callback h = cc
is_success-success NodeRunStatus.retry_wait h = cc
is_success-success NodeRunStatus.poll_wait h = cc
is_success-success NodeRunStatus.success h = refl
is_success-success NodeRunStatus.failed h = cc
is_success-success NodeRunStatus.skipped h = cc
is_success-success NodeRunStatus.cancelled h = cc

is_handle-IsHandle : (v : Option Json) (h : Option String) → is_handle v h ≡ true → IsHandle v h
is_handle-IsHandle (some (str a)) (some b) e = inl (a, refl, ap some (sym ((eq_iff a b).0 e)))
is_handle-IsHandle none none e = inr (inl refl, refl)
is_handle-IsHandle (some null) none e = inr (inr refl, refl)
is_handle-IsHandle none (some b) e = cc
is_handle-IsHandle (some null) (some b) e = cc
is_handle-IsHandle (some (bool x)) (some b) e = cc
is_handle-IsHandle (some (num x)) (some b) e = cc
is_handle-IsHandle (some (arr x)) (some b) e = cc
is_handle-IsHandle (some (obj x)) (some b) e = cc
is_handle-IsHandle (some (bool x)) none e = cc
is_handle-IsHandle (some (num x)) none e = cc
is_handle-IsHandle (some (str x)) none e = cc
is_handle-IsHandle (some (arr x)) none e = cc
is_handle-IsHandle (some (obj x)) none e = cc

IsHandle-is_handle : (v : Option Json) (h : Option String) → IsHandle v h → is_handle v h ≡ true
IsHandle-is_handle v h (inl (b, here, same)) = rw (here, same) (eq_refl b)
IsHandle-is_handle v h (inr (inl gone, free)) = rw (gone, free) refl
IsHandle-is_handle v h (inr (inr gone, free)) = rw (gone, free) refl

filled-IsChosen :
    (o : Option Fields) (h : Option String)
    → (is_filled o && is_handle (branch_of o) h) ≡ true
    → IsChosen o h
filled-IsChosen none h e = cc
filled-IsChosen (some end) h e = cc
filled-IsChosen (some (field k v d)) h e =
    (field k v d, refl, λ p. cc p, is_handle-IsHandle (get "branch" (field k v d)) h e)

IsChosen-filled :
    (d : Fields) (h : Option String)
    → d ≢ end
    → IsHandle (get "branch" d) h
    → (is_filled (some d) && is_handle (branch_of (some d)) h) ≡ true
IsChosen-filled end h full fits = absurd (full refl)
IsChosen-filled (field k v d) h full fits = IsHandle-is_handle (get "branch" (field k v d)) h fits

module _ (c : FlowContent) (s : Sched) (e : FlowEdge) where
  pub is_active_edge-IsActive : is_active_edge c s e ≡ true → IsActive c s e
  unfolding active_edge
  is_active_edge-IsActive h = elim (Bool-cases (is_success (s.statuses e.source))) [
    | inr cold ↦ absurd (cc (rw cold at h))
    | inl ran ↦ (
      is_success-success (s.statuses e.source) ran,
      elim (Bool-cases (type_at c e.source == "condition")) [
        | inr plain ↦ inl (λ p. cc (plain, (eq_iff (type_at c e.source) "condition").1 p))
        | inl choice ↦
            inr (filled-IsChosen (s.outputs e.source) e.source_handle (rw (ran, choice) at h))
      ],
    )
  ]

  pub IsActive-is_active_edge : IsActive c s e → is_active_edge c s e ≡ true
  unfolding active_edge
  IsActive-is_active_edge (ran, inl plain) = elim (Bool-cases (type_at c e.source == "condition")) [
    | inl choice ↦ absurd (plain ((eq_iff (type_at c e.source) "condition").0 choice))
    | inr other ↦ rw (ran, other) refl
  ]
  IsActive-is_active_edge (ran, inr (d, there, full, fits)) =
      elim (Bool-cases (type_at c e.source == "condition")) [
        | inr other ↦ rw (ran, other) refl
        | inl choice ↦ rw (ran, choice, there) (IsChosen-filled d e.source_handle full fits)
      ]
