-- ===== src/Runs/Decisions.antt =====
-- Who may resume a node, and what the decision leaves.
use flow_demo.Base.{
  ℕ, String, true, false, Option, none, some, [], ◌∷◌, ◌++◌, ◌≡◌, ◌≢◌, refl, sym, ap, ◌∙◌, subst,
  ◌⊎◌, inl, inr, ◌==◌, eq_iff, Bool-cases,
}
use flow_demo.Json.{Fields, str, obj, field, end}
use flow_demo.Enums.{ApprovalTaskStatus}
use flow_demo.Http.{Response, answer, http_error, ◌>>=◌}
use flow_demo.Models.Identity.{User, ApprovalTask}
use flow_demo.Models.Runs.{FlowRun}
use flow_demo.Permissions.{require_execute, require_approve_task}
use flow_demo.Table.{save}
use flow_demo.Callback.Store.{Store, run_at}
use flow_demo.Runs.Handlers.{
  Desk, Outside, resume_manual, NodeResume, guarded, attached, decided, task_of, resume_fields,
  run_or_404, run_in_group, decide, resume_node,
}

-- the task as it stands after the decision
pub record IsDecided (now : ℕ) (user : User) (p : NodeResume) (t t' : ApprovalTask) : Type 0 where
  pub id : t'.id ≡ t.id
  pub run : t'.flow_run_id ≡ t.flow_run_id
  pub node : t'.node_id ≡ t.node_id
  pub status :
      ((p.decision ≡ "REJECTED") × (t'.status ≡ ApprovalTaskStatus.rejected))
      ⊎ ((p.decision ≢ "REJECTED") × (t'.status ≡ ApprovalTaskStatus.approved))
  pub decision : t'.decision ≡ some p.decision
  pub comment : t'.comment ≡ p.comment
  pub by : t'.decided_by_user_id ≡ some user.id
  pub at : t'.decided_at ≡ some now

decided-IsDecided :
    (now : ℕ) (user : User) (p : NodeResume) (t : ApprovalTask)
    → IsDecided now user p t (decided now user p t)
decided-IsDecided now user p t = record {
  id = refl;
  run = refl;
  node = refl;
  status = elim (Bool-cases (p.decision == "REJECTED")) [
    | inl e ↦ inl ((eq_iff p.decision "REJECTED").0 e, rw e refl)
    | inr ne ↦ inr (
      λ e.
          (let same : (p.decision == "REJECTED") ≡ true = (eq_iff p.decision "REJECTED").1 e in cc),
      rw ne refl,
    )
  ];
  decision = refl;
  comment = refl;
  by = refl;
  at = refl;
}

-- the data of the signal `resume_manual`
abbrev pub message : String → NodeResume → Fields
message node p = field "node_id" (str node) (
    field "decision" (str p.decision)
      (field "comment" (str p.comment) (field "data" (obj p.content) end)))

module _ (out : Outside) (now : ℕ) (user : User) (group : String) (d : Desk) where
  -- what the user needs
  pub Permits : Option ApprovalTask → Response (Unit {0}) → Type 0
  Permits none answered = require_execute d.flows.access user group ≡ answered
  Permits (some t) answered = require_approve_task d.flows.access user t ≡ answered

  -- what becomes of the tables: the node's task holds the decision, or there is none
  pub Decides : NodeResume → Option ApprovalTask → Store → Type 0
  Decides p none tables = tables ≡ d.tables
  Decides p (some t) tables =
      (t' : ApprovalTask) × IsDecided now user p t t'
      × (tables ≡ record d.tables { tasks = save (λ x. x.id) t' d.tables.tasks })

  -- how the signal goes: the run has no workflow, Temporal refuses it, or it is sent, once
  pub data Signalled (p : NodeResume) (node : String) (r : FlowRun)
      (reply : Response FlowRun × Desk) : Type 0 where
    detached :
        (r.temporal_workflow_id ≡ none) ⊎ (r.temporal_workflow_id ≡ some "")
        → reply.0 ≡ http_error 409
        → reply.1.requests ≡ d.requests
        → Signalled p node r reply
    unreached :
        (id : String)
        → r.temporal_workflow_id ≡ some id
        → out.accepts (resume_manual id (message node p)) ≡ false
        → reply.0 ≡ http_error 500
        → reply.1.requests ≡ d.requests
        → Signalled p node r reply
    sent :
        (id : String)
        → r.temporal_workflow_id ≡ some id
        → id ≢ ""
        → out.accepts (resume_manual id (message node p)) ≡ true
        → reply.0 ≡ answer r
        → reply.1.requests ≡ d.requests ++ (resume_manual id (message node p) ∷ [])
        → Signalled p node r reply

  -- what a request to resume a node does
  pub data IsResume (run_id node : String) (p : NodeResume) (reply : Response FlowRun × Desk)
      : Type 0 where
    no_run :
        ((r : FlowRun) → run_at d.tables run_id ≡ some r → r.group_id ≢ group)
        → reply ≡ (http_error 404, d)
        → IsResume run_id node p reply
    forbidden :
        (r : FlowRun) (e : ℕ)
        → run_at d.tables run_id ≡ some r
        → r.group_id ≡ group
        → Permits (task_of d.tables r.id node) (http_error e)
        → reply ≡ (http_error e, d)
        → IsResume run_id node p reply
    decides :
        (r : FlowRun)
        → run_at d.tables run_id ≡ some r
        → r.group_id ≡ group
        → Permits (task_of d.tables r.id node) (answer tt)
        → Decides p (task_of d.tables r.id node) reply.1.tables
        → reply.1.flows ≡ d.flows
        → Signalled p node r reply
        → IsResume run_id node p reply

  -- the signal after the decision
  abbrev signalled : NodeResume → String → FlowRun → Desk → Response FlowRun × Desk
  signalled p node r e =
      attached out r.temporal_workflow_id (λ id. resume_manual id (resume_fields node p)) r
        (http_error 409) e

  attached-Signalled :
      (p : NodeResume) (node : String) (o : Option String) (r : FlowRun) (e : Desk)
      → r.temporal_workflow_id ≡ o
      → e.requests ≡ d.requests
      → (let reply =
            attached out o (λ id. resume_manual id (resume_fields node p)) r (http_error 409) e in
          Signalled p node r reply × (reply.1.tables ≡ e.tables) × (reply.1.flows ≡ e.flows))
  attached-Signalled p node none r e own same = (detached (inl own) refl same, refl, refl)
  attached-Signalled p node (some id) r e own same = elim (Bool-cases (id == "")) [
    | inl empty ↦
        rw empty (detached (inr (own ∙ ap some ((eq_iff id "").0 empty))) refl same, refl, refl)
    | inr full ↦ elim (Bool-cases (out.accepts (resume_manual id (resume_fields node p)))) [
      | inl taken ↦
          rw (full, taken)
            (
              sent id own (λ e. (let bad : (id == "") ≡ true = (eq_iff id "").1 e in cc)) taken refl
                  (ap (λ x. x ++ (resume_manual id (resume_fields node p) ∷ [])) same),
              refl,
              refl,
            )
      | inr refused ↦ rw (full, refused) (unreached id own refused refl same, refl, refl)
    ]
  ]

  module _ (run_id node : String) (p : NodeResume) (r : FlowRun)
      (here : run_at d.tables run_id ≡ some r) (own : r.group_id ≡ group) where
    checked-IsResume :
        (m : Response (Unit {0})) (e : Desk)
        → Permits (task_of d.tables r.id node) m
        → Decides p (task_of d.tables r.id node) e.tables
        → e.requests ≡ d.requests
        → e.flows ≡ d.flows
        → IsResume run_id node p (guarded d (m >>= λ _. answer e) (signalled p node r))
    checked-IsResume (http_error k) e permits tables same flows =
        forbidden r k here own permits refl
    checked-IsResume (answer tt) e permits tables same flows =
        let (signal, kept, still) =
          attached-Signalled p node r.temporal_workflow_id r e refl same in
        decides r here own permits
          (subst (Decides p (task_of d.tables r.id node)) (sym kept) tables) (still ∙ flows) signal

    decide-IsResume :
        (t : Option ApprovalTask)
        → task_of d.tables r.id node ≡ t
        → IsResume run_id node p (guarded d (decide out now user group d p t) (signalled p node r))
    unfolding Permits Decides
    decide-IsResume none e =
        checked-IsResume (require_execute d.flows.access user group) d (rw e refl) (rw e refl) refl
          refl
    decide-IsResume (some t) e =
        checked-IsResume (require_approve_task d.flows.access user t) _ (rw e refl)
          (rw e (decided now user p t, decided-IsDecided now user p t, refl)) refl refl

  run_in_group-cases :
      (o : Option FlowRun)
      → ((run_in_group group o ≡ http_error 404)
          × ((r : FlowRun) → o ≡ some r → r.group_id ≢ group))
        ⊎ ((r : FlowRun) × (run_in_group group o ≡ answer r) × (o ≡ some r) × (r.group_id ≡ group))
  run_in_group-cases none = inl (refl, λ r e. cc)
  run_in_group-cases (some x) = elim (Bool-cases (x.group_id == group)) [
    | inl own ↦ inr (x, rw own refl, refl, (eq_iff x.group_id group).0 own)
    | inr other ↦ inl (
      rw other refl,
      λ r e own.
          (let same : x ≡ r = cc in
            let bad : (x.group_id == group) ≡ true =
              (eq_iff x.group_id group).1 (ap (λ z. z.group_id) same ∙ own) in
            cc),
    )
  ]

  -- A request to resume a node is answered 404 and changes nothing where the group has no such run; it
  -- is refused and changes nothing where the user may not decide the node's task, or may not execute
  -- in the group if there is no task. Otherwise the task, and nothing else in the tables, holds
  -- the decision, the comment, the user and the time, rejected for "REJECTED" and approved for any
  -- other; and the run's workflow is sent the decision once, which is answered with the run, unless it
  -- has none, which is answered 409, or Temporal does not take it, which is answered 500.
  pub resume_node-IsResume :
      (run_id node : String) (p : NodeResume)
      → IsResume run_id node p (resume_node out now user group d run_id node p)
  unfolding resume_node run_or_404
  resume_node-IsResume run_id node p = elim (run_in_group-cases (run_at d.tables run_id)) [
    | inl (missing, none_here) ↦ rw missing (no_run none_here refl)
    | inr (r, found, here, own) ↦
        rw found (decide-IsResume run_id node p r here own (task_of d.tables r.id node) refl)
  ]
