-- ===== src/Workflow/Traced.antt =====
-- The steps of a run: which nodes are executed and skipped, in which states, one after another.
use flow_demo.Base.{
  ℕ, zero, suc, ◌+◌, String, Bool, true, false, Option, none, some, List, [], ◌∷◌, ◌≡◌, ◌≢◌, refl,
  sym, ap, ◌∙◌, subst, ◌⊎◌, inl, inr, ◌==◌, eq_iff, arith, Bool-cases, In, In-filter, In-of_filter,
  all-In,
}
use flow_demo.Json.{Json, Fields}
use flow_demo.Enums.{NodeRunStatus, RunStatus}
use flow_demo.Content.{FlowNode, FlowEdge, FlowContent, keys, node_at, id-node_at}
use flow_demo.Workflow.Activities.{Payload, Mark, Activities}
use flow_demo.Workflow.Engine.{
  terminal_success, is_pending, incoming, collect_inputs, Sched, set_at, start, upstream_done,
  is_active_edge, active_edges, is_empty, executable,
}
use flow_demo.Workflow.Active.{
  IsDone, IsActive, terminal_success-IsDone, is_active_edge-IsActive, IsActive-is_active_edge,
}
use flow_demo.Workflow.Sorted.{sorted, In-sorted}
use flow_demo.Workflow.Run.{
  Attempted, finished, raised, out_of_fuel, Visit, passed_over, progressed, node_raised,
  visit_out_of_fuel, pass_ended, succeeded, execute_node, poll, finish_visit, run_at, visit, pass,
  all_done, rounds, edges_known, run,
}
use flow_demo.Workflow.Correct.{Round-Round, goes_on, completes, stalls, fails, starves}

-- the nodes before `j` are done: SUCCESS or SKIPPED
abbrev pub IsReady : FlowContent → Sched → String → Type 0
IsReady c s j = (e : FlowEdge) → In e c.edges → e.target ≡ j → IsDone (s.statuses e.source)

-- no edge leads into `j`, or an active one does
abbrev pub IsFed : FlowContent → Sched → String → Type 0
IsFed c s j =
    ((e : FlowEdge) → In e c.edges → e.target ≢ j)
    ⊎ ((e : FlowEdge) × In e c.edges × (e.target ≡ j) × IsActive c s e)

-- edges lead into `j`, and none of them is active
abbrev pub IsCut : FlowContent → Sched → String → Type 0
IsCut c s j =
    ((e : FlowEdge) × In e c.edges × (e.target ≡ j))
    × ((e : FlowEdge) → In e c.edges → e.target ≡ j → ¬ IsActive c s e)

is_empty-In : {A : Type 0} (a : A) (xs : List A) → is_empty xs ≡ true → In a xs → ⊥
is_empty-In a [] h m = absurd m
is_empty-In a (x ∷ xs) h m = cc

is_empty-some : {A : Type 0} (xs : List A) → is_empty xs ≡ false → (a : A) × In a xs
is_empty-some [] h = cc
is_empty-some (x ∷ xs) h = (x, inl refl)

module _ (c : FlowContent) (s : Sched) (j : String) where
  incoming-In : (e : FlowEdge) → In e c.edges → e.target ≡ j → In e (incoming c j)
  unfolding incoming
  incoming-In e m into = In-filter (λ d. d.target == j) e c.edges m ((eq_iff e.target j).1 into)

  In-incoming : (e : FlowEdge) → In e (incoming c j) → In e c.edges × (e.target ≡ j)
  unfolding incoming
  In-incoming e m =
      let (i, h) = In-of_filter (λ d. d.target == j) e c.edges m in (i, (eq_iff e.target j).0 h)

  upstream_done-IsReady : upstream_done c s j ≡ true → IsReady c s j
  upstream_done-IsReady h e m into = terminal_success-IsDone (s.statuses e.source) (
      all-In (λ (d : FlowEdge). terminal_success (s.statuses d.source)) e (incoming c j) h
        (incoming-In e m into))

  executable-IsFed : executable c s j ≡ true → IsFed c s j
  executable-IsFed h = elim (Bool-cases (is_empty (incoming c j))) [
    | inl none_in ↦ inl (λ e m into. is_empty-In e (incoming c j) none_in (incoming-In e m into))
    | inr some_in ↦
        let (e, m) = is_empty-some (active_edges c s j) (ground (arith, h, some_in)) in
        let (i, active) = In-of_filter (is_active_edge c s) e (incoming c j) m in
        let (edge, into) = In-incoming e i in
        inr (e, edge, into, is_active_edge-IsActive c s e active)
  ]

  executable-IsCut : executable c s j ≡ false → IsCut c s j
  executable-IsCut h =
      let (e, m) = is_empty-some (incoming c j) (ground (arith, h)) in
      let (edge, into) = In-incoming e m in
      (
        (e, edge, into),
        λ d i at hot. is_empty-In d (active_edges c s j) (ground (arith, h)) (
            In-filter (is_active_edge c s) d (incoming c j) (incoming-In d i at)
              (IsActive-is_active_edge c s d hot)),
      )

module _ {W : Type 0} (act : Activities W) (fuel : ℕ) (run_id : String) (c : FlowContent)
    (run_input : Fields) where
  -- the arguments with which a node is executed first
  abbrev pub payload_of : FlowNode → Sched → Payload
  payload_of n s = record {
    run_id = run_id;
    node_id = n.id;
    node_data = n.content;
    inputs = collect_inputs c (active_edges c s n.id) s.outputs run_input;
    attempt = s.attempts n.id + 1;
  }

  -- one step: a node that is pending, and whose upstream nodes are done, is executed, with its polls, and
  -- succeeds, or is skipped
  pub data Step (s : Sched) (w : W) (t : Sched) (w' : W) : Type 0 where
    runs :
        (j : String) (n : FlowNode) (output : Fields) (attempts : ℕ)
        → node_at j c.nodes ≡ some n
        → is_pending (s.statuses j) ≡ true
        → IsReady c s j
        → IsFed c s j
        → poll act fuel
            (payload_of n s)
            (execute_node act (payload_of n s) w).0
            (execute_node act (payload_of n s) w).1
          ≡ (finished output, attempts, w')
        → t ≡ record {
          statuses = set_at j NodeRunStatus.success s.statuses;
          outputs = set_at j (some output) s.outputs;
          attempts = set_at j attempts s.attempts;
        }
        → Step s w t w'
    skips :
        (j : String)
        → In j (keys c.nodes)
        → is_pending (s.statuses j) ≡ true
        → IsReady c s j
        → IsCut c s j
        → w' ≡ act.mark_node_skipped run_id j w
        → t ≡ record s { statuses = set_at j NodeRunStatus.skipped s.statuses }
        → Step s w t w'

  pub data Steps (t : Sched) (w' : W) : Sched → W → Type 0 where
    here : Steps t w' t w'
    next : {s u : Sched} {w v : W} → Step s w u v → Steps t w' u v → Steps t w' s w

  Steps-trans :
      {t u : Sched} {v x : W} {s : Sched} {w : W} → Steps t v s w → Steps u x t v → Steps u x s w
  Steps-trans here rest = rest
  Steps-trans (next one more) rest = next one (Steps-trans more rest)

  finish_visit-finished :
      (j : String) (s t : Sched) (w : W) (r : Attempted × ℕ × W)
      → finish_visit act fuel run_id c run_input j s r ≡ progressed t w
      → (output : Fields) × (r ≡ (finished output, r.1, w))
        × (t ≡ record {
          statuses = set_at j NodeRunStatus.success s.statuses;
          outputs = set_at j (some output) s.outputs;
          attempts = set_at j r.1 s.attempts;
        })
  finish_visit-finished j s t w (finished o, n, v) e =
      (let same : v ≡ w = cc in (o, rw same refl, cc))
  finish_visit-finished j s t w (raised x, n, v) e = cc
  finish_visit-finished j s t w (out_of_fuel, n, v) e = cc

  run_at-Step :
      (j : String) (o : Option FlowNode) (s t : Sched) (w w' : W)
      → node_at j c.nodes ≡ o
      → is_pending (s.statuses j) ≡ true
      → IsReady c s j
      → IsFed c s j
      → run_at act fuel run_id c run_input o s w ≡ progressed t w'
      → Step s w t w'
  run_at-Step j none s t w w' at pend ready fed e = cc
  run_at-Step j (some n) s t w w' at pend ready fed e =
      let p = payload_of n s in
      let called = execute_node act p w in
      let (o, polled, te) =
        finish_visit-finished n.id s t w' (poll act fuel p called.0 called.1) e in
      runs j n o (poll act fuel p called.0 called.1).1 at pend ready fed polled
        (rw (← id-node_at j c.nodes n at) te)

  visit-Step :
      (j : String) (s t : Sched) (w w' : W)
      → In j (keys c.nodes)
      → visit act fuel run_id c run_input j s w ≡ progressed t w'
      → Step s w t w'
  unfolding visit
  visit-Step j s t w w' m e = elim (Bool-cases (is_pending (s.statuses j))) [
    | inr gone ↦ absurd (cc (gone, e))
    | inl pend ↦ elim (Bool-cases (upstream_done c s j)) [
      | inr wait ↦ absurd (ground (arith, pend, wait))
      | inl up ↦ elim (Bool-cases (executable c s j)) [
        | inr cold ↦
            let done : progressed
                  (record s { statuses = set_at j NodeRunStatus.skipped s.statuses })
                  (act.mark_node_skipped run_id j w)
                ≡ progressed t w' =
              rw (pend, up, cold) at e in
            skips j m pend (upstream_done-IsReady c s j up) (executable-IsCut c s j cold) (cc done)
              (cc done)
        | inl hot ↦
            run_at-Step j (node_at j c.nodes) s t w w' refl pend (upstream_done-IsReady c s j up)
              (executable-IsFed c s j hot) (rw (pend, up, hot) at e)
      ]
    ]
  ]

  pass-Steps :
      (js : List String) (s t : Sched) (w w' : W) (before after : Bool)
      → ((j : String) → In j js → In j (keys c.nodes))
      → pass act fuel run_id c run_input js s w before ≡ pass_ended t w' after
      → Steps t w' s w
  unfolding pass
  pass-Steps [] s t w w' before after sub e =
      let same : s ≡ t = cc in let end : w ≡ w' = cc in rw (same, end) here
  pass-Steps (j ∷ js) s t w w' before after sub e =
      go (visit act fuel run_id c run_input j s w) refl
        (λ u v flag q. pass-Steps js u t v w' flag after (λ i m. sub i (inr m)) q)
    where
      go :
          (v : Visit W)
          → visit act fuel run_id c run_input j s w ≡ v
          → ((u : Sched) (v : W) (flag : Bool)
              → pass act fuel run_id c run_input js u v flag ≡ pass_ended t w' after
              → Steps t w' u v)
          → Steps t w' s w
      go passed_over q ih = ih s w before (rw (q, pass) at e)
      go (progressed u v) q ih =
          next (visit-Step j s u w v (sub j (inl refl)) q) (ih u v true (rw (q, pass) at e))
      go (node_raised x u v) q ih = absurd (cc (rw (q, pass) at e))
      go visit_out_of_fuel q ih = absurd (cc (rw (q, pass) at e))

  round-Steps :
      (s t : Sched) (w w' : W) (flag : Bool)
      → pass act fuel run_id c run_input (sorted (keys c.nodes)) s w false ≡ pass_ended t w' flag
      → Steps t w' s w
  round-Steps s t w w' flag e =
      pass-Steps (sorted (keys c.nodes)) s t w w' false flag
        (λ j m. (In-sorted j (keys c.nodes)).0 m) e

  abbrev pub finished_mark : Json → Mark
  finished_mark output = record {
    run_id = run_id;
    status = RunStatus.success;
    output = some output;
    error = none;
    event_type = "RUN_SUCCEEDED";
  }

  rounds-Steps :
      (n : ℕ) (s t : Sched) (w w' : W) (output : Json)
      → rounds act fuel run_id c run_input n s w ≡ succeeded output t w'
      → (v : W) × Steps t v s w
        × (w' ≡ act.mark_run (finished_mark output) v)
        × (all_done act fuel run_id c run_input t ≡ true)
  unfolding rounds
  rounds-Steps zero s t w w' output e = absurd (cc e)
  rounds-Steps (suc n) s t w w' output e =
      elim (Round-Round act fuel run_id c run_input n s w _ e) [
        | goes_on u v q d f ↦
            let (x, steps, marked, done) = rounds-Steps n u t v w' output f in
            (x, Steps-trans (round-Steps s u w v true q) steps, marked, done)
        | completes u v v' flag o q d m f ↦
            let same : u ≡ t = cc f in
            let text : o ≡ output = cc f in
            let world : v' ≡ w' = cc f in
            (
              v,
              subst (λ x. Steps x v s w) same (round-Steps s u w v flag q),
              sym world ∙ m ∙ ap (λ x. act.mark_run (finished_mark x) v) text,
              subst (λ x. all_done act fuel run_id c run_input x ≡ true) same d,
            )
        | stalls u v v' q d f ↦ absurd (cc f)
        | fails x u v f ↦ absurd (cc f)
        | starves q ↦ absurd (cc (rw (q, rounds) at e))
      ]

-- A run that succeeds marks the run as started, then goes from the state where every node is
-- pending to one where every node is SUCCESS or SKIPPED by steps alone, and then marks the run's
-- success with its output; nothing else is asked of the activities. In each step a node that is
-- still pending, and whose upstream nodes are all done by then, is executed, on the inputs
-- collected then, with an active edge or no edge into it, and succeeds with its output; or it is
-- skipped, as edges lead into it and none of them is active. An edge is active where its source is
-- SUCCESS and, if it is a condition, its output's branch is the edge's handle.
pub run-IsTraced :
    {W : Type 0} (act : Activities W) (fuel : ℕ) (run_id : String) (c : FlowContent)
    (run_input : Fields) (w w' : W) (output : Json) (s : Sched)
    → run act fuel run_id c run_input w ≡ succeeded output s w'
    → (v : W) × Steps act fuel run_id c run_input s v start (
        act.mark_run
          (record {
            run_id = run_id;
            status = RunStatus.running;
            output = none;
            error = none;
            event_type = "RUN_STARTED";
          })
          w)
      × (w'
          ≡ act.mark_run
              (record {
                run_id = run_id;
                status = RunStatus.success;
                output = some output;
                error = none;
                event_type = "RUN_SUCCEEDED";
              })
              v)
      × ((j : String) → In j (keys c.nodes) → IsDone (s.statuses j))
unfolding run
run-IsTraced act fuel run_id c run_input w w' output s e =
    elim (Bool-cases (edges_known act fuel run_id c run_input)) [
      | inr bad ↦ absurd (cc (rw bad at e))
      | inl good ↦
          let (v, steps, marked, done) =
            rounds-Steps act fuel run_id c run_input _ start s _ w' output (rw good at e) in
          (
            v,
            steps,
            marked,
            λ j m.
                terminal_success-IsDone (s.statuses j) (
                  all-In (λ (k : String). terminal_success (s.statuses k)) j (keys c.nodes) done m),
          )
    ]
