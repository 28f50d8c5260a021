-- ===== src/Workflow/Correct.antt =====
-- The correctness of a run: what a successful run has done with every node, that a run of an acyclic
-- graph makes progress until it is over, and that the rounds and polls given to it are enough.
use flow_demo.Base.{
  ℕ, zero, suc, ◌<◌, String, Bool, true, false, not, ◌&&◌, ◌≡◌, ◌≢◌, refl, sym, ap, subst, inl, inr,
  ◌==◌, eq_iff, if◌then◌else◌, all, arith, Bool-cases, In, All-In, all-of_In, all-In, In-of_filter,
  contains, In-of_contains,
}
use flow_demo.Json.{Json, Fields}
use flow_demo.Content.{FlowEdge, FlowContent, keys}
use flow_demo.Workflow.Activities.{Activities}
use flow_demo.Workflow.Engine.{terminal_success, is_pending, Sched, upstream_done, incoming}
use flow_demo.Workflow.Sorted.{sorted, In-sorted}
use flow_demo.Workflow.Run.{
  Pass, pass_ended, pass_raised, pass_out_of_fuel, Outcome, succeeded, node_failed, no_progress,
  key_error, run_out_of_fuel, pass, all_done, after_pass, rounds, mark_failure, mark_success,
}
use flow_demo.Workflow.Fuel.{PollsBelow, pass-ends}
use flow_demo.Workflow.Settled.{IsSettled}
use flow_demo.Workflow.Passes.{pending_count, IsBlocked, PassInv, pass-PassInv}

-- a rank of the nodes that grows along every edge: the graph has no cycle
pub record IsRanked (c : FlowContent) (rank : String → ℕ) : Type 0 where
  pub grows : (e : FlowEdge) → In e c.edges → rank e.source < rank e.target

-- the sources of the edges are nodes
abbrev pub HasSources : FlowContent → Type 0
HasSources c = (e : FlowEdge) → In e c.edges → In e.source (keys c.nodes)

-- If every node that is pending waits for an upstream node, then none is pending.
module _ (c : FlowContent) (s : Sched) (rank : String → ℕ) (ranked : IsRanked c rank)
    (sources : HasSources c) (settled : (k : String) → IsSettled c s k)
    (blocked : (j : String) → In j (keys c.nodes) → IsBlocked c s j) where
  terminal_of_not_pending :
      (j : String) → is_pending (s.statuses j) ≡ false → terminal_success (s.statuses j) ≡ true
  terminal_of_not_pending j h = elim (settled j).known [ inl p ↦ absurd (cc (p, h)) | inr q ↦ q ]

  -- by induction on a bound for the rank
  all_terminal :
      (n : ℕ) (j : String)
      → rank j < n
      → In j (keys c.nodes)
      → terminal_success (s.statuses j) ≡ true
  unfolding incoming
  all_terminal zero j h m = absurd (omega arith)
  all_terminal (suc n) j h m = elim (blocked j m) [
    | inl over ↦ terminal_of_not_pending j over
    | inr waits ↦
        let done : upstream_done c s j ≡ true =
          all-of_In (λ (e : FlowEdge). terminal_success (s.statuses e.source)) (incoming c j)
            (λ e i.
              let (edge, into) = In-of_filter (λ (d : FlowEdge). d.target == j) e c.edges i in
              all_terminal n e.source
                (omega (arith, ranked.grows e edge, ap rank ((eq_iff e.target j).0 into)))
                (sources e edge)) in
        absurd (cc (waits, done))
  ]

  idle-all_done : all (λ j. terminal_success (s.statuses j)) (keys c.nodes) ≡ true
  idle-all_done = all-of_In _ (keys c.nodes) (λ j m. all_terminal (suc (rank j)) j (omega arith) m)

pub edges_known-HasSources :
    (c : FlowContent)
    → all (λ e. contains (keys c.nodes) e.target && contains (keys c.nodes) e.source) c.edges ≡ true
    → HasSources c
edges_known-HasSources c h e m =
    let both = all-In _ e c.edges h m in
    In-of_contains (keys c.nodes) e.source (ground (arith, both))

module _ {W : Type 0} (act : Activities W) (fuel : ℕ) (run_id : String) (c : FlowContent)
    (run_input : Fields) where
  abbrev pub AllSettled : Sched → Type 0
  AllSettled s = (k : String) → IsSettled c s k

  sorted_known : (j : String) → In j (sorted (keys c.nodes)) → In j (keys c.nodes)
  sorted_known j m = (In-sorted j (keys c.nodes)).0 m

  -- one round of `while True` with the result `r`
  pub data Round (n : ℕ) (s : Sched) (w : W) (r : Outcome W) : Type 0 where
    goes_on :
        (u : Sched) (v : W)
        → pass act fuel run_id c run_input (sorted (keys c.nodes)) s w false ≡ pass_ended u v true
        → all_done act fuel run_id c run_input u ≡ false
        → rounds act fuel run_id c run_input n u v ≡ r
        → Round n s w r
    completes :
        (u : Sched) (v v' : W) (flag : Bool) (output : Json)
        → pass act fuel run_id c run_input (sorted (keys c.nodes)) s w false ≡ pass_ended u v flag
        → all_done act fuel run_id c run_input u ≡ true
        → v' ≡ act.mark_run (mark_success act fuel run_id c run_input output) v
        → r ≡ succeeded output u v'
        → Round n s w r
    stalls :
        (u : Sched) (v v' : W)
        → pass act fuel run_id c run_input (sorted (keys c.nodes)) s w false ≡ pass_ended u v false
        → all_done act fuel run_id c run_input u ≡ false
        → r ≡ no_progress u v'
        → Round n s w r
    fails : (x : String) (u : Sched) (v : W) → r ≡ node_failed x u v → Round n s w r
    starves :
        pass act fuel run_id c run_input (sorted (keys c.nodes)) s w false ≡ pass_out_of_fuel
        → Round n s w r

  module _ (n : ℕ) (s : Sched) (w : W) (r : Outcome W) where
    after-Round :
        (u : Sched) (v : W) (flag : Bool)
        → pass act fuel run_id c run_input (sorted (keys c.nodes)) s w false ≡ pass_ended u v flag
        → after_pass act fuel run_id c run_input u v flag (rounds act fuel run_id c run_input n) ≡ r
        → Round n s w r
    unfolding after_pass
    after-Round u v flag q e = elim (Bool-cases (all_done act fuel run_id c run_input u)) [
      | inl d ↦ completes u v _ flag _ q d refl (sym (rw d at e))
      | inr d ↦ go flag q d (rw d at e)
    ]
      where
        go :
            (flag : Bool)
            → pass act fuel run_id c run_input (sorted (keys c.nodes)) s w false
              ≡ pass_ended u v flag
            → all_done act fuel run_id c run_input u ≡ false
            → (if not flag
                then no_progress u (act.mark_run (mark_failure act fuel run_id c run_input) v)
                else rounds act fuel run_id c run_input n u v)
              ≡ r
            → Round n s w r
        go true q d e = goes_on u v q d e
        go false q d e = stalls u v _ q d (sym e)

    pub Round-Round : rounds act fuel run_id c run_input (suc n) s w ≡ r → Round n s w r
    unfolding rounds
    Round-Round e = go (pass act fuel run_id c run_input (sorted (keys c.nodes)) s w false) refl
      where
        go :
            (p : Pass W)
            → pass act fuel run_id c run_input (sorted (keys c.nodes)) s w false ≡ p
            → Round n s w r
        go (pass_ended u v flag) q = after-Round u v flag q (rw (q, rounds) at e)
        go (pass_raised x u v) q = fails x u v (sym (rw (q, rounds) at e))
        go pass_out_of_fuel q = starves q

  -- what one pass from a settled state keeps
  pass_inv :
      (s t : Sched) (w w' : W) (flag : Bool)
      → AllSettled s
      → pass act fuel run_id c run_input (sorted (keys c.nodes)) s w false ≡ pass_ended t w' flag
      → PassInv act fuel run_id c run_input (sorted (keys c.nodes)) s t false flag
  pass_inv s t w w' flag h e =
      pass-PassInv act fuel run_id c run_input (sorted (keys c.nodes)) s t w w' false flag
        (λ j m. (In-sorted j (keys c.nodes)).0 m) h e

  pub rounds-succeeded :
      (n : ℕ) (s t : Sched) (w w' : W) (output : Json)
      → AllSettled s
      → rounds act fuel run_id c run_input n s w ≡ succeeded output t w'
      → AllSettled t × (all_done act fuel run_id c run_input t ≡ true)
  unfolding rounds
  rounds-succeeded zero s t w w' output h e = absurd (cc e)
  rounds-succeeded (suc n) s t w w' output h e = elim (Round-Round n s w _ e) [
    | goes_on u v q d f ↦ rounds-succeeded n u t v w' output (pass_inv s u w v true h q).settled f
    | completes u v v' flag o q d m f ↦
        let same : u ≡ t = cc f in
        (
          λ k. subst (λ x. IsSettled c x k) same ((pass_inv s u w v flag h q).settled k),
          subst (λ x. all_done act fuel run_id c run_input x ≡ true) same d,
        )
    | stalls u v v' q d f ↦ absurd (cc f)
    | fails x u v f ↦ absurd (cc f)
    | starves q ↦ absurd (cc (rw (q, rounds) at e))
  ]

  module _ (rank : String → ℕ) (ranked : IsRanked c rank) (sources : HasSources c) where
    pub rounds-ne-no_progress :
        (n : ℕ) (s t : Sched) (w w' : W)
        → AllSettled s
        → rounds act fuel run_id c run_input n s w ≢ no_progress t w'
    unfolding rounds
    rounds-ne-no_progress zero s t w w' h e = cc e
    rounds-ne-no_progress (suc n) s t w w' h e = elim (Round-Round n s w _ e) [
      | goes_on u v q d f ↦ rounds-ne-no_progress n u t v w' (pass_inv s u w v true h q).settled f
      | completes u v v' flag o q d m f ↦ cc f
      | stalls u v v' q d f ↦
          let inv = pass_inv s u w v false h q in
          let (_, same, blocked) = inv.idle refl in
          let all = idle-all_done c s rank ranked sources h (λ j m.
            All-In (IsBlocked c s) j (sorted (keys c.nodes)) blocked
              ((In-sorted j (keys c.nodes)).1 m)) in
          cc (subst (λ x. all_done act fuel run_id c run_input x ≡ true) (sym same) all, d)
      | fails x u v f ↦ cc f
      | starves q ↦ cc (rw (q, rounds) at e)
    ]

  pub rounds-ends :
      (n : ℕ) (s : Sched) (w : W)
      → PollsBelow act fuel
      → AllSettled s
      → pending_count s (keys c.nodes) < n
      → rounds act fuel run_id c run_input n s w ≢ run_out_of_fuel
  unfolding rounds
  rounds-ends zero s w polls h lt e = absurd (omega arith)
  rounds-ends (suc n) s w polls h lt e = elim (Round-Round n s w _ e) [
    | goes_on u v q d f ↦
        let inv = pass_inv s u w v true h q in
        rounds-ends n u v polls inv.settled
          (elim (inv.fewer refl) [ inl x ↦ absurd (cc x) | inr x ↦ omega arith ]) f
    | completes u v v' flag o q d m f ↦ cc f
    | stalls u v v' q d f ↦ cc f
    | fails x u v f ↦ cc f
    | starves q ↦ pass-ends act fuel polls run_id c run_input (sorted (keys c.nodes)) s w false q
  ]

  pub rounds-ne-key_error :
      (n : ℕ) (s : Sched) (w : W) → rounds act fuel run_id c run_input n s w ≢ key_error
  unfolding rounds
  rounds-ne-key_error zero s w e = cc e
  rounds-ne-key_error (suc n) s w e = elim (Round-Round n s w _ e) [
    | goes_on u v q d f ↦ rounds-ne-key_error n u v f
    | completes u v v' flag o q d m f ↦ cc f
    | stalls u v v' q d f ↦ cc f
    | fails x u v f ↦ cc f
    | starves q ↦ cc (rw (q, rounds) at e)
  ]
