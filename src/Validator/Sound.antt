-- ===== src/Validator/Sound.antt =====
-- What a flow without issues satisfies, and that the loop of the workflow always ends on it.
use flow_demo.Base.{
  ℕ, zero, suc, String, Bool, true, false, not, ◌&&◌, List, [], ◌∷◌, ◌++◌, map, ◌≡◌, refl, ◌⊎◌, inl,
  inr, eq_iff, eq_refl, if◌then◌else◌, contains, eqb, In, all-of_In, length, arith, Bool-cases,
  In-filter, is_some,
}
use flow_demo.Json.{Json, Fields}
use flow_demo.Content.{FlowNode, FlowEdge, FlowContent, keys}
use flow_demo.Validator.{
  Registry, ValidationIssue, known, linked, into, out_of, kahn, starts, ends, validate_flow,
  edge_issues, node_issues, checked_node, cycle_issues, raise_if, of_type, has_handle, is_nil,
  copies, issue, issue_at, port_issues, duplicate_edge_id, invalid_edge, invalid_node_config,
  unknown_node_type, duplicate_node_id, start_count, end_count, input_issues, output_issues,
}
use flow_demo.Validator.Order.{Distinct}
use flow_demo.Validator.Acyclic.{place, kahn_lem}
use flow_demo.Workflow.Activities.{Activities}
use flow_demo.Workflow.Engine.{Sched}
use flow_demo.Workflow.Run.{run, succeeded, node_failed}
use flow_demo.Workflow.Fuel.{PollsBelow}
use flow_demo.Workflow.Correct.{IsRanked}
use flow_demo.Workflow.Completion.{run_total}

append-eq-nil {ℓ} : {A : Type ℓ} (xs ys : List A) → xs ++ ys ≡ [] → (xs ≡ []) × (ys ≡ [])
append-eq-nil [] ys h = (refl, h)
append-eq-nil (x ∷ xs) ys h = cc

raise_if-eq-nil : (b : Bool) (i : ValidationIssue) → raise_if b i ≡ [] → b ≡ false
raise_if-eq-nil true i h = cc
raise_if-eq-nil false i h = refl

-- the loop over the edges: the identifiers are new, and the ends are nodes
edge_issues_sound :
    (reg : Registry) (c : FlowContent) (seen : List String) (es : List FlowEdge)
    → edge_issues reg c seen es ≡ []
    → Distinct (map (λ e. e.id) es)
      × ((s : String) → contains seen s ≡ true → contains (map (λ e. e.id) es) s ≡ false)
      × ((e : FlowEdge) → In e es → (known c e.source && known c e.target) ≡ true)
unfolding edge_issues
edge_issues_sound reg c seen [] h = (tt, λ s k. refl, λ e m. absurd m)
edge_issues_sound reg c seen (e ∷ es) h =
    let (a, rest) = append-eq-nil (raise_if (contains seen e.id) (issue duplicate_edge_id)) _ h in
    let (b, later) =
      append-eq-nil
        (if known c e.source && known c e.target
          then port_issues reg c e
          else issue invalid_edge ∷ [])
        _ rest in
    let fresh = raise_if-eq-nil (contains seen e.id) (issue duplicate_edge_id) a in
    let (distinct, apart, ends_known) = edge_issues_sound reg c (e.id ∷ seen) es later in
    (
      (apart e.id (rw eq_refl), distinct),
      λ s k. ground (arith, apart s, eq_iff e.id s),
      λ d m. elim m [ inl same ↦ rw same (ground (arith, b)) | inr old ↦ ends_known d old ],
    )

-- what holds of a node without issues
pub record IsWired (reg : Registry) (c : FlowContent) (n : FlowNode) : Type 0 where
  pub registered : is_some (reg.definition n.content.node_type n.content.node_version) ≡ true
  pub configured : reg.config_errors n.content.node_type n.content.node_version n.content.config ≡ 0
  pub inputs : is_nil (into n.id (linked c)) ≡ of_type "start" n
  pub outputs : is_nil (out_of n.id (linked c)) ≡ of_type "end" n
  pub branches :
      of_type "condition" n ≡ true
      → (has_handle "true" (out_of n.id (linked c)) && has_handle "false" (out_of n.id (linked c)))
        ≡ true

copies-eq-nil : (n : ℕ) (i : ValidationIssue) → copies n i ≡ [] → n ≡ 0
copies-eq-nil zero i h = refl
copies-eq-nil (suc n) i h = cc

checked_node-IsWired :
    (reg : Registry) (c : FlowContent) (n : FlowNode)
    → is_some (reg.definition n.content.node_type n.content.node_version) ≡ true
    → checked_node reg c n ≡ []
    → IsWired reg c n
checked_node-IsWired reg c n r h =
    let (a, rest) =
      append-eq-nil
        (copies (reg.config_errors n.content.node_type n.content.node_version n.content.config)
          (issue_at invalid_node_config n.id))
        _ h in
    let (b, rest') = append-eq-nil (input_issues n (into n.id (linked c))) _ rest in
    let (o, br) = append-eq-nil (output_issues n (out_of n.id (linked c))) _ rest' in
    record {
      registered = r;
      configured = copies-eq-nil _ (issue_at invalid_node_config n.id) a;
      inputs = ground (arith, b);
      outputs = ground (arith, o);
      branches = λ k. ground (arith, br, k);
    }

node_issues_sound :
    (reg : Registry) (c : FlowContent) (ns : List FlowNode)
    → node_issues reg c ns ≡ []
    → (n : FlowNode) → In n ns
    → IsWired reg c n
unfolding node_issues
node_issues_sound reg c [] h n m = absurd m
node_issues_sound reg c (k ∷ ns) h n m =
    let (a, rest) =
      append-eq-nil
        (if is_some (reg.definition k.content.node_type k.content.node_version)
          then checked_node reg c k
          else issue_at unknown_node_type k.id ∷ [])
        _ h in
    elim m [
      | inr old ↦ node_issues_sound reg c ns rest n old
      | inl same ↦
          rw same
            (elim (Bool-cases
              (is_some (reg.definition k.content.node_type k.content.node_version))) [
                | inl r ↦ checked_node-IsWired reg c k r (rw r at a)
                | inr r ↦ absurd (cc (rw r at a))
              ])
    ]

pub record IsValidFlow (reg : Registry) (c : FlowContent) : Type 0 where
  pub unique_nodes : length (keys c.nodes) ≡ length c.nodes
  pub one_start : length (starts c) ≡ 1
  pub some_end : is_nil (ends c) ≡ false
  pub unique_edges : Distinct (map (λ e. e.id) c.edges)
  pub linked_edges : (e : FlowEdge) → In e c.edges → (known c e.source && known c e.target) ≡ true
  pub wired : (n : FlowNode) → In n c.nodes → IsWired reg c n
  pub ranked : (rank : String → ℕ) × IsRanked c rank

IsRanked-of_kahn :
    (c : FlowContent)
    → cycle_issues c (kahn c) ≡ []
    → ((e : FlowEdge) → In e c.edges → (known c e.source && known c e.target) ≡ true)
    → (rank : String → ℕ) × IsRanked c rank
unfolding linked
IsRanked-of_kahn c h k =
    let (visited, eq, grows) = kahn_lem c in
    let full : length visited ≡ length (keys c.nodes) = ground (arith, rw eq at h) in
    (
      place visited,
      record {
        grows = λ e m. grows full e (
            In-filter (λ (d : FlowEdge). known c d.source && known c d.target) e c.edges m (k e m));
      },
    )

-- A flow in which the validator finds no issue has distinct node and edge identifiers, one Start and
-- some End, edges between nodes only, registered and configured nodes that are wired as their type
-- asks (Condition with both branches), and no cycle.
pub validate_flow-IsValidFlow :
    (reg : Registry) (c : FlowContent) → validate_flow reg c ≡ [] → IsValidFlow reg c
unfolding validate_flow
validate_flow-IsValidFlow reg c h =
    let (a, h1) =
      append-eq-nil
        (raise_if (not (eqb (length (keys c.nodes)) (length c.nodes))) (issue duplicate_node_id)) _
        h in
    let (b, h2) =
      append-eq-nil (raise_if (not (eqb (length (starts c)) 1)) (issue start_count)) _ h1 in
    let (d, h3) = append-eq-nil (raise_if (is_nil (ends c)) (issue end_count)) _ h2 in
    let (e, h4) = append-eq-nil (edge_issues reg c [] c.edges) _ h3 in
    let (f, h5) = append-eq-nil (node_issues reg c c.nodes) _ h4 in
    let (g, _) = append-eq-nil (cycle_issues c (kahn c)) _ h5 in
    let (ids, _, ends_known) = edge_issues_sound reg c [] c.edges e in
    record {
      unique_nodes = ground (arith, a);
      one_start = ground (arith, b);
      some_end = ground (arith, d);
      unique_edges = ids;
      linked_edges = ends_known;
      wired = node_issues_sound reg c c.nodes f;
      ranked = IsRanked-of_kahn c g ends_known;
    }

-- A run of a flow in which the validator found no issue ends, whatever the activities answer, as long
-- as nodes stop asking for polls below the fuel: it succeeds or some node failed. It never stops for
-- lack of progress and never looks up a node that is not there.
pub validated_run_total :
    {W : Type 0} (act : Activities W) (fuel : ℕ) (run_id : String) (reg : Registry)
    (c : FlowContent) (run_input : Fields) (w : W)
    → validate_flow reg c ≡ []
    → PollsBelow act fuel
    → ((output : Json) × (s : Sched) × (w' : W) × (run act fuel run_id c run_input w
          ≡ succeeded output s w'))
      ⊎ ((e : String) × (s : Sched) × (w' : W) × (run act fuel run_id c run_input w
            ≡ node_failed e s w'))
validated_run_total act fuel run_id reg c run_input w h polls =
    let valid = validate_flow-IsValidFlow reg c h in
    run_total act fuel run_id c run_input w valid.ranked.0
      (all-of_In _ c.edges (λ e m. ground (arith, valid.linked_edges e m))) valid.ranked.1 polls
