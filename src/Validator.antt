-- ===== src/Validator.antt =====
-- `validate_flow` of app/workflow/validator.py. The node registry and the JSON-Schema library answer
-- through the interface `Registry`. An issue keeps its code and its node; its message is left out.
pub mod Order
pub mod Kahn
pub mod Acyclic
pub mod Sound
use flow_demo.Base.{
  ℕ, zero, suc, ◌+◌, ◌-◌, String, Bool, true, false, not, ◌&&◌, ◌||◌, Option, none, some, List, [],
  ◌∷◌, ◌++◌, ◌==◌, if◌then◌else◌, filter, contains, map, length, eqb, is_some,
}
use flow_demo.Json.{Fields}
use flow_demo.Content.{FlowNodeData, FlowNode, FlowEdge, FlowContent, keys, node_at}

pub data IssueCode : Type 0 where
  duplicate_node_id start_count end_count duplicate_edge_id invalid_edge : IssueCode
  invalid_source_port invalid_target_port unknown_node_type invalid_node_config : IssueCode
  start_has_input missing_input end_has_output missing_output : IssueCode
  incomplete_condition cycle unreachable : IssueCode

pub record ValidationIssue : Type 0 where
  pub code : IssueCode
  pub node_id : Option String

-- what the validator reads of a NodeTypeResponse: the names of the ports
pub record NodeDefinition : Type 0 where
  pub inputs : List String
  pub outputs : List String

pub record Registry : Type 0 where
  -- `get_node_definition`
  pub definition : String → String → Option NodeDefinition
  -- the number of errors that the JSON-Schema validator of the node type finds in a configuration
  pub config_errors : String → String → Fields → ℕ

abbrev pub issue : IssueCode → ValidationIssue
issue code = record { code = code; node_id = none }

abbrev pub issue_at : IssueCode → String → ValidationIssue
issue_at code j = record { code = code; node_id = some j }

abbrev pub raise_if : Bool → ValidationIssue → List ValidationIssue
raise_if true i = i ∷ []
raise_if false i = []

abbrev pub of_type : String → FlowNode → Bool
of_type t n = n.content.node_type == t

abbrev pub known : FlowContent → String → Bool
known c j = contains (keys c.nodes) j

-- the edges that the loop does not drop by `continue`
unfoldable pub linked : FlowContent → List FlowEdge
linked c = filter (λ e. known c e.source && known c e.target) c.edges

abbrev pub into : String → List FlowEdge → List FlowEdge
into j es = filter (λ e. e.target == j) es

abbrev pub out_of : String → List FlowEdge → List FlowEdge
out_of j es = filter (λ e. e.source == j) es

abbrev pub has_port : List String → Option String → Bool
has_port names none = false
has_port names (some h) = contains names h

abbrev pub is_nil {ℓ} : {A : Type ℓ} → List A → Bool
is_nil [] = true
is_nil _ = false

abbrev pub copies : ℕ → ValidationIssue → List ValidationIssue
copies zero i = []
copies (suc n) i = i ∷ copies n i

abbrev pub input_issues : FlowNode → List FlowEdge → List ValidationIssue
input_issues n ins =
    if of_type "start" n && not (is_nil ins)
    then issue_at start_has_input n.id ∷ []
    else raise_if (not (of_type "start" n) && is_nil ins) (issue_at missing_input n.id)

abbrev pub output_issues : FlowNode → List FlowEdge → List ValidationIssue
output_issues n outs =
    if of_type "end" n && not (is_nil outs)
    then issue_at end_has_output n.id ∷ []
    else raise_if (not (of_type "end" n) && is_nil outs) (issue_at missing_output n.id)

abbrev pub has_handle : String → List FlowEdge → Bool
has_handle h [] = false
has_handle h (e ∷ es) = elim e.source_handle [ none ↦ false | some k ↦ k == h ] || has_handle h es

abbrev pub branch_issues : FlowNode → List FlowEdge → List ValidationIssue
branch_issues n outs =
    raise_if (of_type "condition" n && not (has_handle "true" outs && has_handle "false" outs))
      (issue_at incomplete_condition n.id)

module _ (reg : Registry) where
  abbrev definition_of : Option FlowNode → Option NodeDefinition
  definition_of none = none
  definition_of (some n) = reg.definition n.content.node_type n.content.node_version

  abbrev source_port_issues : FlowEdge → Option NodeDefinition → List ValidationIssue
  source_port_issues e none = []
  source_port_issues e (some d) =
      raise_if (not (has_port d.outputs e.source_handle)) (issue_at invalid_source_port e.source)

  abbrev target_port_issues : FlowEdge → Option NodeDefinition → List ValidationIssue
  target_port_issues e none = []
  target_port_issues e (some d) =
      raise_if (not (has_port d.inputs e.target_handle)) (issue_at invalid_target_port e.target)

  abbrev pub port_issues : FlowContent → FlowEdge → List ValidationIssue
  port_issues c e =
      source_port_issues e (definition_of (node_at e.source c.nodes))
      ++ target_port_issues e (definition_of (node_at e.target c.nodes))

  -- the loop over `content.edges`, with the set `seen_edges`
  unfoldable pub edge_issues : FlowContent → List String → List FlowEdge → List ValidationIssue
  edge_issues c seen [] = []
  edge_issues c seen (e ∷ es) =
      raise_if (contains seen e.id) (issue duplicate_edge_id)
      ++ ((if known c e.source && known c e.target
            then port_issues c e
            else issue invalid_edge ∷ [])
          ++ edge_issues c (e.id ∷ seen) es)

  abbrev pub checked_node : FlowContent → FlowNode → List ValidationIssue
  checked_node c n =
      copies (reg.config_errors n.content.node_type n.content.node_version n.content.config)
        (issue_at invalid_node_config n.id)
      ++ (input_issues n (into n.id (linked c))
          ++ (output_issues n (out_of n.id (linked c)) ++ branch_issues n (out_of n.id (linked c))))

  -- the loop over `content.nodes`
  unfoldable pub node_issues : FlowContent → List FlowNode → List ValidationIssue
  node_issues c [] = []
  node_issues c (n ∷ ns) =
      (if is_some (reg.definition n.content.node_type n.content.node_version)
        then checked_node c n
        else issue_at unknown_node_type n.id ∷ [])
      ++ node_issues c ns

abbrev pub set_degree : String → ℕ → (String → ℕ) → String → ℕ
set_degree k n f j = if k == j then n else f j

-- the inner `for` of the cycle check, which counts `indegree` down; `x - 1 == 0` is `x == 1`
unfoldable pub relax : List FlowEdge → (String → ℕ) → List String → (String → ℕ) × List String
relax [] degree queue = (degree, queue)
relax (e ∷ es) degree queue =
    relax es (set_degree e.target (degree e.target - 1) degree)
      (if eqb (degree e.target) 1 then queue ++ e.target ∷ [] else queue)

-- the `while queue` of the cycle check; `visited` is held in reverse order, since only its length is
-- read. `none` means that the fuel ran out.
unfoldable pub kahn_loop :
    ℕ → List FlowEdge → (String → ℕ) → List String → List String → Option (List String)
kahn_loop fuel edges degree [] visited = some visited
kahn_loop zero edges degree (x ∷ queue) visited = none
kahn_loop (suc fuel) edges degree (x ∷ queue) visited =
    let (degree', queue') = relax (out_of x edges) degree queue in
    kahn_loop fuel edges degree' queue' (x ∷ visited)

abbrev pub indegree : List FlowEdge → String → ℕ
indegree edges j = length (into j edges)

unfoldable pub kahn : FlowContent → Option (List String)
unfolding kahn_loop relax
kahn c =
    let edges = linked c in
    kahn_loop (length (keys c.nodes)) edges (indegree edges)
      (filter (λ j. eqb (indegree edges j) 0) (keys c.nodes)) []

abbrev pub cycle_issues : FlowContent → Option (List String) → List ValidationIssue
cycle_issues c none = issue cycle ∷ []
cycle_issues c (some visited) =
    raise_if (not (eqb (length visited) (length (keys c.nodes)))) (issue cycle)

-- the inner `for` of the search from the start node
unfoldable pub discover : List FlowEdge → List String → List String → List String × List String
discover [] reachable queue = (reachable, queue)
discover (e ∷ es) reachable queue =
    if contains reachable e.target
    then discover es reachable queue
    else discover es (e.target ∷ reachable) (queue ++ e.target ∷ [])

unfoldable pub search_loop : ℕ → List FlowEdge → List String → List String → Option (List String)
search_loop fuel edges reachable [] = some reachable
search_loop zero edges reachable (x ∷ queue) = none
search_loop (suc fuel) edges reachable (x ∷ queue) =
    let (reachable', queue') = discover (out_of x edges) reachable queue in
    search_loop fuel edges reachable' queue'

abbrev unreachable_from : FlowContent → Option (List String) → List ValidationIssue
unreachable_from c none = issue unreachable ∷ []
unreachable_from c (some reachable) =
    map (issue_at unreachable) (filter (λ j. not (contains reachable j)) (keys c.nodes))

unfoldable pub reach_issues : FlowContent → List FlowNode → List ValidationIssue
unfolding search_loop discover
reach_issues c [] = []
reach_issues c (s ∷ _) =
    unreachable_from c (search_loop (length (keys c.nodes)) (linked c) (s.id ∷ []) (s.id ∷ []))

abbrev pub starts : FlowContent → List FlowNode
starts c = filter (of_type "start") c.nodes

abbrev pub ends : FlowContent → List FlowNode
ends c = filter (of_type "end") c.nodes

-- `validate_flow`, its issues in the order of the source
unfoldable pub validate_flow : Registry → FlowContent → List ValidationIssue
unfolding edge_issues node_issues reach_issues
validate_flow reg c =
    raise_if (not (eqb (length (keys c.nodes)) (length c.nodes))) (issue duplicate_node_id)
    ++ (raise_if (not (eqb (length (starts c)) 1)) (issue start_count)
        ++ (raise_if (is_nil (ends c)) (issue end_count)
            ++ (edge_issues reg c [] c.edges
                ++ (node_issues reg c c.nodes
                    ++ (cycle_issues c (kahn c) ++ reach_issues c (starts c))))))
