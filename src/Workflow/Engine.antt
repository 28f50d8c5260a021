-- ===== src/Workflow/Engine.antt =====
-- `GenericFlowWorkflow.run`, `_collect_inputs` and `_execute_node`.
use flow_demo.Base.{
  ℕ, String, Bool, true, false, not, ◌&&◌, ◌||◌, Option, none, some, List, [], ◌∷◌, ◌==◌,
  if◌then◌else◌, all, filter, min, max,
}
use flow_demo.Base.Int.{ℤ, pos, negsuc}
use flow_demo.Json.{Json, Fields, null, bool, num, str, obj, end, field, get, put}
use flow_demo.Enums.{NodeRunStatus}
use flow_demo.Workflow.Number.{int_of_text}
use flow_demo.Content.{FlowNodeData, FlowEdge, FlowContent, node_at}

-- membership in TERMINAL_SUCCESS
abbrev pub terminal_success : NodeRunStatus → Bool
terminal_success NodeRunStatus.success = true
terminal_success NodeRunStatus.skipped = true
terminal_success _ = false

abbrev pub is_pending : NodeRunStatus → Bool
is_pending NodeRunStatus.pending = true
is_pending _ = false

abbrev pub is_success : NodeRunStatus → Bool
is_success NodeRunStatus.success = true
is_success _ = false

-- `value == handle`, where a handle is a text or None
abbrev pub is_handle : Option Json → Option String → Bool
is_handle (some (str s)) (some h) = s == h
is_handle none none = true
is_handle (some null) none = true
is_handle _ _ = false

-- `bool(output)`: a dictionary that is there and not empty
abbrev pub is_filled : Option Fields → Bool
is_filled (some (field _ _ _)) = true
is_filled _ = false

abbrev pub branch_of : Option Fields → Option Json
branch_of none = none
branch_of (some d) = get "branch" d

-- `_active_edge`
unfoldable pub active_edge : FlowEdge → NodeRunStatus → Option Fields → String → Bool
active_edge edge status output node_type =
    if not (is_success status)
    then false
    else if not (node_type == "condition")
    then true
    else is_filled output && is_handle (branch_of output) edge.source_handle

-- `int(config.get(key, default))`; `none` where it raises ValueError or TypeError
abbrev pub config_int : String → ℕ → Fields → Option ℤ
config_int key default d = elim (get key d) [
  | none ↦ some (pos default)
  | some (num n) ↦ some n
  | some (bool true) ↦ some (pos 1)
  | some (bool false) ↦ some (pos 0)
  | some (str text) ↦ int_of_text text
  | some _ ↦ none
]

-- `max(1, min(n, top))`
abbrev pub clamp : ℕ → ℤ → ℕ
clamp top (pos n) = max 1 (min n top)
clamp top (negsuc _) = 1

-- `_max_attempts`
unfoldable pub max_attempts : FlowNodeData → Option ℕ
max_attempts d =
    if d.node_type == "http_poll"
    then elim (config_int "maxPolls" 60 d.config) [ none ↦ none | some n ↦ some (clamp 1000 n) ]
    else elim (config_int "maxAttempts" 1 d.config) [ none ↦ none | some n ↦ some (clamp 5 n) ]

-- the entries of `incoming[node_id]`, in the order of the edges
unfoldable pub incoming : FlowContent → String → List FlowEdge
incoming c j = filter (λ e. e.target == j) c.edges

abbrev pub type_at : FlowContent → String → String
type_at c j = elim (node_at j c.nodes) [ none ↦ "None" | some n ↦ n.content.node_type ]

abbrev pub output_fields : Option Fields → Fields
output_fields none = end
output_fields (some d) = d

abbrev data_of : Option Json → Json
data_of none = obj end
data_of (some v) = v

-- the dictionary `collected` of `_collect_inputs`
collected : FlowContent → (String → Option Fields) → List FlowEdge → Fields → Fields
collected c outputs [] acc = acc
collected c outputs (e ∷ es) acc =
    let output = output_fields (outputs e.source) in
    let value =
      if type_at c e.source == "condition" then data_of (get "data" output) else obj output in
    collected c outputs es (put e.source value acc)

abbrev only_or_sources : Fields → Json
only_or_sources (field k v end) = v
only_or_sources d = obj (field "sources" (obj d) end)

-- `_collect_inputs`
unfoldable pub collect_inputs :
    FlowContent → List FlowEdge → (String → Option Fields) → Fields → Json
unfolding collected
collect_inputs c [] outputs run_input = obj run_input
collect_inputs c (e ∷ es) outputs run_input = only_or_sources (collected c outputs (e ∷ es) end)

-- the local variables `statuses`, `outputs` and `attempts`, dictionaries over the node ids
pub record Sched : Type 0 where
  pub statuses : String → NodeRunStatus
  pub outputs : String → Option Fields
  pub attempts : String → ℕ

abbrev pub set_at {ℓ} : {V : Type ℓ} → String → V → (String → V) → String → V
set_at k v f j = if k == j then v else f j

abbrev pub start : Sched
start = record { statuses = λ _. NodeRunStatus.pending; outputs = λ _. none; attempts = λ _. 0 }

-- `upstream_done`
abbrev pub upstream_done : FlowContent → Sched → String → Bool
upstream_done c s j = all (λ e. terminal_success (s.statuses e.source)) (incoming c j)

abbrev pub is_active_edge : FlowContent → Sched → FlowEdge → Bool
is_active_edge c s e = active_edge e (s.statuses e.source) (s.outputs e.source) (type_at c e.source)

-- `active_edges`
abbrev pub active_edges : FlowContent → Sched → String → List FlowEdge
active_edges c s j = filter (is_active_edge c s) (incoming c j)

abbrev pub is_empty {ℓ} : {A : Type ℓ} → List A → Bool
is_empty [] = true
is_empty _ = false

-- `executable`, once the upstream nodes are done
abbrev pub executable : FlowContent → Sched → String → Bool
executable c s j = is_empty (incoming c j) || not (is_empty (active_edges c s j))
