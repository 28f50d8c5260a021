-- ===== src/Content.antt =====
-- The graph of a flow, as app/schemas.py declares it. `position` is left out: it holds floats that
-- only the browser's canvas reads.
use flow_demo.Base.{
  ℕ, String, not, Option, none, some, List, [], ◌∷◌, ◌==◌, filter, if◌then◌else◌, arith, ◌≡◌,
  eq_iff, inl, inr, Option-cases, ◌∙◌, In, In-of_filter, eq_refl,
}
use flow_demo.Json.{Fields}

pub record FlowNodeData : Type 0 where
  pub label : String
  pub node_type : String
  pub node_version : String
  pub config : Fields
  pub flow_config_patch : Option Fields

pub record FlowNode : Type 0 where
  pub id : String
  pub kind : String
  pub content : FlowNodeData

pub record FlowEdge : Type 0 where
  pub id : String
  pub source : String
  pub target : String
  pub source_handle : Option String
  pub target_handle : Option String

pub record FlowContent : Type 0 where
  pub schema_version : ℕ
  pub nodes : List FlowNode
  pub edges : List FlowEdge

-- The keys of `{node.id: node for node in nodes}`: a repeated id keeps its first place.
unfoldable pub keys : List FlowNode → List String
keys [] = []
keys (n ∷ ns) = n.id ∷ filter (λ j. not (n.id == j)) (keys ns)

-- `nodes.get(id)` in that dictionary: the last node with the id.
unfoldable pub node_at : String → List FlowNode → Option FlowNode
node_at j [] = none
node_at j (n ∷ ns) = elim (node_at j ns) [
  | some m ↦ some m
  | none ↦ if n.id == j then some n else none
]

pub id-node_at : (j : String) (ns : List FlowNode) (m : FlowNode) → node_at j ns ≡ some m → m.id ≡ j
unfolding node_at
id-node_at j [] m h = cc
id-node_at j (n ∷ ns) m h = elim (Option-cases (node_at j ns)) [
  | inr (k, e) ↦ id-node_at j ns m (e ∙ rw e at h)
  | inl e ↦ ground (arith, eq_iff n.id j)
]

-- a key has a node
pub node_at-some :
    (j : String) (ns : List FlowNode) → In j (keys ns) → (m : FlowNode) × (node_at j ns ≡ some m)
unfolding keys node_at
node_at-some j [] h = absurd h
node_at-some j (n ∷ ns) h = elim (Option-cases (node_at j ns)) [
  | inr (k, e) ↦ (k, rw e)
  | inl e ↦ elim h [
    | inl same ↦ (n, rw (e, same, eq_refl))
    | inr rest ↦
        let (inner, _) = In-of_filter (λ i. not (n.id == i)) j (keys ns) rest in
        let (m, found) = node_at-some j ns inner in absurd (cc (e, found))
  ]
]
