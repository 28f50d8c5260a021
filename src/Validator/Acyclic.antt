-- ===== src/Validator/Acyclic.antt =====
-- A graph that passes the cycle check has no cycle: the order of the visits ranks its nodes.
use flow_demo.Base.{
  ℕ, ◌+◌, ◌≤◌, ◌<◌, String, Bool, true, false, not, ◌&&◌, some, List, [], ◌∷◌, ◌≡◌, refl, sym,
  subst, ◌⊎◌, inl, inr, ◌==◌, eq_iff, if◌then◌else◌, filter, contains, eqb, In, In-of_contains,
  In-of_filter, length, arith, Bool-cases, eqb_iff,
}
use flow_demo.Content.{FlowNode, FlowEdge, FlowContent, keys}
use flow_demo.Validator.{linked, indegree, kahn, known}
use flow_demo.Validator.Order.{Distinct, not_In, Distinct-length}
use flow_demo.Validator.Kahn.{open_in, IsOrdered, Inv, kahn_loop-Inv}

contains-filter :
    (p : String → Bool) (xs : List String) (x : String)
    → contains xs x ≡ false
    → contains (filter p xs) x ≡ false
contains-filter p [] x h = refl
contains-filter p (y ∷ ys) x h = ground (arith, contains-filter p ys x)

contains-drop : (x : String) (xs : List String) → contains (filter (λ j. not (x == j)) xs) x ≡ false
contains-drop x [] = refl
contains-drop x (y ∷ ys) = ground (arith, contains-drop x ys, eq_iff x y, eq_iff y x)

Distinct-filter : (p : String → Bool) (xs : List String) → Distinct xs → Distinct (filter p xs)
Distinct-filter p [] d = tt
Distinct-filter p (x ∷ xs) d = ground (arith, contains-filter p xs x d.0, Distinct-filter p xs d.1)

pub keys-Distinct : (ns : List FlowNode) → Distinct (keys ns)
unfolding keys
keys-Distinct [] = tt
keys-Distinct (n ∷ ns) = (
  contains-drop n.id (keys ns),
  Distinct-filter (λ j. not (n.id == j)) (keys ns) (keys-Distinct ns),
)

open_in-start : (es : List FlowEdge) (v : String) → indegree es v ≡ open_in es [] v + indegree [] v
open_in-start [] v = omega arith
open_in-start (e ∷ es) v = ground (arith, open_in-start es v)

linked-known :
    (c : FlowContent) (e : FlowEdge)
    → In e (linked c)
    → In e.source (keys c.nodes) × In e.target (keys c.nodes)
unfolding linked
linked-known c e m =
    let (_, ok) =
      In-of_filter (λ (d : FlowEdge). known c d.source && known c d.target) e c.edges m in
    (
      In-of_contains (keys c.nodes) e.source (ground (arith, ok)),
      In-of_contains (keys c.nodes) e.target (ground (arith, ok)),
    )

start-Inv :
    (c : FlowContent)
    → Inv
        (keys c.nodes)
        (linked c)
        (λ e m. (linked-known c e m).1)
        []
        (filter (λ j. eqb (indegree (linked c) j) 0) (keys c.nodes))
        (indegree (linked c))
start-Inv c =
    let sources : (v : String)
        → In v (filter (λ j. eqb (indegree (linked c) j) 0) (keys c.nodes))
        → In v (keys c.nodes) × (eqb (indegree (linked c) v) 0 ≡ true) =
      λ v m. In-of_filter (λ (j : String). eqb (indegree (linked c) j) 0) v (keys c.nodes) m in
    record {
      inner = record {
        counts = open_in-start (linked c);
        queued = λ v m. (eqb_iff (indegree (linked c) v) 0).0 (sources v m).1;
        past = λ v m. absurd m;
        fresh = λ v m. refl;
        distinct = Distinct-filter _ (keys c.nodes) (keys-Distinct c.nodes);
        in_names = λ v m. (sources v m).0;
      };
      ordered = tt;
      distinct = tt;
      in_names = λ v m. absurd m;
    }

-- the place of a node in the order of the visits, counted from 1
abbrev pub place : List String → String → ℕ
place [] v = 0
place (x ∷ xs) v = if x == v then length (x ∷ xs) else place xs v

place-le : (xs : List String) (v : String) → place xs v ≤ length xs
place-le [] v = omega arith
place-le (x ∷ xs) v = ground (arith, place-le xs v)

-- along an edge into a visited node the place grows
place_grows :
    (es : List FlowEdge) (visited : List String)
    → IsOrdered es visited
    → Distinct visited
    → (e : FlowEdge) → In e es
    → In e.target visited
    → (place visited e.source < place visited e.target) × In e.source visited
place_grows es [] o d e m t = absurd t
place_grows es (x ∷ xs) o d e m t = elim (Bool-cases (x == e.target)) [
  | inl head ↦
      let below = o.0 e m (sym ((eq_iff x e.target).0 head)) in
      let apart = other e.source below in
      (rw (head, apart) (omega (arith, place-le xs e.source)), inr below)
  | inr tail ↦
      let (lt, inside) = place_grows es xs o.1 d.1 e m (later t tail) in
      (rw (tail, other e.source inside) lt, inr inside)
]
  where
    other : (v : String) → In v xs → (x == v) ≡ false
    other v i = elim (Bool-cases (x == v)) [
      | inl same ↦ absurd (not_In xs x d.0 (subst (λ k. In k xs) (sym ((eq_iff x v).0 same)) i))
      | inr ne ↦ ne
    ]

    later : {v : String} → (v ≡ x) ⊎ In v xs → (x == v) ≡ false → In v xs
    later (inl e) ne = absurd (cc (ne, (eq_iff x _).1 (sym e)))
    later (inr i) ne = i

-- The cycle check ends on every flow. If it has visited as many nodes as there are, then the edges
-- between nodes lead from earlier to later visits.
pub kahn_lem :
    (c : FlowContent)
    → (visited : List String) × (kahn c ≡ some visited)
      × (length visited ≡ length (keys c.nodes)
          → (e : FlowEdge) → In e (linked c)
          → place visited e.source < place visited e.target)
unfolding kahn
kahn_lem c =
    let (visited, degree, eq, inv) =
      kahn_loop-Inv (keys c.nodes) (linked c) (λ e m. (linked-known c e m).1)
        (length (keys c.nodes)) (indegree (linked c)) _ [] (start-Inv c) (omega arith) in
    let (_, full) = Distinct-length visited (keys c.nodes) inv.distinct inv.in_names in
    (
      visited,
      eq,
      λ same e m.
          (place_grows (linked c) visited inv.ordered inv.distinct e m
            (full (omega arith) e.target (linked-known c e m).1)).0,
    )
