-- ===== src/Runs/Rows.antt =====
-- The rows that `_create_run_projection` writes.
use flow_demo.Base.{
  ℕ, suc, ◌≤◌, String, Bool, true, false, not, Option, none, some, List, [], ◌∷◌, ◌++◌, find?, In,
  In-append_cases, In-of_filter, ◌≡◌, ◌≢◌, refl, sym, ap, ◌∙◌, inl, inr, arith, ◌==◌, eq_iff,
  eq_refl, Bool-cases,
}
use flow_demo.Enums.{NodeRunStatus}
use flow_demo.Content.{FlowNode, keys}
use flow_demo.Http.{answer, answer-inj}
use flow_demo.Models.Flows.{FlowDefinition, FlowVersion}
use flow_demo.Models.Runs.{FlowRun, NodeRun}
use flow_demo.Callback.Store.{Store, run_at}
use flow_demo.Projection.World.{is_node_run, node_row}
use flow_demo.Projection.Rows.{IsIntact}
use flow_demo.Runs.{
  Keys, Order, new_run, new_node, node_attempts, cons_node, node_runs, with_nodes,
  create_run_projection,
}

-- a key of a node run tells its node
unfoldable pub IsKeyed : List NodeRun → Type 0
IsKeyed rows = (x y : NodeRun) → In x rows → In y rows → x.id ≡ y.id → x.node_id ≡ y.node_id

-- a node run that nothing has touched
pub record IsUntouched (n : NodeRun) : Type 0 where
  pub status : n.status ≡ NodeRunStatus.pending
  pub attempts : n.attempts ≡ 0
  pub input : n.input_data ≡ none
  pub output : n.output_data ≡ none

-- keys that no row has, and that are different for different nodes
pub record IsFresh (keys : Keys) (s : Store) : Type 0 where
  pub run : run_at s keys.run_key ≡ none
  pub owner : (n : NodeRun) → In n s.node_runs → n.flow_run_id ≢ keys.run_key
  pub node : (n : NodeRun) (i : ℕ) → In n s.node_runs → n.id ≢ keys.node_key i
  pub distinct : (i k : ℕ) → keys.node_key i ≡ keys.node_key k → i ≡ k

search-append :
    {A : Type 0} (p : A → Bool) (xs ys : List A)
    → ((x : A) → In x xs → p x ≡ false)
    → find? p (xs ++ ys) ≡ find? p ys
search-append p [] ys miss = refl
search-append p (x ∷ xs) ys miss =
    let out : p x ≡ false = miss x (inl refl) in
    rw out (search-append p xs ys (λ y m. miss y (inr m)))

search-miss :
    {A : Type 0} (p : A → Bool) (xs ys : List A)
    → find? p xs ≡ none
    → find? p (xs ++ ys) ≡ find? p ys
search-miss p [] ys h = refl
search-miss p (x ∷ xs) ys h = elim (Bool-cases (p x)) [
  | inl here ↦ let bad : some x ≡ none = rw here at h in cc
  | inr out ↦ rw out (search-miss p xs ys (rw out at h))
]

search-kept :
    {A : Type 0} (p : A → Bool) (xs ys : List A) (a : A)
    → find? p xs ≡ some a
    → find? p (xs ++ ys) ≡ some a
search-kept p [] ys a h = cc
search-kept p (x ∷ xs) ys a h = elim (Bool-cases (p x)) [
  | inl here ↦ rw here (rw here at h)
  | inr out ↦ rw out (search-kept p xs ys a (rw out at h))
]

not_same : (a b : String) → a ≢ b → (a == b) ≡ false
not_same a b ne = elim (Bool-cases (a == b)) [ inl e ↦ absurd (ne ((eq_iff a b).0 e)) | inr h ↦ h ]

module _ (now : ℕ) (ks : Keys) where
  -- the head and the tail of the rows
  cons_node-some :
      (i : ℕ) (n : FlowNode) (o : Option ℕ) (p : Option (List NodeRun)) (ns : List NodeRun)
      → cons_node now ks i n o p ≡ some ns
      → (most : ℕ) × (rest : List NodeRun) × (p ≡ some rest)
        × (ns ≡ new_node now ks i n most ∷ rest)
  cons_node-some i n none p ns h = (let bad : none ≡ some ns = h in cc)
  cons_node-some i n (some most) none ns h = (let bad : none ≡ some ns = h in cc)
  cons_node-some i n (some most) (some rest) ns h =
      (most, rest, refl, (let e : some (new_node now ks i n most ∷ rest) ≡ some ns = h in cc))

  -- each node of the graph has a row
  node_runs-found :
      (i : ℕ) (nodes : List FlowNode) (ns : List NodeRun) (j : String)
      → node_runs now ks i nodes ≡ some ns
      → In j (keys nodes)
      → (n : NodeRun) × (find? (is_node_run ks.run_key j) ns ≡ some n) × IsUntouched n
  unfolding node_runs keys
  node_runs-found i [] ns j h m = absurd m
  node_runs-found i (x ∷ nodes) ns j h m =
      let (most, rest, tail, e) =
        cons_node-some i x (node_attempts ks x.content) (node_runs now ks (suc i) nodes) ns h in
      elim (Bool-cases (x.id == j)) [
        | inl own ↦ (
          new_node now ks i x most,
          rw (e, own, eq_refl ks.run_key) refl,
          record { status = refl; attempts = refl; input = refl; output = refl },
        )
        | inr other ↦ elim m [
          | inl here ↦ (let bad : (x.id == j) ≡ true = rw here (eq_refl x.id) in cc)
          | inr later ↦
              let (inside, _) = In-of_filter (λ k. not (x.id == k)) j (keys nodes) later in
              let (n, found, fresh) = node_runs-found (suc i) nodes rest j tail inside in
              (n, rw (e, other, eq_refl ks.run_key) found, fresh)
        ]
      ]

  -- a new row has one of the new keys
  node_runs-key :
      (i : ℕ) (nodes : List FlowNode) (ns : List NodeRun) (x : NodeRun)
      → node_runs now ks i nodes ≡ some ns
      → In x ns
      → (k : ℕ) × (i ≤ k) × (x.id ≡ ks.node_key k)
  unfolding node_runs
  node_runs-key i [] ns x h m =
      let e : [] ≡ ns = (let e : some [] ≡ some ns = h in cc) in absurd (rw (← e) at m)
  node_runs-key i (n ∷ nodes) ns x h m =
      let (most, rest, tail, e) =
        cons_node-some i n (node_attempts ks n.content) (node_runs now ks (suc i) nodes) ns h in
      elim (let m' : In x (new_node now ks i n most ∷ rest) = rw e at m in m') [
        | inl here ↦ (i, omega arith, ap (λ z. z.id) here)
        | inr later ↦
            let (k, above, own) = node_runs-key (suc i) nodes rest x tail later in
            (k, omega (arith, above), own)
      ]

  node_runs-IsKeyed :
      (i : ℕ) (nodes : List FlowNode) (ns : List NodeRun)
      → ((a b : ℕ) → ks.node_key a ≡ ks.node_key b → a ≡ b)
      → node_runs now ks i nodes ≡ some ns
      → IsKeyed ns
  unfolding node_runs IsKeyed
  node_runs-IsKeyed i [] ns distinct h x y mx my e =
      let empty : [] ≡ ns = (let e : some [] ≡ some ns = h in cc) in absurd (rw (← empty) at mx)
  node_runs-IsKeyed i (n ∷ nodes) ns distinct h x y mx my e =
      let (most, rest, tail, whole) =
        cons_node-some i n (node_attempts ks n.content) (node_runs now ks (suc i) nodes) ns h in
      let head = new_node now ks i n most in
      let clash : (z : NodeRun) → In z rest → z.id ≢ ks.node_key i = λ z m own.
        (let (k, above, key) = node_runs-key (suc i) nodes rest z tail m in
          let same = distinct i k (sym own ∙ key) in omega (arith, above, same)) in
      elim (let m' : In x (head ∷ rest) = rw whole at mx in m') [
        | inl hx ↦ elim (let m' : In y (head ∷ rest) = rw whole at my in m') [
          | inl hy ↦ ap (λ z. z.node_id) (hx ∙ sym hy)
          | inr ry ↦ absurd (clash y ry (sym e ∙ ap (λ z. z.id) hx))
        ]
        | inr rx ↦ elim (let m' : In y (head ∷ rest) = rw whole at my in m') [
          | inl hy ↦ absurd (clash x rx (e ∙ ap (λ z. z.id) hy))
          | inr ry ↦ node_runs-IsKeyed (suc i) nodes rest distinct tail x y rx ry e
        ]
      ]

  -- the tables after the rows of a run: it is pending, with its data, and is intact
  pub record IsStarted (group : String) (f : FlowDefinition) (v : FlowVersion) (o : Order)
      (s : Store) (t : Store) (r : FlowRun) : Type 0 where
    pub row : r ≡ new_run now ks group f v o
    pub stored : run_at t ks.run_key ≡ some r
    pub intact : IsIntact ks.run_key v.content t
    pub waiting :
        (j : String)
        → In j (keys v.content.nodes)
        → (n : NodeRun) × (node_row t ks.run_key j ≡ some n) × IsUntouched n
    pub kept : (k : String) (q : FlowRun) → run_at s k ≡ some q → run_at t k ≡ some q

  IsKeyed-append :
      (old ns : List NodeRun)
      → IsKeyed old
      → IsKeyed ns
      → ((x y : NodeRun) → In x old → In y ns → x.id ≢ y.id)
      → IsKeyed (old ++ ns)
  unfolding IsKeyed
  IsKeyed-append old ns ko kn apart x y mx my e = elim (In-append_cases x old ns mx) [
    | inl ox ↦ elim (In-append_cases y old ns my) [
      | inl oy ↦ ko x y ox oy e
      | inr ny ↦ absurd (apart x y ox ny e)
    ]
    | inr nx ↦ elim (In-append_cases y old ns my) [
      | inl oy ↦ absurd (apart y x oy nx (sym e))
      | inr ny ↦ kn x y nx ny e
    ]
  ]

  rows-IsIntact :
      (group : String) (f : FlowDefinition) (v : FlowVersion) (o : Order) (s t : Store)
      (r : FlowRun) (p : Option (List NodeRun))
      → IsFresh ks s
      → IsKeyed s.node_runs
      → node_runs now ks 0 v.content.nodes ≡ p
      → with_nodes now group v (new_run now ks group f v o) s p ≡ answer (t, r)
      → IsStarted group f v o s t r
  unfolding IsKeyed
  rows-IsIntact group f v o s t r none fresh keyed made h = cc
  rows-IsIntact group f v o s t r (some ns) fresh keyed made h =
      let run = new_run now ks group f v o in
      let tables : t.runs ≡ s.runs ++ (run ∷ []) = sym (ap (λ x. x.0.runs) (answer-inj _ _ h)) in
      let nodes : t.node_runs ≡ s.node_runs ++ ns =
        sym (ap (λ x. x.0.node_runs) (answer-inj _ _ h)) in
      let row : run ≡ r = ap (λ x. x.1) (answer-inj _ _ h) in
      let stored : run_at t ks.run_key ≡ some run = rw tables (
        search-miss (λ (x : FlowRun). x.id == ks.run_key) s.runs (run ∷ []) fresh.run
        ∙ rw (eq_refl ks.run_key) refl) in
      let rows : (j : String)
          → In j (keys v.content.nodes)
          → (n : NodeRun) × (node_row t ks.run_key j ≡ some n) × IsUntouched n =
        λ j m.
          (let (n, found, fresh_n) = node_runs-found 0 v.content.nodes ns j made m in
            (
              n,
              rw nodes (
                  search-append (is_node_run ks.run_key j) s.node_runs ns
                    (λ x i. rw (not_same x.flow_run_id ks.run_key (fresh.owner x i)) refl)
                  ∙ found),
              fresh_n,
            )) in
      record {
        row = sym row;
        stored = stored ∙ ap some row;
        kept = λ k q e. rw tables (search-kept (λ (x : FlowRun). x.id == k) s.runs (run ∷ []) q e);
        waiting = rows;
        intact = record {
          run = (run, stored);
          nodes = λ j m. (let (n, found, _) = rows j m in (n, found));
          keyed = λ x y mx my e.
              IsKeyed-append s.node_runs ns keyed
                (node_runs-IsKeyed 0 v.content.nodes ns fresh.distinct made)
                (λ a b i k same.
                  (let (number, _, own) = node_runs-key 0 v.content.nodes ns b made k in
                    fresh.node a number i (same ∙ own)))
                x y (rw nodes at mx) (rw nodes at my) e;
        };
      }

  pub create_run_projection-IsStarted :
      (group : String) (f : FlowDefinition) (v : FlowVersion) (o : Order) (s t : Store)
      (r : FlowRun)
      → IsFresh ks s
      → IsKeyed s.node_runs
      → create_run_projection now ks group f v o s ≡ answer (t, r)
      → IsStarted group f v o s t r
  unfolding create_run_projection
  create_run_projection-IsStarted group f v o s t r fresh keyed h =
      rows-IsIntact group f v o s t r (node_runs now ks 0 v.content.nodes) fresh keyed refl h
