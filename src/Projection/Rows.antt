-- ===== src/Projection/Rows.antt =====
-- The rows of a run and of its nodes: what a write to one node leaves.
use flow_demo.Base.{
  String, true, false, Option, none, some, find?-some, ◌≡◌, ◌≢◌, refl, sym, ap, ◌∙◌, inl, inr,
  arith, Bool-cases, ◌==◌, eq_iff, eq_refl, In,
}
use flow_demo.Content.{FlowContent, keys}
use flow_demo.Models.Runs.{FlowRun, NodeRun}
use flow_demo.Table.{row_at-save_self, find?-save, find?-save_other, In-save}
use flow_demo.Workflow.Activities.{ok}
use flow_demo.Callback.Store.{Store, run_at, save_run, save_node_run}
use flow_demo.Projection.World.{is_node_run, node_row, load, paired}

module _ (run_id : String) (c : FlowContent) where
  -- the run's row is there, every node of its graph has one, and a key of a node run tells the node
  pub record IsIntact (s : Store) : Type 0 where
    pub run : (r : FlowRun) × (run_at s run_id ≡ some r)
    pub nodes : (j : String) → In j (keys c.nodes) → (n : NodeRun) × (node_row s run_id j ≡ some n)
    pub keyed :
        (x y : NodeRun) → In x s.node_runs → In y s.node_runs → x.id ≡ y.id → x.node_id ≡ y.node_id

  -- a change of the tables on behalf of the node `j`
  pub record Touches (j : String) (s t : Store) : Type 0 where
    pub intact : IsIntact s → IsIntact t
    pub frame : IsIntact s → (k : String) → k ≢ j → node_row t run_id k ≡ node_row s run_id k

  pub Touches-trans : {j : String} {s t u : Store} → Touches j s t → Touches j t u → Touches j s u
  Touches-trans f g = record {
    intact = λ h. g.intact (f.intact h);
    frame = λ h k ne. g.frame (f.intact h) k ne ∙ f.frame h k ne;
  }

  pub Touches-same :
      (j : String) (s t : Store) → t.runs ≡ s.runs → t.node_runs ≡ s.node_runs → Touches j s t
  Touches-same j s t runs nodes = record {
    intact = λ h. record {
      run = (h.run.0, rw runs h.run.1);
      nodes = λ k m. let (n, e) = h.nodes k m in (n, rw nodes e);
      keyed = λ x y mx my. h.keyed x y (rw nodes at mx) (rw nodes at my);
    };
    frame = λ h k ne. rw nodes refl;
  }

  pub Touches-save_run :
      (j : String) (s : Store) (r r' : FlowRun)
      → run_at s run_id ≡ some r
      → r'.id ≡ r.id
      → Touches j s (save_run r' s)
  unfolding save_run
  Touches-save_run j s r r' here same =
      let (_, e) = find?-some (λ (x : FlowRun). x.id == run_id) r s.runs here in
      let own : r'.id ≡ run_id = same ∙ (eq_iff r.id run_id).0 e in
      record {
        intact = λ h. record {
          run = (r', row_at-save_self (λ x. x.id) r' r run_id s.runs own here);
          nodes = h.nodes;
          keyed = h.keyed;
        };
        frame = λ h k ne. refl;
      }

  node_row-ids :
      (s : Store) (j : String) (n : NodeRun)
      → node_row s run_id j ≡ some n
      → In n s.node_runs × (n.node_id ≡ j) × (is_node_run run_id j n ≡ true)
  node_row-ids s j n e =
      let (m, h) = find?-some (is_node_run run_id j) n s.node_runs e in
      (m, (eq_iff n.node_id j).0 (ground arith), h)

  -- a row that keeps its key, its run and its node
  pub record SameKeys (n n' : NodeRun) : Type 0 where
    pub id : n'.id ≡ n.id
    pub node : n'.node_id ≡ n.node_id
    pub run : n'.flow_run_id ≡ n.flow_run_id

  module _ (j : String) (s : Store) (n n' : NodeRun) (here : node_row s run_id j ≡ some n)
      (same : SameKeys n n') where
    save-found : node_row (save_node_run n' s) run_id j ≡ some n'
    unfolding save_node_run
    save-found =
        let (_, _, fits) = node_row-ids s j n here in
        find?-save (λ x. x.id) (is_node_run run_id j) s.node_runs n n' here
          (rw (same.run, same.node) fits) same.id

    save-frame :
        IsIntact s
        → (k : String) → k ≢ j
        → node_row (save_node_run n' s) run_id k ≡ node_row s run_id k
    unfolding save_node_run
    save-frame h k ne =
        let (m, node, _) = node_row-ids s j n here in
        let apart : (x : NodeRun) → x.node_id ≡ j → is_node_run run_id k x ≡ false = λ x e.
          elim (Bool-cases (x.node_id == k)) [
            | inl own ↦ absurd (ne (sym ((eq_iff x.node_id k).0 own) ∙ e))
            | inr other ↦ ground arith
          ] in
        find?-save_other (λ x. x.id) (is_node_run run_id k) s.node_runs n'
          (λ x i e. apart x (h.keyed x n i m (e ∙ same.id) ∙ node)) (apart n' (same.node ∙ node))

    save-keyed :
        IsIntact s
        → (x y : NodeRun) → In x (save_node_run n' s).node_runs
        → In y (save_node_run n' s).node_runs
        → x.id ≡ y.id
        → x.node_id ≡ y.node_id
    unfolding save_node_run
    save-keyed h x y mx my e =
        let (m, _, _) = node_row-ids s j n here in
        elim (In-save (λ x. x.id) x n' s.node_runs mx) [
          | inl ex ↦ elim (In-save (λ x. x.id) y n' s.node_runs my) [
            | inl ey ↦ ap (λ z. z.node_id) (ex ∙ sym ey)
            | inr iy ↦
                ap (λ z. z.node_id) ex
                ∙ same.node
                ∙ h.keyed n y m iy (sym same.id ∙ sym (ap (λ z. z.id) ex) ∙ e)
          ]
          | inr ix ↦ elim (In-save (λ x. x.id) y n' s.node_runs my) [
            | inl ey ↦
                h.keyed x n ix m (e ∙ ap (λ z. z.id) ey ∙ same.id)
                ∙ sym same.node
                ∙ sym (ap (λ z. z.node_id) ey)
            | inr iy ↦ h.keyed x y ix iy e
          ]
        ]

    Touches-save_node : Touches j s (save_node_run n' s)
    unfolding save_node_run
    Touches-save_node = record {
      intact = λ h. record {
        run = h.run;
        nodes = λ k m. elim (Bool-cases (k == j)) [
          | inl e ↦ (n', rw ((eq_iff k j).0 e) save-found)
          | inr ne ↦
              let (x, e) = h.nodes k m in
              (x, save-frame h k (λ q. (let own : (k == j) ≡ true = rw q (eq_refl j) in cc)) ∙ e)
        ];
        keyed = save-keyed h;
      };
      frame = save-frame;
    }

  -- the tables after writes for the node `j`, whose row is `n` then
  pub record Wrote (j : String) (n : NodeRun) (s t : Store) : Type 0 where
    pub touches : Touches j s t
    pub row : node_row t run_id j ≡ some n

  pub Wrote-start :
      (j : String) (n : NodeRun) (s : Store) → node_row s run_id j ≡ some n → Wrote j n s s
  Wrote-start j n s e = record { touches = Touches-same j s s refl refl; row = e }

  pub Wrote-node :
      (j : String) (n n' : NodeRun) (s t : Store)
      → Wrote j n s t
      → SameKeys n n'
      → Wrote j n' s (save_node_run n' t)
  Wrote-node j n n' s t h same = record {
    touches = Touches-trans h.touches (Touches-save_node j t n n' h.row same);
    row = save-found j t n n' h.row same;
  }

  pub Wrote-same :
      (j : String) (n : NodeRun) (s t u : Store)
      → Wrote j n s t
      → u.runs ≡ t.runs
      → u.node_runs ≡ t.node_runs
      → Wrote j n s u
  Wrote-same j n s t u h runs nodes = record {
    touches = Touches-trans h.touches (Touches-same j t u runs nodes);
    row = rw nodes h.row;
  }

  pub Wrote-run :
      (j : String) (n : NodeRun) (s t : Store) (r r' : FlowRun)
      → Wrote j n s t
      → run_at t run_id ≡ some r
      → r'.id ≡ r.id
      → Wrote j n s (save_run r' t)
  unfolding save_run
  Wrote-run j n s t r r' h here same = record {
    touches = Touches-trans h.touches (Touches-save_run j t r r' here same);
    row = h.row;
  }

-- the rows that `_load_run_and_node` answers
pub load-ok :
    (s : Store) (run_id j : String) (r : FlowRun) (n : NodeRun)
    → load s run_id j ≡ ok (r, n)
    → (run_at s run_id ≡ some r) × (node_row s run_id j ≡ some n)
unfolding load
load-ok s run_id j r n e = go (run_at s run_id) (node_row s run_id j) e
  where
    go :
        (o : Option FlowRun) (p : Option NodeRun)
        → paired run_id j o p ≡ ok (r, n)
        → (o ≡ some r) × (p ≡ some n)
    go none p e = cc
    go (some x) none e = cc
    go (some x) (some y) e = (cc, cc)
