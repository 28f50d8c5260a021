-- ===== src/Workflow/Tracked.antt =====
-- Runs whose activities keep a projection of the schedule: what the world shows of each node.
use flow_demo.Base.{
  ℕ, zero, suc, ◌+◌, String, Bool, true, false, Option, none, some, List, [], ◌∷◌, ◌≡◌, ◌≢◌, refl,
  sym, subst, inl, inr, ◌==◌, eq_iff, eq_refl, arith, Bool-cases, In,
}
use flow_demo.Json.{Json, Fields}
use flow_demo.Enums.{NodeRunStatus}
use flow_demo.Content.{FlowNode, FlowContent, keys, node_at}
use flow_demo.Workflow.Activities.{
  Result, ok, err, Reply, done, poll_pending, Payload, Mark, Activities,
}
use flow_demo.Workflow.Engine.{
  terminal_success, is_pending, collect_inputs, Sched, set_at, start, upstream_done, active_edges,
  executable,
}
use flow_demo.Workflow.Sorted.{sorted, In-sorted}
use flow_demo.Workflow.Run.{
  Attempted, finished, raised, out_of_fuel, Visit, passed_over, progressed, node_raised,
  visit_out_of_fuel, succeeded, pass_ended, execute_node, poll, finish_visit, run_at, visit, pass,
  rounds, run, edges_known, mark_started, mark_success,
}
use flow_demo.Workflow.Correct.{goes_on, completes, stalls, fails, starves, Round-Round}

module _ {W : Type 0} (act : Activities W) (run_id : String) (c : FlowContent) (Base : W → Type 0)
    (Row : String → NodeRunStatus → Option Fields → W → Type 0) where
  -- what a step for the node `j` leaves: the base, and the rows of the other nodes
  pub record Keeps (j : String) (w w' : W) : Type 0 where
    pub base : Base w → Base w'
    pub others :
        (k : String) (st : NodeRunStatus) (o : Option Fields)
        → Base w
        → k ≢ j
        → Row k st o w
        → Row k st o w'

  -- activities that show in the world what they tell the workflow
  pub record IsTracking : Type 0 where
    pub executes :
        (p : Payload) (w : W) → p.run_id ≡ run_id → Keeps p.node_id w ((execute_node act p w).1)
    pub shows :
        (p : Payload) (w : W) (out : Fields)
        → p.run_id ≡ run_id
        → Base w
        → (execute_node act p w).0 ≡ ok (done out)
        → Row p.node_id NodeRunStatus.success (some out) ((execute_node act p w).1)
    pub skips : (j : String) (w : W) → Keeps j w (act.mark_node_skipped run_id j w)
    pub shows_skip :
        (j : String) (o : Option Fields) (w : W)
        → In j (keys c.nodes)
        → Base w
        → Row j NodeRunStatus.skipped o (act.mark_node_skipped run_id j w)
    pub marks : (m : Mark) (w : W) → m.run_id ≡ run_id → Base w → Base (act.mark_run m w)
    pub marks_rows :
        (m : Mark) (j : String) (st : NodeRunStatus) (o : Option Fields) (w : W)
        → Row j st o w
        → Row j st o (act.mark_run m w)

  -- the world shows every node that is done
  pub record Agrees (s : Sched) (w : W) : Type 0 where
    pub base : Base w
    pub rows :
        (j : String)
        → In j (keys c.nodes)
        → terminal_success (s.statuses j) ≡ true
        → Row j (s.statuses j) (s.outputs j) w

  Keeps-trans : {j : String} {u v w : W} → Keeps j u v → Keeps j v w → Keeps j u w
  Keeps-trans f g = record {
    base = λ b. g.base (f.base b);
    others = λ k st o b ne r. g.others k st o (f.base b) ne (f.others k st o b ne r);
  }

  Keeps-refl : (j : String) (w : W) → Keeps j w w
  Keeps-refl j w = record { base = λ b. b; others = λ k st o b ne r. r }

  module _ (tracking : IsTracking) where
    -- the polls of a node: each is one more execution
    poll-Keeps :
        (fuel : ℕ) (p : Payload) (r : Result Reply) (w : W)
        → p.run_id ≡ run_id
        → Keeps p.node_id w ((poll act fuel p r w).2)
    unfolding poll
    poll-Keeps zero p (err e) w own = Keeps-refl p.node_id w
    poll-Keeps (suc fuel) p (err e) w own = Keeps-refl p.node_id w
    poll-Keeps zero p (ok (done o)) w own = Keeps-refl p.node_id w
    poll-Keeps (suc fuel) p (ok (done o)) w own = Keeps-refl p.node_id w
    poll-Keeps zero p (ok (poll_pending d l)) w own = Keeps-refl p.node_id w
    poll-Keeps (suc fuel) p (ok (poll_pending d l)) w own =
        let p' = record p { attempt = p.attempt + 1 } in
        Keeps-trans (tracking.executes p' w own)
          (poll-Keeps fuel p' ((execute_node act p' w).0) ((execute_node act p' w).1) own)

    poll-shows :
        (fuel : ℕ) (p : Payload) (r : Result Reply) (w : W) (out : Fields)
        → p.run_id ≡ run_id
        → Base w
        → ((o : Fields) → r ≡ ok (done o) → Row p.node_id NodeRunStatus.success (some o) w)
        → (poll act fuel p r w).0 ≡ finished out
        → Row p.node_id NodeRunStatus.success (some out) ((poll act fuel p r w).2)
    unfolding poll
    poll-shows zero p (err e) w out own b shown h = cc
    poll-shows (suc fuel) p (err e) w out own b shown h = cc
    poll-shows zero p (ok (done o)) w out own b shown h = shown out (cc)
    poll-shows (suc fuel) p (ok (done o)) w out own b shown h = shown out (cc)
    poll-shows zero p (ok (poll_pending d l)) w out own b shown h = cc
    poll-shows (suc fuel) p (ok (poll_pending d l)) w out own b shown h =
        let p' = record p { attempt = p.attempt + 1 } in
        poll-shows fuel p' ((execute_node act p' w).0) ((execute_node act p' w).1) out own
          ((tracking.executes p' w own).base b) (λ o e. tracking.shows p' w o own b e) h

    module _ (fuel : ℕ) (run_input : Fields) where
      -- a schedule that has moved at one node, in a world that shows it
      move :
          (j : String) (s t : Sched) (w w' : W)
          → Agrees s w
          → Keeps j w w'
          → ((k : String) → k ≢ j → (t.statuses k ≡ s.statuses k) × (t.outputs k ≡ s.outputs k))
          → Row j (t.statuses j) (t.outputs j) w'
          → Agrees t w'
      move j s t w w' agrees keeps same row = record {
        base = keeps.base agrees.base;
        rows = λ k m h. elim (Bool-cases (j == k)) [
          | inl e ↦
              let e' : j ≡ k = (eq_iff j k).0 e in
              subst (λ x. Row x (t.statuses x) (t.outputs x) w') e' row
          | inr ne ↦
              let apart : k ≢ j = λ e. (let own : (j == k) ≡ true = rw e (eq_refl j) in cc) in
              let (st, o) = same k apart in
              rw (st, o)
                (keeps.others k (s.statuses k) (s.outputs k) agrees.base apart
                  (agrees.rows k m (rw st at h)))
        ];
      }

      set_at-other :
          {V : Type 0} (j k : String) (v : V) (f : String → V) → k ≢ j → set_at j v f k ≡ f k
      set_at-other j k v f ne = elim (Bool-cases (j == k)) [
        | inl e ↦ absurd (ne (sym ((eq_iff j k).0 e)))
        | inr other ↦ rw other refl
      ]

      finish_visit-Agrees :
          (j : String) (s t : Sched) (w w' : W) (r : Attempted × ℕ × W)
          → Agrees s w
          → Keeps j w (r.2)
          → ((out : Fields) → r.0 ≡ finished out → Row j NodeRunStatus.success (some out) (r.2))
          → finish_visit act fuel run_id c run_input j s r ≡ progressed t w'
          → Agrees t w'
      finish_visit-Agrees j s t w w' (raised x, n, v) agrees keeps shown e = cc
      finish_visit-Agrees j s t w w' (out_of_fuel, n, v) agrees keeps shown e = cc
      finish_visit-Agrees j s t w w' (finished out, n, v) agrees keeps shown e =
          let u : Sched = record {
            statuses = set_at j NodeRunStatus.success s.statuses;
            outputs = set_at j (some out) s.outputs;
            attempts = set_at j n s.attempts;
          } in
          let row : Row j (u.statuses j) (u.outputs j) v = rw (eq_refl j) (shown out refl) in
          let here : Agrees u v =
            move j s u w v agrees keeps
              (λ k ne. (
                set_at-other j k NodeRunStatus.success s.statuses ne,
                set_at-other j k (some out) s.outputs ne,
              ))
              row in
          let et : u ≡ t = cc in
          let ew : v ≡ w' = cc in subst (λ x. Agrees x w') et (subst (Agrees u) ew here)

      run_at-Agrees :
          (j : String) (o : Option FlowNode) (s t : Sched) (w w' : W)
          → node_at j c.nodes ≡ o
          → Agrees s w
          → run_at act fuel run_id c run_input o s w ≡ progressed t w'
          → Agrees t w'
      run_at-Agrees j none s t w w' at agrees e = cc
      run_at-Agrees j (some n) s t w w' at agrees e =
          let p : Payload = record {
            run_id = run_id;
            node_id = n.id;
            node_data = n.content;
            inputs = collect_inputs c (active_edges c s n.id) s.outputs run_input;
            attempt = s.attempts n.id + 1;
          } in
          let r = (execute_node act p w).0 in
          let w1 = (execute_node act p w).1 in
          let ran = tracking.executes p w refl in
          finish_visit-Agrees n.id s t w w' (poll act fuel p r w1) agrees
            (Keeps-trans ran (poll-Keeps fuel p r w1 refl))
            (λ out h.
              poll-shows fuel p r w1 out refl (ran.base agrees.base)
                (λ o q. tracking.shows p w o refl agrees.base q) h)
            e

      skip-Agrees :
          (j : String) (s t : Sched) (w w' : W)
          → In j (keys c.nodes)
          → Agrees s w
          → progressed
              (record s { statuses = set_at j NodeRunStatus.skipped s.statuses })
              (act.mark_node_skipped run_id j w)
            ≡ progressed t w'
          → Agrees t w'
      skip-Agrees j s t w w' m agrees e =
          let u : Sched = record s { statuses = set_at j NodeRunStatus.skipped s.statuses } in
          let v = act.mark_node_skipped run_id j w in
          let row : Row j (u.statuses j) (u.outputs j) v =
            rw (eq_refl j) (tracking.shows_skip j (s.outputs j) w m agrees.base) in
          let here : Agrees u v =
            move j s u w v agrees (tracking.skips j w)
              (λ k ne. (set_at-other j k NodeRunStatus.skipped s.statuses ne, refl)) row in
          let et : u ≡ t = cc in
          let ew : v ≡ w' = cc in subst (λ x. Agrees x w') et (subst (Agrees u) ew here)

      visit-Agrees :
          (j : String) (s t : Sched) (w w' : W)
          → In j (keys c.nodes)
          → Agrees s w
          → visit act fuel run_id c run_input j s w ≡ progressed t w'
          → Agrees t w'
      unfolding visit
      visit-Agrees j s t w w' m agrees e = elim (Bool-cases (is_pending (s.statuses j))) [
        | inr gone ↦ absurd (cc (gone, e))
        | inl pend ↦ elim (Bool-cases (upstream_done c s j)) [
          | inr wait ↦ absurd (ground (arith, pend, wait))
          | inl up ↦ elim (Bool-cases (executable c s j)) [
            | inr cold ↦ skip-Agrees j s t w w' m agrees (rw (pend, up, cold) at e)
            | inl hot ↦
                run_at-Agrees j (node_at j c.nodes) s t w w' refl agrees (rw (pend, up, hot) at e)
          ]
        ]
      ]

      pass-Agrees :
          (js : List String) (s t : Sched) (w w' : W) (before after : Bool)
          → ((j : String) → In j js → In j (keys c.nodes))
          → Agrees s w
          → pass act fuel run_id c run_input js s w before ≡ pass_ended t w' after
          → Agrees t w'
      unfolding pass
      pass-Agrees [] s t w w' before after sub agrees e =
          let et : s ≡ t = cc in
          let ew : w ≡ w' = cc in subst (λ x. Agrees x w') et (subst (Agrees s) ew agrees)
      pass-Agrees (j ∷ js) s t w w' before after sub agrees e =
          go (visit act fuel run_id c run_input j s w) refl
            (λ u v flag now q. pass-Agrees js u t v w' flag after (λ i m. sub i (inr m)) now q)
        where
          go :
              (v : Visit W)
              → visit act fuel run_id c run_input j s w ≡ v
              → ((u : Sched) (v : W) (flag : Bool)
                  → Agrees u v
                  → pass act fuel run_id c run_input js u v flag ≡ pass_ended t w' after
                  → Agrees t w')
              → Agrees t w'
          go passed_over q ih = ih s w before agrees (rw (q, pass) at e)
          go (progressed u v) q ih =
              ih u v true (visit-Agrees j s u w v (sub j (inl refl)) agrees q) (rw (q, pass) at e)
          go (node_raised x u v) q ih = absurd (cc (rw (q, pass) at e))
          go visit_out_of_fuel q ih = absurd (cc (rw (q, pass) at e))

      full_pass-Agrees :
          (s t : Sched) (w w' : W) (flag : Bool)
          → Agrees s w
          → pass act fuel run_id c run_input (sorted (keys c.nodes)) s w false
            ≡ pass_ended t w' flag
          → Agrees t w'
      full_pass-Agrees s t w w' flag agrees e =
          pass-Agrees (sorted (keys c.nodes)) s t w w' false flag
            (λ j m. (In-sorted j (keys c.nodes)).0 m) agrees e

      -- the world in which a run that succeeds has shown every node, and the mark that follows
      Ending : Json → Sched → W → Type 0
      Ending output t w' =
          (v : W) × Agrees t v
          × (w' ≡ act.mark_run (mark_success act fuel run_id c run_input output) v)

      rounds-Agrees :
          (n : ℕ) (s t : Sched) (w w' : W) (output : Json)
          → Agrees s w
          → rounds act fuel run_id c run_input n s w ≡ succeeded output t w'
          → Ending output t w'
      unfolding rounds Ending
      rounds-Agrees zero s t w w' output agrees e = absurd (cc e)
      rounds-Agrees (suc n) s t w w' output agrees e =
          elim (Round-Round act fuel run_id c run_input n s w _ e) [
            | goes_on u v q d f ↦
                rounds-Agrees n u t v w' output (full_pass-Agrees s u w v true agrees q) f
            | completes u v v' flag o q d m f ↦
                let here = full_pass-Agrees s u w v flag agrees q in
                let et : u ≡ t = cc f in
                let eo : o ≡ output = cc f in
                let ew : v' ≡ w' = cc f in (v, subst (λ x. Agrees x v) et here, rw (← ew, ← eo) m)
            | stalls u v v' q d f ↦ absurd (cc f)
            | fails x u v f ↦ absurd (cc f)
            | starves q ↦ absurd (cc (rw (q, rounds) at e))
          ]

      pub run-Agrees :
          (s : Sched) (w w' : W) (output : Json)
          → Base w
          → run act fuel run_id c run_input w ≡ succeeded output s w'
          → (v : W) × Agrees s v
            × (w' ≡ act.mark_run (mark_success act fuel run_id c run_input output) v)
      unfolding run Ending
      run-Agrees s w w' output b e = elim (Bool-cases (edges_known act fuel run_id c run_input)) [
        | inr bad ↦ absurd (cc (rw bad at e))
        | inl good ↦
            let first : Agrees start (act.mark_run (mark_started act fuel run_id c run_input) w) =
              record { base = tracking.marks _ w refl b; rows = λ j m h. absurd (cc h) } in
            rounds-Agrees _ start s _ w' output first (rw good at e)
      ]
