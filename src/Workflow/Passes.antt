-- ===== src/Workflow/Passes.antt =====
-- One whole pass of the `for` loop: what stays settled, what a pass without progress shows, and how
-- many nodes are still pending.
use flow_demo.Base.{
  ℕ, ◌≤◌, ◌<◌, String, Bool, true, false, List, [], ◌∷◌, ◌≡◌, refl, sym, ap, subst, ◌⊎◌, inl, inr,
  filter, length, arith, Bool-cases, In, All,
}
use flow_demo.Json.{Fields}
use flow_demo.Content.{FlowContent, keys}
use flow_demo.Workflow.Activities.{Activities}
use flow_demo.Workflow.Engine.{is_pending, Sched, upstream_done}
use flow_demo.Workflow.Run.{
  Visit, passed_over, progressed, node_raised, visit_out_of_fuel, pass_ended, visit, pass,
}
use flow_demo.Workflow.Settled.{IsSettled, Extends, Extends-refl, Extends-trans}
use flow_demo.Workflow.Visits.{
  Progress, Progress-Extends, Progress-done, Progress-IsSettled, visit-Progress,
  passed_over-blocked,
}

-- the nodes still pending
abbrev pub pending_count : Sched → List String → ℕ
pending_count s js = length (filter (λ j. is_pending (s.statuses j)) js)

module _ (s t : Sched) (ext : Extends s t) where
  pending_before :
      (j : String) → is_pending (t.statuses j) ≡ true → is_pending (s.statuses j) ≡ true
  pending_before j h = elim (Bool-cases (is_pending (s.statuses j))) [
    | inl p ↦ p
    | inr q ↦ absurd (cc (h, ap is_pending (ext.at j q).0, q))
  ]

  pub pending_count-le : (js : List String) → pending_count t js ≤ pending_count s js
  pending_count-le [] = omega arith
  pending_count-le (j ∷ js) = ground (arith, pending_before j, pending_count-le js)

  pub pending_count-lt :
      (j : String) (js : List String)
      → is_pending (s.statuses j) ≡ true
      → is_pending (t.statuses j) ≡ false
      → In j js
      → pending_count t js < pending_count s js
  pending_count-lt j [] a b m = absurd m
  pending_count-lt j (i ∷ js) a b (inl e) =
      let a' : is_pending (s.statuses i) ≡ true = rw (← e) a in
      let b' : is_pending (t.statuses i) ≡ false = rw (← e) b in
      rw (a', b') (omega (arith, pending_count-le js))
  pending_count-lt j (i ∷ js) a b (inr m) =
      ground (arith, pending_before i, pending_count-lt j js a b m)

-- a node that waits, or is done
abbrev pub IsBlocked : FlowContent → Sched → String → Type 0
IsBlocked c s j = (is_pending (s.statuses j) ≡ false) ⊎ (upstream_done c s j ≡ false)

module _ {W : Type 0} (act : Activities W) (fuel : ℕ) (run_id : String) (c : FlowContent)
    (run_input : Fields) where
  pub record PassInv (js : List String) (s t : Sched) (before after : Bool) : Type 0 where
    pub settled : (k : String) → IsSettled c t k
    pub ext : Extends s t
    pub idle : after ≡ false → (before ≡ false) × (t ≡ s) × All (IsBlocked c s) js
    pub fewer :
        after ≡ true
        → (before ≡ true) ⊎ (pending_count t (keys c.nodes) < pending_count s (keys c.nodes))

  module _ {j : String} {js : List String} {s t : Sched} {before after : Bool} where
    PassInv-skip : IsBlocked c s j → PassInv js s t before after → PassInv (j ∷ js) s t before after
    PassInv-skip b h = record {
      settled = h.settled;
      ext = h.ext;
      idle = λ e. let (x, y, z) = h.idle e in (x, y, (b, z));
      fewer = h.fewer;
    }

    PassInv-move :
        {u : Sched}
        → In j (keys c.nodes)
        → Progress act fuel run_id c run_input j s u
        → PassInv js u t true after
        → PassInv (j ∷ js) s t before after
    PassInv-move {u} m p h =
        let first = Progress-Extends act fuel run_id c run_input j s u p in
        let (was, now) = Progress-done act fuel run_id c run_input j s u p in
        let lt = pending_count-lt s u first j (keys c.nodes) was (ground (arith, now)) m in
        let le = pending_count-le u t h.ext (keys c.nodes) in
        record {
          settled = h.settled;
          ext = Extends-trans first h.ext;
          idle = λ e. absurd (cc (h.idle e).0);
          fewer = λ e. inr (omega arith);
        }

  pub pass-PassInv :
      (js : List String) (s t : Sched) (w w' : W) (before after : Bool)
      → ((j : String) → In j js → In j (keys c.nodes))
      → ((k : String) → IsSettled c s k)
      → pass act fuel run_id c run_input js s w before ≡ pass_ended t w' after
      → PassInv js s t before after
  unfolding pass
  pass-PassInv [] s t w w' before after sub h e =
      let same : s ≡ t = cc in
      record {
        settled = λ k. subst (λ x. IsSettled c x k) same (h k);
        ext = subst (Extends s) same (Extends-refl s);
        idle = λ f. (cc, sym same, tt);
        fewer = λ f. inl (cc);
      }
  pass-PassInv (j ∷ js) s t w w' before after sub h e =
      go (visit act fuel run_id c run_input j s w) refl (λ u v flag settled eq.
        pass-PassInv js u t v w' flag after (λ i m. sub i (inr m)) settled eq)
    where
      go :
          (v : Visit W)
          → visit act fuel run_id c run_input j s w ≡ v
          → ((u : Sched) (v : W) (flag : Bool)
              → ((k : String) → IsSettled c u k)
              → pass act fuel run_id c run_input js u v flag ≡ pass_ended t w' after
              → PassInv js u t flag after)
          → PassInv (j ∷ js) s t before after
      go passed_over q ih =
          PassInv-skip (passed_over-blocked act fuel run_id c run_input j s w (sub j (inl refl)) q)
            (ih s w before h (rw (q, pass) at e))
      go (progressed u v) q ih =
          let p = visit-Progress act fuel run_id c run_input j s u w v q in
          PassInv-move (sub j (inl refl)) p (
            ih u v true (Progress-IsSettled act fuel run_id c run_input j s u p h)
              (rw (q, pass) at e))
      go (node_raised x u v) q ih = absurd (cc (rw (q, pass) at e))
      go visit_out_of_fuel q ih = absurd (cc (rw (q, pass) at e))
