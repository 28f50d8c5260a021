-- ===== src/Workflow/Settled.antt =====
-- What the loop has established about each node: when it ran, when it was skipped.
use flow_demo.Base.{
  ◌<◌, String, Bool, true, false, none, List, [], ◌∷◌, ◌≡◌, ◌≢◌, refl, ◌⊎◌, inl, all, filter, arith,
}
use flow_demo.Enums.{NodeRunStatus}
use flow_demo.Content.{FlowEdge, FlowContent}
use flow_demo.Workflow.Engine.{
  terminal_success, is_pending, is_success, incoming, Sched, start, upstream_done, is_active_edge,
  executable,
}

abbrev pub is_skipped : NodeRunStatus → Bool
is_skipped NodeRunStatus.skipped = true
is_skipped _ = false

-- A node that has not run has no output; a node ran only after its upstream nodes were done, over an
-- active edge or as a source of the graph; a node was skipped only with no active edge into it.
pub record IsSettled (c : FlowContent) (s : Sched) (j : String) : Type 0 where
  pub known : (is_pending (s.statuses j) ≡ true) ⊎ (terminal_success (s.statuses j) ≡ true)
  pub untouched : is_success (s.statuses j) ≡ false → (s.attempts j ≡ 0) × (s.outputs j ≡ none)
  pub ran :
      is_success (s.statuses j) ≡ true
      → (upstream_done c s j ≡ true)
        × (executable c s j ≡ true)
        × (0 < s.attempts j)
        × (s.outputs j ≢ none)
  pub left_out :
      is_skipped (s.statuses j) ≡ true → (upstream_done c s j ≡ true) × (executable c s j ≡ false)

pub start-IsSettled : (c : FlowContent) (j : String) → IsSettled c start j
start-IsSettled c j = record {
  known = inl refl;
  untouched = λ h. (refl, refl);
  ran = λ h. cc;
  left_out = λ h. cc;
}

-- `t` leaves alone every node that `s` has done
pub record Extends (s t : Sched) : Type 0 where
  pub at :
      (k : String)
      → is_pending (s.statuses k) ≡ false
      → (t.statuses k ≡ s.statuses k) × (t.outputs k ≡ s.outputs k) × (t.attempts k ≡ s.attempts k)

pub Extends-refl : (s : Sched) → Extends s s
Extends-refl s = record { at = λ k h. (refl, refl, refl) }

pub Extends-trans : {s t u : Sched} → Extends s t → Extends t u → Extends s u
Extends-trans {s} {t} h k = record {
  at = λ j p.
      let (a, b, d) = h.at j p in let (a', b', d') = k.at j (rw a p) in (rw a' a, rw b' b, rw d' d);
}

module _ (c : FlowContent) (s t : Sched) (ext : Extends s t) where
  done_source :
      (e : FlowEdge)
      → terminal_success (s.statuses e.source) ≡ true
      → is_pending (s.statuses e.source) ≡ false
  done_source e h = ground arith

  all_done-Extends :
      (es : List FlowEdge)
      → all (λ e. terminal_success (s.statuses e.source)) es ≡ true
      → (all (λ e. terminal_success (t.statuses e.source)) es ≡ true)
        × (filter (is_active_edge c t) es ≡ filter (is_active_edge c s) es)
  all_done-Extends [] h = (refl, refl)
  all_done-Extends (e ∷ es) h =
      let here : terminal_success (s.statuses e.source) ≡ true = ground arith in
      let (st, out, _) = ext.at e.source (done_source e here) in
      let (rest, same) = all_done-Extends es (ground arith) in
      (rw (st, here) rest, rw (st, out, same))

  -- so the tests of a node whose upstream nodes are done do not change any more
  pub tests-Extends :
      (j : String)
      → upstream_done c s j ≡ true
      → (upstream_done c t j ≡ true) × (executable c t j ≡ executable c s j)
  tests-Extends j h = let (up, same) = all_done-Extends (incoming c j) h in (up, rw same)

  pub IsSettled-Extends :
      (j : String) → is_pending (s.statuses j) ≡ false → IsSettled c s j → IsSettled c t j
  IsSettled-Extends j p h =
      let (st, out, att) = ext.at j p in
      record {
        known = rw st h.known;
        untouched = λ k. rw (att, out) (h.untouched (rw st at k));
        ran = λ k.
            let (up, ex, pos, full) = h.ran (rw st at k) in
            let (up', ex') = tests-Extends j up in
            (up', rw ex' ex, rw att pos, λ e. full (rw out at e));
        left_out = λ k.
            let (up, ex) = h.left_out (rw st at k) in
            let (up', ex') = tests-Extends j up in (up', rw ex' ex);
      }
