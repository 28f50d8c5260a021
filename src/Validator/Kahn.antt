-- ===== src/Validator/Kahn.antt =====
-- The invariant of the cycle check: the counters are the numbers of unvisited sources, and a node is
-- visited after the sources of all the edges into it.
use flow_demo.Base.{
  ℕ, zero, suc, ◌+◌, ◌-◌, ◌≤◌, ◌<◌, String, false, not, ◌&&◌, some, List, [], ◌∷◌, ◌++◌, ◌≡◌, refl,
  inl, inr, ◌==◌, eq_iff, eq_refl, if◌then◌else◌, filter, contains, eqb, In, In-of_contains,
  In-append_cases, In-of_filter, length, arith, Bool-cases,
}
use flow_demo.Content.{FlowEdge}
use flow_demo.Validator.{out_of, set_degree, relax, kahn_loop, indegree}
use flow_demo.Validator.Order.{Distinct, not_In, Distinct-snoc, Distinct-length}

-- the edges into `v` whose source is not visited yet
abbrev pub open_in : List FlowEdge → List String → String → ℕ
open_in es visited v = length (filter (λ e. e.target == v && not (contains visited e.source)) es)

-- visiting `x` closes the edges out of it
open_in-visit :
    (es : List FlowEdge) (visited : List String) (x v : String)
    → contains visited x ≡ false
    → open_in es visited v ≡ open_in es (x ∷ visited) v + indegree (out_of x es) v
open_in-visit [] visited x v h = omega arith
open_in-visit (e ∷ es) visited x v h =
    ground (arith, open_in-visit es visited x v h, eq_iff e.source x, eq_iff x e.source)

-- with no edge open, all sources are visited
open_in-zero :
    (es : List FlowEdge) (visited : List String) (v : String) (e : FlowEdge)
    → open_in es visited v ≡ 0
    → In e es
    → e.target ≡ v
    → In e.source visited
open_in-zero [] visited v e h m t = absurd m
open_in-zero (d ∷ es) visited v e h (inl same) t =
    In-of_contains visited e.source (ground (arith, same, eq_iff d.target v))
open_in-zero (d ∷ es) visited v e h (inr m) t = open_in-zero es visited v e (ground arith) m t

-- each visited node stands above the sources of the edges into it
abbrev pub IsOrdered : List FlowEdge → List String → Type 0
IsOrdered es [] = Unit
IsOrdered es (x ∷ xs) = ((e : FlowEdge) → In e es → e.target ≡ x → In e.source xs) × IsOrdered es xs

module _ (names : List String) (edges : List FlowEdge)
    (targets : (e : FlowEdge) → In e edges → In e.target names) where
  -- the state inside the inner loop, with the edges `todo` still to be counted
  pub record Inner (visited : List String) (todo : List FlowEdge) (degree : String → ℕ)
      (queue : List String) : Type 0 where
    pub counts : (v : String) → degree v ≡ open_in edges visited v + indegree todo v
    pub queued : (v : String) → In v queue → degree v ≡ 0
    pub past : (v : String) → In v visited → degree v ≡ 0
    pub fresh : (v : String) → In v queue → contains visited v ≡ false
    pub distinct : Distinct queue
    pub in_names : (v : String) → In v queue → In v names

  module _ (visited : List String) (e : FlowEdge) (todo : List FlowEdge) (degree : String → ℕ)
      (queue : List String) (edge : In e edges) (inv : Inner visited (e ∷ todo) degree queue) where
    positive : 0 < degree e.target
    positive = ground (arith, inv.counts e.target, eq_refl e.target)

    counted :
        (v : String)
        → set_degree e.target (degree e.target - 1) degree v
          ≡ open_in edges visited v + indegree todo v
    counted v = ground (arith, inv.counts v, eq_iff e.target v)

    -- a counter that is 0 stays 0
    zero_stays :
        (v : String) → degree v ≡ 0 → set_degree e.target (degree e.target - 1) degree v ≡ 0
    zero_stays v h = ground (arith, eq_iff e.target v)

    new_to :
        (xs : List String) → ((v : String) → In v xs → degree v ≡ 0) → contains xs e.target ≡ false
    new_to xs h = elim (Bool-cases (contains xs e.target)) [
      | inl c ↦ absurd (omega (arith, positive, h e.target (In-of_contains xs e.target c)))
      | inr c ↦ c
    ]

    offered : List String
    offered = if eqb (degree e.target) 1 then queue ++ e.target ∷ [] else queue

    Inner-offer : Inner visited todo (set_degree e.target (degree e.target - 1) degree) offered
    unfolding offered
    Inner-offer = elim (Bool-cases (eqb (degree e.target) 1)) [
      | inr other ↦ rw other (record {
        counts = counted;
        queued = λ v m. zero_stays v (inv.queued v m);
        past = λ v m. zero_stays v (inv.past v m);
        fresh = inv.fresh;
        distinct = inv.distinct;
        in_names = inv.in_names;
      })
      | inl one ↦ rw one (record {
        counts = counted;
        queued = λ v m. elim (In-append_cases v queue (e.target ∷ []) m) [
          | inl old ↦ zero_stays v (inv.queued v old)
          | inr new ↦ elim new [
            | inl same ↦ ground (arith, same, eq_refl e.target)
            | inr none_left ↦ absurd none_left
          ]
        ];
        past = λ v m. zero_stays v (inv.past v m);
        fresh = λ v m. elim (In-append_cases v queue (e.target ∷ []) m) [
          | inl old ↦ inv.fresh v old
          | inr new ↦ elim new [
            | inl same ↦ rw same (new_to visited inv.past)
            | inr none_left ↦ absurd none_left
          ]
        ];
        distinct = Distinct-snoc queue e.target inv.distinct (new_to queue inv.queued);
        in_names = λ v m. elim (In-append_cases v queue (e.target ∷ []) m) [
          | inl old ↦ inv.in_names v old
          | inr new ↦ elim new [
            | inl same ↦ rw same (targets e edge)
            | inr none_left ↦ absurd none_left
          ]
        ];
      })
    ]

  relax-Inner :
      (visited : List String) (todo : List FlowEdge) (degree : String → ℕ) (queue : List String)
      → ((e : FlowEdge) → In e todo → In e edges)
      → Inner visited todo degree queue
      → Inner visited [] (relax todo degree queue).0 (relax todo degree queue).1
  unfolding relax offered
  relax-Inner visited [] degree queue sub inv = inv
  relax-Inner visited (e ∷ todo) degree queue sub inv =
      relax-Inner visited todo (set_degree e.target (degree e.target - 1) degree)
        (offered visited e todo degree queue (sub e (inl refl)) inv) (λ d m. sub d (inr m))
        (Inner-offer visited e todo degree queue (sub e (inl refl)) inv)

  -- between two rounds of the outer loop
  pub record Inv (visited queue : List String) (degree : String → ℕ) : Type 0 where
    pub inner : Inner visited [] degree queue
    pub ordered : IsOrdered edges visited
    pub distinct : Distinct visited
    pub in_names : (v : String) → In v visited → In v names

  module _ (x : String) (queue visited : List String) (degree : String → ℕ)
      (inv : Inv visited (x ∷ queue) degree) where
    pop-Inner : Inner (x ∷ visited) (out_of x edges) degree queue
    pop-Inner = record {
      counts = λ v. omega (
        arith,
        inv.inner.counts v,
        open_in-visit edges visited x v (inv.inner.fresh x (inl refl)),
      );
      queued = λ v m. inv.inner.queued v (inr m);
      past = λ v m. elim m [
        | inl same ↦ rw same (inv.inner.queued x (inl refl))
        | inr old ↦ inv.inner.past v old
      ];
      fresh = λ v m. elim (Bool-cases (x == v)) [
        | inl same ↦ absurd (not_In queue x inv.inner.distinct.0 (rw ((eq_iff x v).0 same) m))
        | inr other ↦ rw other (inv.inner.fresh v (inr m))
      ];
      distinct = inv.inner.distinct.1;
      in_names = λ v m. inv.inner.in_names v (inr m);
    }

    abbrev degree' : String → ℕ
    degree' = (relax (out_of x edges) degree queue).0

    abbrev queue' : List String
    queue' = (relax (out_of x edges) degree queue).1

    pop-Inv : Inv (x ∷ visited) queue' degree'
    pop-Inv = record {
      inner =
          relax-Inner (x ∷ visited) (out_of x edges) degree queue
            (λ e m. (In-of_filter (λ (d : FlowEdge). d.source == x) e edges m).0) pop-Inner;
      ordered = (
        λ e m t.
            open_in-zero edges visited x e
              (omega (arith, inv.inner.counts x, inv.inner.queued x (inl refl))) m t,
        inv.ordered,
      );
      distinct = (inv.inner.fresh x (inl refl), inv.distinct);
      in_names = λ v m. elim m [
        | inl same ↦ rw same (inv.inner.in_names x (inl refl))
        | inr old ↦ inv.in_names v old
      ];
    }

  -- the loop ends within as many rounds as there are names, and keeps the invariant
  pub kahn_loop-Inv :
      (fuel : ℕ) (degree : String → ℕ) (queue visited : List String)
      → Inv visited queue degree
      → length names ≤ fuel + length visited
      → (done : List String) × (degree' : String → ℕ) × (kahn_loop fuel edges degree queue visited
          ≡ some done)
        × Inv done [] degree'
  unfolding kahn_loop
  kahn_loop-Inv zero degree [] visited inv h = (visited, degree, refl, inv)
  kahn_loop-Inv (suc fuel) degree [] visited inv h = (visited, degree, refl, inv)
  kahn_loop-Inv zero degree (x ∷ queue) visited inv h =
      let next = pop-Inv x queue visited degree inv in
      absurd (omega (arith, (Distinct-length (x ∷ visited) names next.distinct next.in_names).0))
  kahn_loop-Inv (suc fuel) degree (x ∷ queue) visited inv h =
      kahn_loop-Inv fuel (degree' x queue visited degree inv) (queue' x queue visited degree inv)
        (x ∷ visited) (pop-Inv x queue visited degree inv) (omega arith)
