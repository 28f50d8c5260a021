-- ===== src/Callback/Receive/Delivery.antt =====
-- Sequences of requests to `receive_callback`: how often a wait is signalled.
use flow_demo.Base.{
  ℕ, ◌+◌, ◌≤◌, length, filter, String, Bool, true, false, Option, none, some, List, [], ◌∷◌, ◌++◌,
  find?-some, length-append, ◌≡◌, refl, ap, ◌∙◌, ◌⊎◌, inl, inr, arith, Bool-cases, if◌then◌else◌,
  ◌==◌, eq_iff,
}
use flow_demo.Models.Runs.{CallbackWait, CallbackStatus}
use flow_demo.Table.{save, row_at-save_self, row_at-save_ne}
use flow_demo.Callback.Store.{Store, Signal, wait_at}
use flow_demo.Callback.Expire.{Service}
use flow_demo.Callback.Receive.{Request, receive_callback}
use flow_demo.Callback.Receive.Once.{IsStep, kept, lapsed, taken, receive_callback-IsStep}

-- requests one after the other, each with its time and the wait that it names
pub record Delivery : Type 0 where
  pub callback_id : String
  pub time : ℕ
  pub request : Request

unfoldable pub receive_all : Service → List Delivery → Store → Store
unfolding receive_callback
receive_all lib [] s = s
receive_all lib (d ∷ ds) s =
    receive_all lib ds ((receive_callback lib d.time d.request d.callback_id s).0)

-- how many signals of the wait `id` were sent
unfoldable pub sent : String → Store → ℕ
sent id s = length (filter (λ g. g.callback_id == id) s.signals)

abbrev pub is_waiting : Option CallbackWait → Bool
is_waiting none = false
is_waiting (some w) = elim w.status [ CallbackStatus.waiting ↦ true | _ ↦ false ]

filter-append :
    (p : Signal → Bool) (xs ys : List Signal) → filter p (xs ++ ys) ≡ filter p xs ++ filter p ys
filter-append p [] ys = refl
filter-append p (x ∷ xs) ys = ground (arith, filter-append p xs ys)

sent-append :
    (id : String) (s t : Store) (g : Signal)
    → t.signals ≡ s.signals ++ (g ∷ [])
    → sent id t ≡ sent id s + (if g.callback_id == id then 1 else 0)
unfolding sent
sent-append id s t g e =
    let p : Signal → Bool = λ x. x.callback_id == id in
    rw
      (
        e,
        filter-append p s.signals (g ∷ []),
        length-append (filter p s.signals) (filter p (g ∷ [])),
      )
      (ground arith)

sent-same : (id : String) (s t : Store) → t.signals ≡ s.signals → sent id t ≡ sent id s
unfolding sent
sent-same id s t e = rw e refl

wait_at-id : (id : String) (s : Store) (w : CallbackWait) → wait_at s id ≡ some w → w.id ≡ id
wait_at-id id s w e = let (m, k) = find?-some (λ r. r.id == id) w s.waits e in (eq_iff w.id id).0 k

-- what a row written back does to a wait
wait_at-save :
    (id k : String) (s t : Store) (w w' : CallbackWait)
    → wait_at s k ≡ some w
    → w'.id ≡ w.id
    → t.waits ≡ save (λ x. x.id) w' s.waits
    → ((k ≡ id) × (wait_at t id ≡ some w')) ⊎ (((k == id) ≡ false) × (wait_at t id ≡ wait_at s id))
wait_at-save id k s t w w' here same rows =
    let own : w'.id ≡ k = same ∙ wait_at-id k s w here in
    elim (Bool-cases (k == id)) [
      | inl e ↦
          let e' : k ≡ id = (eq_iff k id).0 e in
          inl
            (e', rw rows (row_at-save_self (λ x. x.id) w' w id s.waits (own ∙ e') (rw (← e') here)))
      | inr ne ↦ inr (ne, rw rows (row_at-save_ne (λ x. x.id) w' id s.waits (rw own ne)))
    ]

-- a step leaves the count and the openness, or closes the wait with at most one signal more
abbrev Progress : String → Store → Store → Type 0
Progress id s t =
    ((is_waiting (wait_at t id) ≡ is_waiting (wait_at s id)) × (sent id t ≡ sent id s))
    ⊎ ((is_waiting (wait_at s id) ≡ true)
        × (is_waiting (wait_at t id) ≡ false)
        × (sent id t ≤ sent id s + 1))

module _ (id k : String) (s t : Store) (w : CallbackWait) (here : wait_at s k ≡ some w)
    (open_w : w.status ≡ CallbackStatus.waiting) where
  was_waiting : k ≡ id → is_waiting (wait_at s id) ≡ true
  was_waiting e = rw (← e, here, open_w) refl

  -- the wait that a step closes
  closes :
      (w' : CallbackWait)
      → w'.id ≡ w.id
      → is_waiting (some w') ≡ false
      → t.waits ≡ save (λ x. x.id) w' s.waits
      → sent id t ≤ sent id s + 1
      → ((k == id) ≡ false → sent id t ≡ sent id s)
      → Progress id s t
  closes w' same closed rows count other = elim (wait_at-save id k s t w w' here same rows) [
    | inl (e, now_w') ↦ inr (was_waiting e, rw now_w' closed, count)
    | inr (ne, stays) ↦ inl (ap is_waiting stays, other ne)
  ]

step-Progress :
    (lib : Service) (now : ℕ) (q : Request) (id k : String) (s t : Store)
    → IsStep lib now q k s t
    → Progress id s t
step-Progress lib now q id k s t (kept rows same) = inl (rw rows refl, sent-same id s t same)
step-Progress lib now q id k s t (lapsed w w' here open_w _ after rows same) =
    closes id k s t w here open_w w' after.id (rw after.status refl) rows
      (omega (arith, sent-same id s t same)) (λ _. sent-same id s t same)
step-Progress lib now q id k s t
      (taken w w' n r rev decoded p here _ _ open_w _ _ _ _ after _ _ _ rows (inl same)) =
    closes id k s t w here open_w w' after.id (rw after.status refl) rows
      (omega (arith, sent-same id s t same)) (λ _. sent-same id s t same)
step-Progress lib now q id k s t
      (taken w w' n r rev decoded p here _ _ open_w _ _ _ _ after _ _ _ rows
        (inr (flow, _, _, more))) =
    closes id k s t w here open_w w' after.id (rw after.status refl) rows
      (ground (arith, sent-append id s t _ more))
      (λ ne. sent-append id s t _ more ∙ rw (wait_at-id k s w here, ne) (omega arith))

at_most_once :
    (lib : Service) (ds : List Delivery) (id : String) (s : Store)
    → (sent id (receive_all lib ds s) ≤ sent id s + 1)
      × (is_waiting (wait_at s id) ≡ false → sent id (receive_all lib ds s) ≡ sent id s)
unfolding receive_all
at_most_once lib [] id s = (omega arith, λ _. refl)
at_most_once lib (d ∷ ds) id s =
    let t = (receive_callback lib d.time d.request d.callback_id s).0 in
    let (most, closed) = at_most_once lib ds id t in
    elim (step-Progress lib d.time d.request id d.callback_id s t
      (receive_callback-IsStep lib d.time d.request d.callback_id s)) [
        | inl (same, count) ↦ (omega (arith, most, count), λ c. closed (same ∙ c) ∙ count)
        | inr (was, now_closed, count) ↦
            (omega (arith, closed now_closed, count), λ c. ground (arith, was, c))
      ]

-- Whatever requests arrive, in whatever order and for whatever waits, one wait is signalled to its
-- workflow at most once more, and not at all where it is not WAITING at the start (or not there).
pub receive_all-at_most_once :
    (lib : Service) (ds : List Delivery) (id : String) (s : Store)
    → sent id (receive_all lib ds s) ≤ sent id s + (if is_waiting (wait_at s id) then 1 else 0)
receive_all-at_most_once lib ds id s =
    let (most, none_more) = at_most_once lib ds id s in
    elim (Bool-cases (is_waiting (wait_at s id))) [
      | inl open_wait ↦ rw open_wait most
      | inr closed ↦ rw closed (omega (arith, none_more closed))
    ]
