-- ===== src/Callback/Created.antt =====
-- What `create_callback_wait` leaves in the tables.
use flow_demo.Base.{
  ℕ, ◌+◌, ◌≤◌, String, Option, none, some, [], ◌∷◌, ◌++◌, ◌≡◌, sym, ap, ◌∙◌, arith,
}
use flow_demo.Base.Int.{ℤ, pos, negsuc}
use flow_demo.Json.{Fields}
use flow_demo.Models.Runs.{FlowRun, NodeRun, CallbackWait, CallbackStatus}
use flow_demo.Workflow.Engine.{config_int}
use flow_demo.Callback.Auth.{passed, Crypto}
use flow_demo.Callback.Evidence.{after, passed-inj}
use flow_demo.Callback.Store.{Store}
use flow_demo.Callback.Create.{
  Texts, mode_of_text, clamp_timeout, timeout_of, filled, text_at, check_alias,
  create_callback_wait,
}

clamp_timeout-bounds : (z : ℤ) → (10 ≤ clamp_timeout z) × (clamp_timeout z ≤ 604800)
unfolding clamp_timeout
clamp_timeout-bounds (pos n) = (omega arith, omega arith)
clamp_timeout-bounds (negsuc n) = (omega arith, omega arith)

timeout_of-bounds : (o : Option ℤ) (t : ℕ) → timeout_of o ≡ passed t → (10 ≤ t) × (t ≤ 604800)
timeout_of-bounds none t h = cc
timeout_of-bounds (some z) t h =
    let e = passed-inj (clamp_timeout z) t h in
    let (low, high) = clamp_timeout-bounds z in (rw (← e) low, rw (← e) high)

-- A wait that `create_callback_wait` makes is WAITING, belongs to the run, the node and the attempt
-- it was made for, and ends at least ten seconds and at most a week from now, whatever the
-- configuration says; it is added at the end of the waits, and the runs and node runs stay.
pub create_callback_wait-bounds :
    (crypto : Crypto) (texts : Texts) (now : ℕ) (new_id : String) (run : FlowRun) (n : NodeRun)
    (config : Fields) (s t : Store) (w : CallbackWait)
    → create_callback_wait crypto texts now new_id run n config s ≡ passed (w, t)
    → (w.status ≡ CallbackStatus.waiting)
      × (w.flow_run_id ≡ run.id)
      × (w.node_run_id ≡ n.id)
      × (w.attempt_number ≡ n.attempts)
      × (now + 10 ≤ w.expires_at)
      × (w.expires_at ≤ now + 604800)
      × (t ≡ record s { waits = s.waits ++ (w ∷ []) })
unfolding create_callback_wait
create_callback_wait-bounds crypto texts now new_id run n config s t w h =
    after (mode_of_text (texts.upper (text_at texts "authMode" "CAPABILITY_URL" config))) _ (w, t) h
      (λ mode _ h₁.
        let alias = filled (texts.strip_lower (text_at texts "credentialRef" "" config)) in
        after (check_alias crypto texts s run.flow_id mode alias) _ (w, t) h₁
          (λ _ _ h₂.
            after (timeout_of (config_int "timeoutSeconds" 3600 config)) _ (w, t) h₂
              (λ timeout ok h₃.
                let (low, high) = timeout_of-bounds _ timeout ok in
                let made = passed-inj _ (w, t) h₃ in
                let is_w = ap (λ x. x.0) made in
                let ends : now + timeout ≡ w.expires_at = ap (λ x. x.expires_at) is_w in
                (
                  ap (λ x. x.status) (sym is_w),
                  ap (λ x. x.flow_run_id) (sym is_w),
                  ap (λ x. x.node_run_id) (sym is_w),
                  ap (λ x. x.attempt_number) (sym is_w),
                  omega (arith, ends, low),
                  omega (arith, ends, high),
                  ap (λ x. x.1) (sym made)
                      ∙ ap (λ (x : CallbackWait). record s { waits = s.waits ++ (x ∷ []) }) is_w,
                ))))
