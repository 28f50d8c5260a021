-- ===== src/Credentials/Allowed.antt =====
-- Where a credential is used.
use flow_demo.Base.{
  ℕ, String, true, ◌&&◌, List, [], ◌∷◌, ◌++◌, any, find?, find?-some, In, ◌≡◌, sym, ap, ◌∙◌, inl,
  inr, arith, ◌==◌, eq_iff, Bool-cases, eqb, eqb_iff,
}
use flow_demo.Json.{Fields}
use flow_demo.Models.Flows.{FlowCredential, FlowCredentialRevision}
use flow_demo.Callback.Auth.{passed, ensure, present, current_revision, decrypt_secret, ◌⁀◌}
use flow_demo.Callback.Evidence.{after, passed-inj, present-passed, ensure-passed}
use flow_demo.Callback.Store.{Store}
use flow_demo.Credentials.{Sealer, request_origin}
use flow_demo.Credentials.Revisions.{ResolvedCredential, header_of, used_event, resolve_credential}

any-In : (s : String) (xs : List String) → any (λ x. s == x) xs ≡ true → In s xs
any-In s [] h = cc
any-In s (x ∷ xs) h = elim (Bool-cases (s == x)) [
  | inl here ↦ inl ((eq_iff s x).0 here)
  | inr out ↦ inr (any-In s xs (rw out at h))
]

-- A credential that `resolve_credential` gives a node is an enabled one of the flow, under the name
-- asked for; the origin of the request's URL is one of its allowed origins; the header is made of
-- its current revision, decrypted for this flow and credential; and the use is recorded in the
-- run's events, while nothing else changes.
pub resolve_credential-IsAllowed :
    (sl : Sealer) (now : ℕ) (flow alias url run node : String) (s t : Store)
    (used : ResolvedCredential)
    → resolve_credential sl now flow alias url run node s ≡ passed (used, t)
    → (c : FlowCredential) × (r : FlowCredentialRevision) × (secret : Fields) × In c
        s.vault.credentials
      × (c.flow_id ≡ flow)
      × (c.alias ≡ alias)
      × (c.enabled ≡ true)
      × (request_origin sl url ≡ passed used.origin)
      × In used.origin c.allowed_origins
      × In r s.vault.revisions
      × (r.credential_id ≡ c.id)
      × (r.revision ≡ c.current_revision)
      × (decrypt_secret sl.crypto r.key_id r.nonce r.ciphertext c.flow_id c.id r.revision
          ≡ passed secret)
      × (header_of sl c.credential_type secret ≡ passed used.header)
      × (t ≡ record s {
        events = s.events ++ (used_event sl now c r.revision used.origin run node ∷ []);
      })
unfolding resolve_credential current_revision
resolve_credential-IsAllowed sl now flow alias url run node s t used h =
    let last : ResolvedCredential × Store = (used, t) in
    after
      (present ("Credential '" ⁀ alias ⁀ "' does not exist for this flow")
        (find? (λ c. c.flow_id == flow && c.alias == alias) s.vault.credentials))
      _ last h
      (λ c known h₁.
        after (ensure ("Credential '" ⁀ alias ⁀ "' is disabled") c.enabled) _ last h₁ (λ u on h₂.
          after (request_origin sl url) _ last h₂ (λ origin from h₃.
            after
              (ensure ("Credential '" ⁀ alias ⁀ "' is not allowed for origin " ⁀ origin)
                (any (λ o. origin == o) c.allowed_origins))
              _ last h₃
              (λ w allowed h₄. after (current_revision s.vault c) _ last h₄ (λ r current h₅.
                after
                  (decrypt_secret sl.crypto r.key_id r.nonce r.ciphertext c.flow_id c.id r.revision)
                  _ last h₅
                  (λ secret opened h₆.
                    after (header_of sl c.credential_type secret) _ last h₆
                      (λ (header : String × String) made h₇.
                        let (stored, fits) =
                          find?-some (λ x. x.flow_id == flow && x.alias == alias) c
                            s.vault.credentials (present-passed _ _ c known) in
                        let (row, own) =
                          find?-some
                            (λ q. q.credential_id == c.id && eqb q.revision c.current_revision) r
                            s.vault.revisions (present-passed _ _ r current) in
                        let done = passed-inj _ last h₇ in
                        let is_origin : origin ≡ used.origin = ap (λ x. x.0.origin) done in
                        let is_header : header ≡ used.header = ap (λ x. x.0.header) done in
                        (
                          c,
                          r,
                          secret,
                          stored,
                          (eq_iff c.flow_id flow).0 (ground arith),
                          (eq_iff c.alias alias).0 (ground arith),
                          ensure-passed _ c.enabled u on,
                          from ∙ ap passed is_origin,
                          rw (← is_origin)
                              (any-In origin c.allowed_origins (ensure-passed _ _ w allowed)),
                          row,
                          (eq_iff r.credential_id c.id).0 (ground arith),
                          (eqb_iff r.revision c.current_revision).0 (ground arith),
                          opened,
                          made ∙ ap passed is_header,
                          rw (← is_origin) (sym (ap (λ x. x.1) done)),
                        ))))))))
