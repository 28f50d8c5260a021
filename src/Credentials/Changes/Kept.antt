-- ===== src/Credentials/Changes/Kept.antt =====
-- Every handler of credentials keeps the tables well-formed.
use flow_demo.Base.{
  ℕ, ◌+◌, String, not, ◌&&◌, none, List, [], ◌∷◌, ◌++◌, any, ◌≡◌, refl, sym, ap, ◌∙◌, subst, inl,
  inr, arith, ◌==◌, eq_iff, append-nil,
}
use flow_demo.Json.{Fields}
use flow_demo.Http.{Response, answer, http_error, require, after, answer-inj, require-answer}
use flow_demo.Models.Identity.{User}
use flow_demo.Models.Flows.{FlowCredential, FlowCredentialRevision}
use flow_demo.Permissions.{require_design}
use flow_demo.Table.{save}
use flow_demo.Flows.{Library, flow_or_404}
use flow_demo.Credentials.{Sealer}
use flow_demo.Credentials.Define.{validate_credential_definition}
use flow_demo.Credentials.Revisions.{create_revision}
use flow_demo.Credentials.Handlers.{
  Office, shop, CredentialCreate, CredentialUpdate, checked, uncaught, credential_is_referenced,
  new_credential, enabled_or, origins_or, Numbers, own_credential, save_credential, add_audit,
  create_credential, rotate_credential, update_credential, delete_credential,
}
use flow_demo.Credentials.Vaults.{IsVault, changed-IsVault, added-IsVault, removed-IsVault}
use flow_demo.Credentials.Changes.{
  Action, create, rotate, update, delete, outcome, outcome_of, act, IsNew, uncaught-answer,
  create_revision-next, none_passes, own_credential-In,
}

outcome-keeps :
    (o : Office) (m : Response (Office × FlowCredential))
    → IsVault o.vault
    → ((o' : Office) (c : FlowCredential) → m ≡ answer (o', c) → IsVault o'.vault)
    → IsVault (outcome o m).vault
outcome-keeps o (answer (o', c)) h k = k o' c refl
outcome-keeps o (http_error e) h k = h

outcome_of-keeps :
    (o : Office) (m : Response Office)
    → IsVault o.vault
    → ((o' : Office) → m ≡ answer o' → IsVault o'.vault)
    → IsVault (outcome_of o m).vault
outcome_of-keeps o (answer o') h k = k o' refl
outcome_of-keeps o (http_error e) h k = h

module _ (lib : Library) (sl : Sealer) (now : ℕ) (user : User) (group flow_id : String) (o : Office)
    (h : IsVault o.vault) where
  create-IsVault :
      (ns : Numbers) (p : CredentialCreate) (o' : Office) (c : FlowCredential)
      → IsNew (create ns p) o.vault
      → create_credential lib sl now user group flow_id o ns p ≡ answer (o', c)
      → IsVault o'.vault
  unfolding create_credential IsNew add_audit
  create-IsVault ns p o' c (new_id, new_owner) e =
      let last : Office × FlowCredential = (o', c) in
      after (flow_or_404 (shop o) group flow_id) _ last e (λ f _ h₁.
        after (require_design o.access user group) _ last h₁ (λ _ _ h₂.
          after
            (checked (validate_credential_definition sl p.alias p.type p.allowed_origins p.secret))
            _ last h₂
            (λ d _ h₃.
              let row = new_credential now ns.credential_id f group (d.0) p.type (d.1) in
              after
                (require (not (any (λ c. c.flow_id == f.id && c.alias == d.0) o.vault.credentials))
                  500)
                _ last h₃
                (λ u free h₄.
                  after (uncaught (create_revision sl ns.fresh now row (d.2) none)) _ last h₄
                    (λ (made : FlowCredential × FlowCredentialRevision) done h₅.
                      let (next, owner, number) =
                        create_revision-next sl ns.fresh now row (made.0) (d.2) (made.1)
                          (uncaught-answer _ made done) in
                      let tables : o'.vault ≡ record {
                        credentials = o.vault.credentials ++ (made.0 ∷ []);
                        revisions = o.vault.revisions ++ (made.1 ∷ []);
                      } =
                        ap (λ x. x.0.vault) (sym (answer-inj _ last h₅)) in
                      let none_named = require-answer _ 500 u free in
                      subst IsVault (sym tables) (
                        added-IsVault o.vault (made.0) (made.1) h
                          (λ x i q. new_id x i (q ∙ ap (λ z. z.id) next))
                          (λ q i r. new_owner q i (r ∙ ap (λ z. z.id) next))
                          (λ x i ef ea.
                            (let out =
                                none_passes (λ c. c.flow_id == f.id && c.alias == d.0)
                                  o.vault.credentials x (ground arith) i in
                              let flow =
                                (eq_iff x.flow_id f.id).1 (ef ∙ ap (λ z. z.flow_id) next) in
                              let name = (eq_iff x.alias (d.0)).1 (ea ∙ ap (λ z. z.alias) next) in
                              cc (rw (flow, name) at out)))
                          (owner ∙ ap (λ z. z.id) (sym next))
                          (number ∙ ap (λ z. z.current_revision) (sym next))))))))

  pub rotate-IsVault :
      (ns : Numbers) (id : String) (secret : Fields) (o' : Office) (c : FlowCredential)
      → rotate_credential lib sl now user group flow_id o ns id secret ≡ answer (o', c)
      → IsVault o'.vault
  unfolding rotate_credential add_audit save_credential
  rotate-IsVault ns id secret o' c' e =
      let last : Office × FlowCredential = (o', c') in
      after (require_design o.access user group) _ last e (λ _ _ h₁.
        after (own_credential lib sl now user group flow_id o id) _ last h₁ (λ c own h₂.
          after
            (checked (
              validate_credential_definition sl c.alias c.credential_type c.allowed_origins secret))
            _ last h₂
            (λ d _ h₃.
              after (uncaught (create_revision sl ns.fresh now c (d.2) none)) _ last h₃
                (λ (made : FlowCredential × FlowCredentialRevision) done h₄.
                  let (next, owner, number) =
                    create_revision-next sl ns.fresh now c (made.0) (d.2) (made.1)
                      (uncaught-answer _ made done) in
                  let new : FlowCredential = record (made.0) { updated_at = now } in
                  let tables : o'.vault ≡ record {
                    credentials = save (λ x. x.id) new o.vault.credentials;
                    revisions = o.vault.revisions ++ (made.1 ∷ []);
                  } =
                    ap (λ x. x.0.vault) (sym (answer-inj _ last h₄)) in
                  let count : new.current_revision ≡ c.current_revision + 1 =
                    ap (λ z. z.current_revision) next in
                  subst IsVault (sym tables) (
                    changed-IsVault o.vault c new (made.1 ∷ []) h
                      (own_credential-In lib sl now user group flow_id o id c own).0
                      (record {
                        id = ap (λ z. z.id) next;
                        flow = ap (λ z. z.flow_id) next;
                        alias = ap (λ z. z.alias) next;
                        number = omega (arith, count);
                        rows = λ r m. elim m [
                          | inl q ↦ (
                            ap (λ z. z.credential_id) q ∙ owner,
                            (let at : r.revision ≡ c.current_revision + 1 =
                                  ap (λ z. z.revision) q ∙ number in
                                omega (arith, at, count)),
                          )
                          | inr bad ↦ absurd bad
                        ];
                        current = inr (made.1, inl refl, owner, number ∙ sym count);
                      }))))))

  update-IsVault :
      (ns : Numbers) (id : String) (p : CredentialUpdate) (o' : Office) (c : FlowCredential)
      → update_credential lib sl now user group flow_id o ns id p ≡ answer (o', c)
      → IsVault o'.vault
  unfolding update_credential add_audit save_credential
  update-IsVault ns id p o' c' e =
      let last : Office × FlowCredential = (o', c') in
      after (require_design o.access user group) _ last e (λ _ _ h₁.
        after (own_credential lib sl now user group flow_id o id) _ last h₁ (λ c own h₂.
          after (checked (origins_or sl c.allowed_origins p.allowed_origins)) _ last h₂
            (λ origins _ h₃.
              let new : FlowCredential = record c {
                allowed_origins = origins;
                enabled = enabled_or c.enabled p.enabled;
                updated_at = now;
              } in
              let tables : o'.vault ≡ record {
                credentials = save (λ x. x.id) new o.vault.credentials;
                revisions = o.vault.revisions;
              } =
                ap (λ x. x.0.vault) (sym (answer-inj _ last h₃)) in
              subst IsVault
                (ap
                    (λ (rs : List FlowCredentialRevision). record {
                      credentials = save (λ x. x.id) new o.vault.credentials;
                      revisions = rs;
                    })
                    (append-nil o.vault.revisions)
                  ∙ sym tables)
                (changed-IsVault o.vault c new [] h
                  (own_credential-In lib sl now user group flow_id o id c own).0
                  (record {
                    id = refl;
                    flow = refl;
                    alias = refl;
                    number = omega arith;
                    rows = λ r m. absurd m;
                    current = inl refl;
                  })))))

  delete-IsVault :
      (id : String) (o' : Office)
      → delete_credential lib sl now user group flow_id o id ≡ answer o'
      → IsVault o'.vault
  unfolding delete_credential
  delete-IsVault id o' e = after (require_design o.access user group) _ o' e (λ _ _ h₁.
      after (flow_or_404 (shop o) group flow_id) _ o' h₁ (λ f _ h₂.
        after (own_credential lib sl now user group flow_id o id) _ o' h₂ (λ c own h₃.
          after (require (not (credential_is_referenced lib o f c.alias)) 409) _ o' h₃ (λ _ _ h₄.
            subst IsVault (ap (λ x. x.vault) (answer-inj _ o' h₄))
              (removed-IsVault o.vault c.id h)))))

-- No request to the handlers of credentials, whatever they answer, breaks the tables of credentials: a
-- key keeps one credential, a flow one credential under a name, the revisions of a credential stay
-- numbered up to its current one, and its current one stays there. Where a credential is
-- created its key is new.
pub act-IsVault :
    (lib : Library) (sl : Sealer) (now : ℕ) (user : User) (group flow_id : String) (a : Action)
    (o : Office)
    → IsVault o.vault
    → IsNew a o.vault
    → IsVault (act lib sl now user group flow_id a o).vault
unfolding act
act-IsVault lib sl now user group flow_id (create ns p) o h new =
    outcome-keeps o _ h (λ o' c. create-IsVault lib sl now user group flow_id o h ns p o' c new)
act-IsVault lib sl now user group flow_id (rotate ns id d) o h new =
    outcome-keeps o _ h (rotate-IsVault lib sl now user group flow_id o h ns id d)
act-IsVault lib sl now user group flow_id (update ns id p) o h new =
    outcome-keeps o _ h (update-IsVault lib sl now user group flow_id o h ns id p)
act-IsVault lib sl now user group flow_id (delete id) o h new =
    outcome_of-keeps o _ h (delete-IsVault lib sl now user group flow_id o h id)
