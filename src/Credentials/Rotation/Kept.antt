-- ===== src/Credentials/Rotation/Kept.antt =====
-- What is left of the secrets after `rotate`.
use flow_demo.Base.{
  ℕ, suc, String, ◌&&◌, Option, none, some, List, [], ◌∷◌, find?, find?-some, is_some, ◌≡◌, refl,
  sym, ap, ◌∙◌, inl, inr, ◌⊎◌, arith, ◌==◌, eq_iff, eq_refl, Bool-cases, eqb,
}
use flow_demo.Json.{Fields}
use flow_demo.Models.Flows.{FlowCredential, FlowCredentialRevision}
use flow_demo.Table.{row_at, find?-only}
use flow_demo.Callback.Auth.{
  passed, ensure, present, Vault, InboundCredential, current_revision, decrypt_secret,
  resolve_inbound_credential, ◌⁀◌,
}
use flow_demo.Callback.Evidence.{after, passed-inj, present-passed, ensure-passed}
use flow_demo.Credentials.{Sealer}
use flow_demo.Credentials.Revisions.{encrypt_secret}
use flow_demo.Credentials.Rotation.{validate_key_ring, resealed, reseal, reseal_all, rotate}
use flow_demo.Credentials.Vaults.{IsVault}
use flow_demo.Credentials.Resolved.{IsSealing, decrypt_secret-encrypt_secret}

-- a row and the row that takes its place
record Same (r r' : FlowCredentialRevision) : Type 0 where
  owner : r'.credential_id ≡ r.credential_id
  number : r'.revision ≡ r.revision

module _ (sl : Sealer) (law : IsSealing sl) (to : String) where
  -- the secret of a row of a credential is kept, as it is or with its keys sorted
  Opens : FlowCredential → FlowCredentialRevision → FlowCredentialRevision → Type 0
  Opens c r r' =
      (d : Fields)
      → decrypt_secret sl.crypto r.key_id r.nonce r.ciphertext c.flow_id c.id r.revision ≡ passed d
      → (decrypt_secret sl.crypto r'.key_id r'.nonce r'.ciphertext c.flow_id c.id r'.revision
          ≡ passed d)
        ⊎ (decrypt_secret sl.crypto r'.key_id r'.nonce r'.ciphertext c.flow_id c.id r'.revision
            ≡ passed (sl.canonical d))

  reseal-Same :
      (nonce : String) (r r' : FlowCredentialRevision) (o : Option FlowCredential)
      → reseal sl to nonce r o ≡ passed r'
      → Same r r'
  reseal-Same nonce r r' none h =
      (let e = passed-inj r r' h in
        record { owner = ap (λ x. x.credential_id) (sym e); number = ap (λ x. x.revision) (sym e) })
  reseal-Same nonce r r' (some c) h = elim (Bool-cases (r.key_id == to)) [
    | inl there ↦
        (let e = passed-inj r r' (rw there at h) in
          record {
            owner = ap (λ x. x.credential_id) (sym e);
            number = ap (λ x. x.revision) (sym e);
          })
    | inr away ↦
        after (decrypt_secret sl.crypto r.key_id r.nonce r.ciphertext c.flow_id c.id r.revision) _
          r' (rw away at h)
          (λ d _ h₁.
            after (encrypt_secret sl nonce d c.flow_id c.id r.revision (some to)) _ r' h₁ (λ e _ h₂.
              let made = passed-inj (resealed sl r e) r' h₂ in
              record {
                owner = ap (λ x. x.credential_id) (sym made);
                number = ap (λ x. x.revision) (sym made);
              }))
  ]

  reseal-Opens :
      (nonce : String) (r r' : FlowCredentialRevision) (c : FlowCredential)
      → reseal sl to nonce r (some c) ≡ passed r'
      → Opens c r r'
  unfolding Opens
  reseal-Opens nonce r r' c h d opened = elim (Bool-cases (r.key_id == to)) [
    | inl there ↦ (let e = passed-inj r r' (rw there at h) in inl (rw (← e) opened))
    | inr away ↦
        after (decrypt_secret sl.crypto r.key_id r.nonce r.ciphertext c.flow_id c.id r.revision) _
          r' (rw away at h)
          (λ d' opened' h₁.
            after (encrypt_secret sl nonce d' c.flow_id c.id r.revision (some to)) _ r' h₁
              (λ e done h₂.
                let made = passed-inj (resealed sl r e) r' h₂ in
                let same : d' ≡ d = passed-inj d' d (sym opened' ∙ opened) in
                inr (
                  rw (← made) (
                    decrypt_secret-encrypt_secret sl law nonce d' c.flow_id c.id r.revision
                      (some to) e done
                    ∙ ap (λ x. passed (sl.canonical x)) same))))
  ]

  -- the row that a search by credential and number finds
  reseal_all-found :
      (nonces : ℕ → String) (i : ℕ) (cs : List FlowCredential)
      (rs rs' : List FlowCredentialRevision) (k : String) (n : ℕ) (r : FlowCredentialRevision)
      → reseal_all sl to nonces i cs rs ≡ passed rs'
      → find? (λ q. q.credential_id == k && eqb q.revision n) rs ≡ some r
      → (r' : FlowCredentialRevision) × (nonce : String) × (find?
            (λ q. q.credential_id == k && eqb q.revision n)
            rs'
          ≡ some r')
        × (reseal sl to nonce r (row_at (λ c. c.id) r.credential_id cs) ≡ passed r')
  unfolding reseal_all
  reseal_all-found nonces i cs [] rs' k n r h found = cc
  reseal_all-found nonces i cs (q ∷ rs) rs' k n r h found =
      after (reseal sl to (nonces i) q (row_at (λ c. c.id) q.credential_id cs)) _ rs' h
        (λ q' one h₁. after (reseal_all sl to nonces (suc i) cs rs) _ rs' h₁ (λ rest others h₂.
          let whole : q' ∷ rest ≡ rs' = passed-inj _ rs' h₂ in
          let same = reseal-Same (nonces i) q q' _ one in
          elim (Bool-cases (q.credential_id == k && eqb q.revision n)) [
            | inl here ↦
                let own : q ≡ r = (let e : some q ≡ some r = rw here at found in cc) in
                (
                  q',
                  nonces i,
                  rw (← whole) (rw (same.owner, same.number, here) refl),
                  rw (← own) one,
                )
            | inr out ↦
                let (r', nonce, there, made) =
                  reseal_all-found nonces (suc i) cs rs rest k n r others (rw out at found) in
                (r', nonce, rw (← whole) (rw (same.owner, same.number, out) there), made)
          ]))

-- After `rotate` a credential that resolved before resolves still, to the same secret, with its keys
-- in their order or sorted, under the same type and revision, and the credentials are as before.
pub rotate-keeps :
    (sl : Sealer) (to : String) (nonces : ℕ → String) (v v' : Vault) (flow alias : String)
    (c : InboundCredential)
    → IsSealing sl
    → IsVault v
    → rotate sl to nonces v ≡ passed v'
    → resolve_inbound_credential sl.crypto v flow alias ≡ passed c
    → (v'.credentials ≡ v.credentials)
      × ((resolve_inbound_credential sl.crypto v' flow alias ≡ passed c)
          ⊎ (resolve_inbound_credential sl.crypto v' flow alias
              ≡ passed (record c { secret = sl.canonical c.secret })))
unfolding rotate resolve_inbound_credential current_revision Opens
rotate-keeps sl to nonces v v' flow alias c law h e known =
    after (validate_key_ring sl) _ v' e (λ _ _ h₁.
      after
        (ensure ("Credential key '" ⁀ to ⁀ "' is not configured")
          (is_some (sl.crypto.credential_keys to)))
        _ v' h₁
        (λ _ _ h₂.
          after (reseal_all sl to nonces 0 v.credentials v.revisions) _ v' h₂ (λ rows sealed h₃.
            let made : record v { revisions = rows } ≡ v' = passed-inj _ v' h₃ in
            after
              (present ("Credential '" ⁀ alias ⁀ "' does not exist for this flow")
                (find? (λ c. c.flow_id == flow && c.alias == alias) v.credentials))
              _ c known
              (λ row found k₁.
                after (ensure ("Credential '" ⁀ alias ⁀ "' is disabled") row.enabled) _ c k₁
                  (λ u on k₂. after (current_revision v row) _ c k₂ (λ r current k₃.
                    after
                      (decrypt_secret sl.crypto r.key_id r.nonce r.ciphertext row.flow_id row.id
                        r.revision)
                      _ c k₃
                      (λ d opened k₄.
                        let here = present-passed _ _ row found in
                        let enabled = ensure-passed _ row.enabled u on in
                        let at = present-passed _ _ r current in
                        let (stored, _) =
                          find?-some (λ x. x.flow_id == flow && x.alias == alias) row v.credentials
                            here in
                        let (_, fits) =
                          find?-some
                            (λ q. q.credential_id == row.id && eqb q.revision row.current_revision)
                            r v.revisions at in
                        let owner : r.credential_id ≡ row.id =
                          (eq_iff r.credential_id row.id).0 (ground arith) in
                        let joined : row_at (λ x. x.id) r.credential_id v.credentials ≡ some row =
                          rw owner (
                            find?-only (λ x. x.id) (λ x. x.id == row.id) row v.credentials stored
                              (eq_refl row.id)
                              (λ x i q. h.ids x row i stored ((eq_iff x.id row.id).0 q))) in
                        let (r', nonce, there, again) =
                          reseal_all-found sl law to nonces 0 v.credentials v.revisions rows row.id
                            row.current_revision r sealed at in
                        let same = reseal-Same sl law to nonce r r' _ again in
                        let number = same.number in
                        let result = passed-inj _ c k₄ in
                        (
                          ap (λ x. x.credentials) (sym made),
                          elim (reseal-Opens sl law to nonce r r' row (rw joined at again) d
                              opened) [
                                | inl kept ↦ inl (
                                    rw (← made)
                                      (rw (here, enabled, there, kept, number) (ap passed result)))
                                | inr sorted ↦ inr (
                                    rw (← made) (
                                      rw (here, enabled, there, sorted, number)
                                        (ap
                                          (λ (x : InboundCredential).
                                            passed (record x { secret = sl.canonical x.secret }))
                                          result)))
                              ],
                        ))))))))
