-- ===== src/Credentials/Resolved.antt =====
-- What is sealed can be opened, and what `rotate_credential` stores is what a callback resolves.
use flow_demo.Base.{
  ℕ, ◌+◌, ◌≤◌, String, Bool, true, false, ◌&&◌, Option, none, some, List, [], ◌∷◌, ◌++◌, find?, In,
  ◌≡◌, refl, sym, ap, ◌∙◌, inl, inr, arith, ◌==◌, eq_iff, eq_refl, eqb, Bool-cases,
}
use flow_demo.Json.{Fields, obj, str, get}
use flow_demo.Http.{answer, http_error, after, answer-inj}
use flow_demo.Models.Identity.{User}
use flow_demo.Models.Flows.{FlowCredential, FlowCredentialRevision}
use flow_demo.Permissions.{require_design}
use flow_demo.Table.{save, In-save_written, find?-only}
use flow_demo.Flows.{Library}
use flow_demo.Callback.Auth.{
  Checked, passed, value_error, crash, present, Vault, current_revision, aad, object,
  decrypt_secret, resolve_inbound_credential, ◌⁀◌,
}
use flow_demo.Callback.Evidence
use flow_demo.Callback.Evidence.{passed-inj, present-passed}
use flow_demo.Credentials.{Sealer}
use flow_demo.Credentials.Define.{validate_credential_definition}
use flow_demo.Credentials.Revisions.{
  selected, EncryptedPayload, encrypt_secret, create_revision, sealed_row,
}
use flow_demo.Credentials.Handlers.{
  Office, Numbers, checked, uncaught, own_credential, add_audit, save_credential, rotate_credential,
}
use flow_demo.Credentials.Vaults.{IsVault}
use flow_demo.Credentials.Changes.{uncaught-answer, create_revision-next, own_credential-In}
use flow_demo.Credentials.Changes.Kept.{rotate-IsVault}

-- AES-GCM opens what it sealed, under the same key, nonce and associated data, and `json.loads` of
-- `json.dumps` has the same texts under the same keys
pub record IsSealing (sl : Sealer) : Type 0 where
  pub opens :
      (key nonce : String) (d : Fields) (aad ciphertext : String)
      → sl.seal key nonce d aad ≡ some ciphertext
      → sl.crypto.open_sealed key nonce ciphertext aad ≡ some (obj (sl.canonical d))
  pub keeps :
      (k s : String) (d : Fields) → get k d ≡ some (str s) → get k (sl.canonical d) ≡ some (str s)

module _ (sl : Sealer) (law : IsSealing sl) where
  -- A secret that was encrypted is decrypted to itself, up to the order of its keys, under the same
  -- flow, credential and revision.
  pub decrypt_secret-encrypt_secret :
      (nonce : String) (d : Fields) (flow credential : String) (n : ℕ) (key : Option String)
      (e : EncryptedPayload)
      → encrypt_secret sl nonce d flow credential n key ≡ passed e
      → decrypt_secret sl.crypto e.key_id e.nonce e.ciphertext flow credential n
        ≡ passed (sl.canonical d)
  unfolding encrypt_secret decrypt_secret object
  decrypt_secret-encrypt_secret nonce d flow credential n key e h =
      let id = selected sl.active_key key in
      Evidence.after
        (present ("Credential key '" ⁀ id ⁀ "' is not configured") (sl.crypto.credential_keys id)) _
        e h
        (λ k found h₁.
          Evidence.after
            (present ("Credential key '" ⁀ id ⁀ "' is not valid base64")
              (sl.seal k nonce d (aad sl.crypto flow credential n)))
            _ e h₁
            (λ c sealed h₂.
              let made : record { key_id = id; nonce = nonce; ciphertext = c } ≡ e =
                passed-inj _ e h₂ in
              let ring : sl.crypto.credential_keys id ≡ some k = present-passed _ _ k found in
              let opened =
                law.opens k nonce d (aad sl.crypto flow credential n) c
                  (present-passed _ _ c sealed) in
              rw (← made) (rw ring (rw opened refl))))

  sealed-opens :
      (fresh : _) (now : ℕ) (c c' : FlowCredential) (secret : Fields) (r : FlowCredentialRevision)
      → create_revision sl fresh now c secret none ≡ passed (c', r)
      → decrypt_secret sl.crypto r.key_id r.nonce r.ciphertext c.flow_id c.id
          (c.current_revision + 1)
        ≡ passed (sl.canonical secret)
  unfolding create_revision
  sealed-opens fresh now c c' secret r h =
      Evidence.after
        (encrypt_secret sl fresh.nonce secret c.flow_id c.id (c.current_revision + 1) none) _
        (c', r) h
        (λ e done h₁.
          let made : sealed_row sl fresh now c (c.current_revision + 1) e ≡ r =
            ap (λ x. x.1) (passed-inj _ (c', r) h₁) in
          rw (← made) (
            decrypt_secret-encrypt_secret fresh.nonce secret c.flow_id c.id (c.current_revision + 1)
              none e done))

-- an enabled credential with a current revision that opens is resolved
resolve-known :
    (sl : Sealer) (v : Vault) (h : IsVault v) (c : FlowCredential) (r : FlowCredentialRevision)
    (d : Fields)
    → In c v.credentials
    → c.enabled ≡ true
    → find? (λ q. q.credential_id == c.id && eqb q.revision c.current_revision) v.revisions ≡ some r
    → decrypt_secret sl.crypto r.key_id r.nonce r.ciphertext c.flow_id c.id r.revision ≡ passed d
    → resolve_inbound_credential sl.crypto v c.flow_id c.alias
      ≡ passed (record {
        alias = c.alias;
        credential_type = c.credential_type;
        revision = r.revision;
        secret = d;
      })
unfolding resolve_inbound_credential current_revision
resolve-known sl v h c r d m on found opened =
    let here : find? (λ x. x.flow_id == c.flow_id && x.alias == c.alias) v.credentials ≡ some c =
      find?-only (λ x. x.id) (λ x. x.flow_id == c.flow_id && x.alias == c.alias) c v.credentials m
        (rw (eq_refl c.flow_id, eq_refl c.alias) refl)
        (λ x i fits.
          h.named x c i m ((eq_iff x.flow_id c.flow_id).0 (ground arith))
            ((eq_iff x.alias c.alias).0 (ground arith))) in
    rw here (rw on (rw found (rw opened refl)))

search-new :
    (p : FlowCredentialRevision → Bool) (rs : List FlowCredentialRevision)
    (r : FlowCredentialRevision)
    → ((x : FlowCredentialRevision) → In x rs → p x ≡ false)
    → p r ≡ true
    → find? p (rs ++ (r ∷ [])) ≡ some r
search-new p [] r miss h = rw h refl
search-new p (x ∷ rs) r miss h =
    (let out : p x ≡ false = miss x (inl refl) in
      rw out (search-new p rs r (λ y m. miss y (inr m)) h))

rotate-misses :
    (c : FlowCredential) (q : FlowCredentialRevision) (id : String) (n : ℕ)
    → id ≡ c.id
    → n ≡ c.current_revision + 1
    → (q.credential_id ≡ c.id → q.revision ≤ c.current_revision)
    → (q.credential_id == id && eqb q.revision n) ≡ false
rotate-misses c q id n same count low = elim (Bool-cases (q.credential_id == id)) [
  | inr out ↦ rw out refl
  | inl own ↦
      let at = low ((eq_iff q.credential_id id).0 own ∙ same) in rw own (ground (arith, at, count))
]

checked-answer : {A : Type 0} (m : Checked A) (a : A) → checked m ≡ answer a → m ≡ passed a
checked-answer (passed x) a h = ap passed (answer-inj x a h)
checked-answer (value_error e) a h = (let bad : http_error 422 ≡ answer a = h in cc)
checked-answer crash a h = (let bad : http_error 500 ≡ answer a = h in cc)

-- After `rotate_credential` answers, an enabled credential resolves by its flow and name to the new
-- secret, as `validate_credential_definition` keeps it and up to the order of its keys, under the next
-- revision, whatever older revisions there are.
pub rotate_credential-resolves :
    (lib : Library) (sl : Sealer) (now : ℕ) (user : User) (group flow_id : String) (o o' : Office)
    (ns : Numbers) (id : String) (secret : Fields) (c : FlowCredential)
    → IsSealing sl
    → IsVault o.vault
    → rotate_credential lib sl now user group flow_id o ns id secret ≡ answer (o', c)
    → c.enabled ≡ true
    → (old : FlowCredential) × (kept : String × List String × Fields) × In old o.vault.credentials
      × (old.id ≡ id)
      × (validate_credential_definition sl old.alias old.credential_type old.allowed_origins secret
          ≡ passed kept)
      × (resolve_inbound_credential sl.crypto o'.vault flow_id old.alias
          ≡ passed (record {
            alias = old.alias;
            credential_type = old.credential_type;
            revision = old.current_revision + 1;
            secret = sl.canonical (kept.2);
          }))
unfolding rotate_credential add_audit save_credential
rotate_credential-resolves lib sl now user group flow_id o o' ns id secret c' law h e on =
    let last : Office × FlowCredential = (o', c') in
    after (require_design o.access user group) _ last e (λ _ _ h₁.
      after (own_credential lib sl now user group flow_id o id) _ last h₁ (λ c own h₂.
        after
          (checked
            (validate_credential_definition sl c.alias c.credential_type c.allowed_origins secret))
          _ last h₂
          (λ d defined h₃.
            after (uncaught (create_revision sl ns.fresh now c (d.2) none)) _ last h₃
              (λ (made : FlowCredential × FlowCredentialRevision) done h₄.
                let ok = uncaught-answer _ made done in
                let (next, owner, number) =
                  create_revision-next sl ns.fresh now c (made.0) (d.2) (made.1) ok in
                let (stored, is_id, is_flow, _) =
                  own_credential-In lib sl now user group flow_id o id c own in
                let new : FlowCredential = record (made.0) { updated_at = now } in
                let tables : o'.vault ≡ record {
                  credentials = save (λ x. x.id) new o.vault.credentials;
                  revisions = o.vault.revisions ++ (made.1 ∷ []);
                } =
                  ap (λ x. x.0.vault) (sym (answer-inj _ last h₄)) in
                let count : new.current_revision ≡ c.current_revision + 1 =
                  ap (λ z. z.current_revision) next in
                let same_id : new.id ≡ c.id = ap (λ z. z.id) next in
                let active : new.enabled ≡ true =
                  ap (λ x. x.1.enabled) (answer-inj _ last h₄) ∙ on in
                let vault : IsVault o'.vault =
                  rotate-IsVault lib sl now user group flow_id o h ns id secret o' c' e in
                let opened = sealed-opens sl law ns.fresh now c (made.0) (d.2) (made.1) ok in
                let found : find?
                      (λ q. q.credential_id == new.id && eqb q.revision new.current_revision)
                      o'.vault.revisions
                    ≡ some (made.1) =
                  rw tables (
                    search-new
                      (λ q. q.credential_id == new.id && eqb q.revision new.current_revision)
                      o.vault.revisions (made.1)
                      (λ q i.
                        rotate-misses c q new.id new.current_revision same_id count
                          (h.bounded c q stored i))
                      (rw (owner, same_id, number, count) (rw (eq_refl c.id) (ground arith)))) in
                let resolved =
                  resolve-known sl o'.vault vault new (made.1) (sl.canonical (d.2))
                    (rw tables
                      (In-save_written (λ x. x.id) new c o.vault.credentials stored same_id))
                    active found (rw (ap (λ z. z.flow_id) next, same_id, number) opened) in
                (
                  c,
                  d,
                  stored,
                  is_id,
                  checked-answer _ d defined,
                  rw (← is_flow) (
                      rw
                        (
                          ap (λ z. z.flow_id) next,
                          ap (λ z. z.alias) next,
                          ap (λ z. z.credential_type) next,
                          number,
                        )
                        at resolved),
                )))))
