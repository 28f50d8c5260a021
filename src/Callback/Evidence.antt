-- ===== src/Callback/Evidence.antt =====
-- What a request that `verify_callback_auth` lets through has shown.
use flow_demo.Base.{
  ℕ, String, Bool, true, false, ◌&&◌, Option, none, some, List, In, find?, find?-some, ◌≡◌, ◌≢◌,
  refl, sym, ap, ◌∙◌, ◌⊎◌, inl, inr, arith, Bool-cases, Option-cases, ◌==◌, eq_iff, eqb, eqb_iff,
}
use flow_demo.Json.{Json, Fields, get}
use flow_demo.Models.Flows.{
  FlowCredential, FlowCredentialRevision, CredentialType, bearer, basic, api_key_header,
}
use flow_demo.Models.Runs.{AuthMode, CallbackWait}
use flow_demo.Models.Runs
use flow_demo.Callback.Auth.{
  Checked, passed, value_error, crash, ◌>>=◌, ensure, present, Crypto, Vault, InboundCredential,
  current_revision, decrypt_secret, resolve_inbound_credential, validate_credential_type,
  compare_digest, ascii, text_or_empty, evidence, refusal, with_credential, verify_mode,
  verify_callback_auth, ◌⁀◌, item, text, prefix_of,
}

-- a chain that passes has passed its first call
pub after :
    {A B C : Type 0} (m : Checked A) (f : A → Checked B) (b : B)
    → (m >>= f) ≡ passed b
    → ((a : A) → m ≡ passed a → f a ≡ passed b → C)
    → C
after (passed a) f b h k = k a refl h
after (value_error e) f b h k = let bad : value_error e ≡ passed b = h in cc
after crash f b h k = let bad : crash ≡ passed b = h in cc

pub passed-inj : {A : Type 0} (a b : A) → passed a ≡ passed b → a ≡ b
passed-inj a b h = cc

and-left : (a b : Bool) → (a && b) ≡ true → a ≡ true
and-left a b h = ground arith

and-right : (a b : Bool) → (a && b) ≡ true → b ≡ true
and-right a b h = ground arith

pub present-passed :
    {A : Type 0} (e : String) (o : Option A) (a : A) → present e o ≡ passed a → o ≡ some a
present-passed e none a h = cc
present-passed e (some x) a h = cc

pub ensure-passed : (e : String) (b : Bool) (u : Unit {0}) → ensure e b ≡ passed u → b ≡ true
ensure-passed e true u h = refl
ensure-passed e false u h = cc

pub compare_digest-true : (a b : String) → compare_digest a b ≡ passed true → a ≡ b
unfolding compare_digest
compare_digest-true a b h = elim (Bool-cases (ascii a && ascii b)) [
  | inl plain ↦ (eq_iff a b).0 (let e : passed (a == b) ≡ passed true = rw plain at h in cc)
  | inr other ↦ let e : crash ≡ passed true = rw other at h in cc
]

-- an enabled credential of the flow, under that name, and its current revision, which decrypts to the
-- secret of the resolved one
abbrev pub IsOfFlow : Crypto → Vault → String → String → InboundCredential → Type 0
IsOfFlow lib v flow alias c =
    (row : FlowCredential) × (r : FlowCredentialRevision) × In row v.credentials
    × In r v.revisions
    × (r.credential_id ≡ row.id)
    × (r.revision ≡ row.current_revision)
    × (decrypt_secret lib r.key_id r.nonce r.ciphertext row.flow_id row.id r.revision
        ≡ passed c.secret)
    × (c.revision ≡ r.revision)
    × (row.flow_id ≡ flow)
    × (row.alias ≡ alias)
    × (row.enabled ≡ true)
    × (c.alias ≡ alias)
    × (c.credential_type ≡ row.credential_type)

resolve-IsOfFlow :
    (lib : Crypto) (v : Vault) (flow alias : String) (c : InboundCredential)
    → resolve_inbound_credential lib v flow alias ≡ passed c
    → IsOfFlow lib v flow alias c
unfolding resolve_inbound_credential current_revision
resolve-IsOfFlow lib v flow alias c h =
    after {B = InboundCredential}
      (present ("Credential '" ⁀ alias ⁀ "' does not exist for this flow")
        (find? (λ x. x.flow_id == flow && x.alias == alias) v.credentials))
      _ c h
      (λ row found h₁.
        after {B = InboundCredential}
          (ensure ("Credential '" ⁀ alias ⁀ "' is disabled") row.enabled) _ c h₁
          (λ u on h₂. after {B = InboundCredential} (current_revision v row) _ c h₂ (λ r current h₃.
            after {B = InboundCredential}
              (decrypt_secret lib r.key_id r.nonce r.ciphertext row.flow_id row.id r.revision) _ c
              h₃
              (λ secret opened h₄.
                let (m, k) =
                  find?-some (λ x. x.flow_id == flow && x.alias == alias) row v.credentials
                    (present-passed ("Credential '" ⁀ alias ⁀ "' does not exist for this flow") _
                      row found) in
                let named =
                  (eq_iff row.alias alias).0
                    (and-right (row.flow_id == flow) (row.alias == alias) k) in
                let made =
                  passed-inj
                    (record {
                      alias = row.alias;
                      credential_type = row.credential_type;
                      revision = r.revision;
                      secret = secret;
                    })
                    c h₄ in
                let (stored, own) =
                  find?-some (λ q. q.credential_id == row.id && eqb q.revision row.current_revision)
                    r v.revisions (present-passed _ _ r current) in
                (
                  row,
                  r,
                  m,
                  stored,
                  (eq_iff r.credential_id row.id).0 (ground arith),
                  (eqb_iff r.revision row.current_revision).0 (ground arith),
                  opened ∙ ap (λ x. passed x.secret) made,
                  ap (λ x. x.revision) (sym made),
                  (eq_iff row.flow_id flow).0
                      (and-left (row.flow_id == flow) (row.alias == alias) k),
                  named,
                  ensure-passed ("Credential '" ⁀ alias ⁀ "' is disabled") row.enabled u on,
                  ap (λ x. x.alias) (sym made) ∙ named,
                  ap (λ x. x.credential_type) (sym made),
                )))))

item-passed : (key : String) (d : Fields) (x : Json) → item key d ≡ passed x → get key d ≡ some x
item-passed key d x h = elim (Option-cases (get key d)) [
  | inl gone ↦ let e : crash ≡ passed x = rw (gone, item) at h in cc
  | inr (y, there) ↦
      let e : passed y ≡ passed x = rw (there, item) at h in there ∙ ap some (passed-inj y x e)
]

module _ (lib : Crypto) (headers : String → Option String) (body : List ℕ) where
  -- the header that the mode reads holds what the secret demands, from a credential of a fitting type
  abbrev pub IsCarried : AuthMode → InboundCredential → Type 0
  IsCarried Runs.capability_url c = ⊥
  IsCarried Runs.bearer c =
      (token : Json) × (c.credential_type ≡ bearer)
      × (get "token" c.secret ≡ some token)
      × (text_or_empty (headers "authorization") ≡ "Bearer " ⁀ text lib token)
  IsCarried Runs.api_key_header c =
      (name : Json) × (value : Json) × (c.credential_type ≡ api_key_header)
      × (get "headerName" c.secret ≡ some name)
      × (get "value" c.secret ≡ some value)
      × (text_or_empty (headers (text lib name)) ≡ prefix_of lib c.secret ⁀ text lib value)
  IsCarried Runs.hmac_sha256 c =
      (key : Json) × (((c.credential_type ≡ bearer) × (get "token" c.secret ≡ some key))
        ⊎ ((c.credential_type ≡ api_key_header) × (get "value" c.secret ≡ some key)))
      × (text_or_empty (headers "x-flowforge-signature")
          ≡ "sha256=" ⁀ lib.hmac_sha256 (text lib key) body)

  key-held :
      (key : Json) (wanted : String × String)
      → passed ("x-flowforge-signature", "sha256=" ⁀ lib.hmac_sha256 (text lib key) body)
        ≡ passed wanted
      → text_or_empty (headers (wanted.0)) ≡ wanted.1
      → text_or_empty (headers "x-flowforge-signature")
        ≡ "sha256=" ⁀ lib.hmac_sha256 (text lib key) body
  key-held key wanted h held = let same = passed-inj _ wanted h in rw (← same) at held

  evidence-IsCarried :
      (mode : AuthMode) (alias : String) (type : CredentialType) (revision : ℕ) (secret : Fields)
      (wanted : String × String) (u : Unit {0})
      → mode ≢ Runs.capability_url
      → validate_credential_type mode type ≡ passed u
      → evidence lib headers body mode
          (record { alias = alias; credential_type = type; revision = revision; secret = secret })
        ≡ passed wanted
      → text_or_empty (headers (wanted.0)) ≡ wanted.1
      → IsCarried mode
          (record { alias = alias; credential_type = type; revision = revision; secret = secret })
  unfolding validate_credential_type
  evidence-IsCarried Runs.capability_url alias type revision secret wanted u asks fits needed held =
      absurd (asks refl)
  evidence-IsCarried Runs.bearer alias bearer revision secret wanted u asks fits needed held =
      after (item "token" secret) _ wanted needed (λ token got h.
        let same = passed-inj ("authorization", "Bearer " ⁀ text lib token) wanted h in
        (token, refl, item-passed "token" secret token got, rw (← same) at held))
  evidence-IsCarried Runs.bearer alias basic revision secret wanted u asks fits needed held = cc
  evidence-IsCarried Runs.bearer alias api_key_header revision secret wanted u asks fits needed
        held =
      cc
  evidence-IsCarried Runs.api_key_header alias api_key_header revision secret wanted u asks fits
        needed held =
      after (item "headerName" secret) _ wanted needed (λ name named h.
        after (item "value" secret) _ wanted h (λ value got h₂.
          let same = passed-inj (text lib name, prefix_of lib secret ⁀ text lib value) wanted h₂ in
          (
            name,
            value,
            refl,
            item-passed "headerName" secret name named,
            item-passed "value" secret value got,
            rw (← same) at held,
          )))
  evidence-IsCarried Runs.api_key_header alias bearer revision secret wanted u asks fits needed
        held =
      cc
  evidence-IsCarried Runs.api_key_header alias basic revision secret wanted u asks fits needed
        held =
      cc
  evidence-IsCarried Runs.hmac_sha256 alias bearer revision secret wanted u asks fits needed held =
      after (item "token" secret) _ wanted needed (λ key got h.
        (key, inl (refl, item-passed "token" secret key got), key-held key wanted h held))
  evidence-IsCarried Runs.hmac_sha256 alias api_key_header revision secret wanted u asks fits needed
        held =
      after (item "value" secret) _ wanted needed (λ key got h.
        (key, inr (refl, item-passed "value" secret key got), key-held key wanted h held))
  evidence-IsCarried Runs.hmac_sha256 alias basic revision secret wanted u asks fits needed held =
      cc

module _ (lib : Crypto) (headers : String → Option String) (body : List ℕ) (v : Vault) where
  -- the proof that a request carries for a wait, by the wait's authentication mode
  abbrev pub IsProof : AuthMode → Option String → String → Option ℕ → Type 0
  IsProof mode alias flow revision =
      ((mode ≡ Runs.capability_url) × (revision ≡ none))
      ⊎ ((name : String) × (c : InboundCredential) × (alias ≡ some name)
          × IsOfFlow lib v flow name c
          × IsCarried lib headers body mode c
          × (revision ≡ some c.revision))

  with_credential-IsProof :
      (mode : AuthMode) (alias : Option String) (flow : String) (revision : Option ℕ)
      → mode ≢ Runs.capability_url
      → with_credential lib headers body v mode alias flow ≡ passed revision
      → IsProof mode alias flow revision
  with_credential-IsProof mode alias flow revision asks h =
      after (present "Callback credential is not configured" alias) _ revision h (λ name named h₁.
        after (resolve_inbound_credential lib v flow name) _ revision h₁ (λ c found h₂.
          after (validate_credential_type mode c.credential_type) _ revision h₂ (λ u' fits h₃.
            after (evidence lib headers body mode c) _ revision h₃ (λ wanted needed h₄.
              after (compare_digest (text_or_empty (headers (wanted.0))) (wanted.1)) _ revision h₄
                (λ same compared h₅.
                  after (ensure (refusal lib headers body mode (wanted.0)) same) _ revision h₅
                    (λ u ok h₆.
                      let yes : same ≡ true = ensure-passed _ _ u ok in
                      inr (
                        name,
                        c,
                        present-passed _ _ name named,
                        resolve-IsOfFlow lib v flow name c found,
                        evidence-IsCarried lib headers body mode c.alias c.credential_type
                            c.revision c.secret wanted u' asks fits needed
                            (compare_digest-true _ _ (rw yes at compared)),
                        sym (passed-inj _ revision h₆),
                      )))))))

  verify_mode-IsProof :
      (mode : AuthMode) (alias : Option String) (flow : String) (revision : Option ℕ)
      → verify_mode lib headers body v mode alias flow ≡ passed revision
      → IsProof mode alias flow revision
  verify_mode-IsProof Runs.capability_url alias flow revision h =
      inl (refl, sym (passed-inj none revision h))
  verify_mode-IsProof Runs.bearer alias flow revision h =
      with_credential-IsProof _ alias flow revision (λ e. cc e) h
  verify_mode-IsProof Runs.api_key_header alias flow revision h =
      with_credential-IsProof _ alias flow revision (λ e. cc e) h
  verify_mode-IsProof Runs.hmac_sha256 alias flow revision h =
      with_credential-IsProof _ alias flow revision (λ e. cc e) h

  -- A request is let through only where the wait asks for nothing but its address, or an enabled
  -- credential of the same flow, with the alias that the wait names and of a type that fits the mode,
  -- is stored, its current revision decrypts to a secret, and the header that the mode reads holds
  -- what this secret demands: `Bearer` and the token, the prefix and the value in the header that the
  -- secret names, or the signature of this body under the token or the value; the revision reported is
  -- the credential's current one.
  pub verify_callback_auth-IsProof :
      (w : CallbackWait) (flow : String) (revision : Option ℕ)
      → verify_callback_auth lib headers body v w flow ≡ passed revision
      → IsProof w.auth_mode w.credential_alias flow revision
  unfolding verify_callback_auth
  verify_callback_auth-IsProof w flow revision h =
      verify_mode-IsProof w.auth_mode w.credential_alias flow revision h
