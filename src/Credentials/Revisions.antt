-- ===== src/Credentials/Revisions.antt =====
-- `encrypt_secret` of app/security/crypto.py, `create_revision` and `resolve_credential` of
-- app/security/credentials.py.
use flow_demo.Base.{
  ℕ, zero, suc, ◌+◌, String, ◌&&◌, Option, none, some, List, [], ◌∷◌, ◌++◌, find?, any, ◌==◌,
  if◌then◌else◌,
}
use flow_demo.Base.Int.{pos}
use flow_demo.Json.{Fields, str, num, field, end, get}
use flow_demo.Models.Flows.{
  CredentialType, bearer, basic, api_key_header, FlowCredential, FlowCredentialRevision,
}
use flow_demo.Models.Runs.{FlowEvent}
use flow_demo.Callback.Auth.{
  Checked, passed, ◌>>=◌, ◌>>◌, ensure, present, item, current_revision, aad, decrypt_secret, text,
  prefix_of, ◌⁀◌,
}
use flow_demo.Callback.Store.{Store}
use flow_demo.Credentials.{Sealer, request_origin}

-- `EncryptedPayload`
pub record EncryptedPayload : Type 0 where
  pub key_id : String
  pub nonce : String
  pub ciphertext : String

-- the new keys and the nonce of a revision
pub record Fresh : Type 0 where
  pub revision_id : String
  pub nonce : String

-- `ResolvedCredential`, with its one header
pub record ResolvedCredential : Type 0 where
  pub alias : String
  pub revision : ℕ
  pub origin : String
  pub allowed_origins : List String
  pub header : String × String

-- `key_id or configured.active_credential_key_id`
abbrev pub selected : String → Option String → String
selected active none = active
selected active (some k) = if k == "" then active else k

-- `revision or credential.current_revision + 1`
abbrev pub number_of : ℕ → Option ℕ → ℕ
number_of current none = current + 1
number_of current (some zero) = current + 1
number_of current (some (suc n)) = suc n

module _ (sl : Sealer) where
  -- `encrypt_secret`, under the nonce
  unfoldable pub encrypt_secret :
      String → Fields → String → String → ℕ → Option String → Checked EncryptedPayload
  unfolding aad
  encrypt_secret nonce payload flow credential revision key_id =
      let id = selected sl.active_key key_id in
      present ("Credential key '" ⁀ id ⁀ "' is not configured") (sl.crypto.credential_keys id)
      >>= λ key.
          present ("Credential key '" ⁀ id ⁀ "' is not valid base64")
            (sl.seal key nonce payload (aad sl.crypto flow credential revision))
          >>= λ ciphertext. passed (record { key_id = id; nonce = nonce; ciphertext = ciphertext })

  abbrev pub sealed_row : Fresh → ℕ → FlowCredential → ℕ → EncryptedPayload → FlowCredentialRevision
  sealed_row fresh now c n e = record {
    id = fresh.revision_id;
    credential_id = c.id;
    revision = n;
    key_id = e.key_id;
    nonce = e.nonce;
    ciphertext = e.ciphertext;
    created_at = now;
  }

  -- `create_revision`: the credential with its new number, and the new row
  unfoldable pub create_revision :
      Fresh
      → ℕ
      → FlowCredential
      → Fields
      → Option ℕ
      → Checked (FlowCredential × FlowCredentialRevision)
  unfolding encrypt_secret
  create_revision fresh now c secret revision =
      let n = number_of c.current_revision revision in
      encrypt_secret fresh.nonce secret c.flow_id c.id n none >>= λ e.
      passed (record c { current_revision = n }, sealed_row fresh now c n e)

  -- the header that a request carries
  abbrev pub header_of : CredentialType → Fields → Checked (String × String)
  header_of bearer d =
      item "token" d >>= λ t. passed ("Authorization", "Bearer " ⁀ text sl.crypto t)
  header_of basic d = item "username" d >>= λ u. item "password" d >>= λ p.
      passed ("Authorization", "Basic " ⁀ sl.base64 (text sl.crypto u ⁀ ":" ⁀ text sl.crypto p))
  header_of api_key_header d = item "headerName" d >>= λ n.
      item "value" d >>= λ v. passed (text sl.crypto n, prefix_of sl.crypto d ⁀ text sl.crypto v)

  abbrev pub used_event : ℕ → FlowCredential → ℕ → String → String → String → FlowEvent
  used_event now c revision origin run node = record {
    group_id = some c.group_id;
    flow_run_id = run;
    node_id = some node;
    event_type = "CREDENTIAL_USED";
    payload =
        field "alias" (str c.alias)
          (field "revision" (num (pos revision)) (field "origin" (str origin) end));
    created_at = now;
  }

  unfoldable pub resolve_credential :
      ℕ → String → String → String → String → String → Store → Checked (ResolvedCredential × Store)
  unfolding request_origin current_revision decrypt_secret get
  resolve_credential now flow alias url run node s = do
    c ←
        present ("Credential '" ⁀ alias ⁀ "' does not exist for this flow")
          (find? (λ c. c.flow_id == flow && c.alias == alias) s.vault.credentials)
    ensure ("Credential '" ⁀ alias ⁀ "' is disabled") c.enabled
    origin ← request_origin sl url
    ensure ("Credential '" ⁀ alias ⁀ "' is not allowed for origin " ⁀ origin)
        (any (λ o. origin == o) c.allowed_origins)
    r ← current_revision s.vault c
    secret ← decrypt_secret sl.crypto r.key_id r.nonce r.ciphertext c.flow_id c.id r.revision
    header ← header_of c.credential_type secret
    passed (
      record {
        alias = c.alias;
        revision = r.revision;
        origin = origin;
        allowed_origins = c.allowed_origins;
        header = header;
      },
      record s { events = s.events ++ (used_event now c r.revision origin run node ∷ []) },
    )
