-- ===== src/Callback/Auth.antt =====
-- `verify_callback_auth` of app/callbacks.py, and what it uses of app/security/credentials.py and
-- app/security/crypto.py.
use Prim.Native.Char.{code}
use Prim.Native.String
use flow_demo.Base.{
  ℕ, String, Bool, true, false, ◌&&◌, Option, none, some, List, find?, ◌==◌, eqb, ltb,
  if◌then◌else◌,
}
use flow_demo.Json.{Json, Fields, str, obj, get}
use flow_demo.Models.Flows.{
  CredentialType, bearer, basic, api_key_header, FlowCredential, FlowCredentialRevision,
}
use flow_demo.Models.Runs.{AuthMode, CallbackWait}
use flow_demo.Models.Runs

-- a call that may raise ValueError with a text, which the callers catch, or an error that nobody
-- catches
pub data Checked {ℓ} (A : Type ℓ) : Type ℓ where
  passed : A → Checked A
  value_error : String → Checked A
  crash : Checked A

infixl 5 ◌>>=◌ ◌>>◌
abbrev pub ◌>>=◌ {ℓ κ} : {A : Type ℓ} {B : Type κ} → Checked A → (A → Checked B) → Checked B
passed a >>= f = f a
value_error e >>= f = value_error e
crash >>= f = crash

abbrev pub ◌>>◌ {ℓ} : {B : Type ℓ} → Checked (Unit {0}) → Checked B → Checked B
m >> k = m >>= λ _. k

-- `if not test: raise ValueError(text)`
abbrev pub ensure : String → Bool → Checked (Unit {0})
ensure e true = passed tt
ensure e false = value_error e

abbrev pub present {ℓ} : {A : Type ℓ} → String → Option A → Checked A
present e none = value_error e
present e (some a) = passed a

-- `d[key]`, whose KeyError nobody catches
abbrev pub item : String → Fields → Checked Json
item key d = elim (get key d) [ none ↦ crash | some v ↦ passed v ]

infixr 60 ◌⁀◌
abbrev pub ◌⁀◌ : String → String → String
s ⁀ t = String.◌++◌ s t

-- what the code takes from outside: the configured key ring, base64 with AES-GCM and `json.loads`
-- under one (key, nonce, ciphertext, associated data; `none` where one of them raises), the
-- hexadecimal HMAC-SHA256 of a body under a key, and Python's texts of numbers and other values
pub record Crypto : Type 0 where
  pub credential_keys : String → Option String
  pub open_sealed : String → String → String → String → Option Json
  pub hmac_sha256 : String → List ℕ → String
  pub decimal : ℕ → String
  pub show : Json → String

-- `InboundCredential`
pub record InboundCredential : Type 0 where
  pub alias : String
  pub credential_type : CredentialType
  pub revision : ℕ
  pub secret : Fields

-- the tables of credentials
pub record Vault : Type 0 where
  pub credentials : List FlowCredential
  pub revisions : List FlowCredentialRevision

-- `current_revision`
unfoldable pub current_revision : Vault → FlowCredential → Checked FlowCredentialRevision
current_revision v c =
    present ("Credential '" ⁀ c.alias ⁀ "' has no current secret revision")
      (find? (λ r. r.credential_id == c.id && eqb r.revision c.current_revision) v.revisions)

-- `isinstance(decoded, dict)`, or the error
unfoldable pub object : Json → Checked Fields
object (obj d) = passed d
object _ = value_error "Credential payload must be an object"

module _ (lib : Crypto) where
  -- `_aad`
  unfoldable pub aad : String → String → ℕ → String
  aad flow credential revision = "flowforge:" ⁀ flow ⁀ ":" ⁀ credential ⁀ ":" ⁀ lib.decimal revision

  -- `decrypt_secret`: whatever goes wrong inside its `try`, the key's shape included, is one error
  unfoldable pub decrypt_secret : String → String → String → String → String → ℕ → Checked Fields
  unfolding aad object
  decrypt_secret key_id nonce ciphertext flow credential revision = do
    key ← present ("Credential key '" ⁀ key_id ⁀ "' is not configured") (lib.credential_keys key_id)
    decoded ←
        present "Credential decryption failed"
          (lib.open_sealed key nonce ciphertext (aad flow credential revision))
    object decoded

  -- `resolve_inbound_credential`
  unfoldable pub resolve_inbound_credential : Vault → String → String → Checked InboundCredential
  unfolding decrypt_secret current_revision
  resolve_inbound_credential v flow alias = do
    credential ←
        present ("Credential '" ⁀ alias ⁀ "' does not exist for this flow")
          (find? (λ c. c.flow_id == flow && c.alias == alias) v.credentials)
    ensure ("Credential '" ⁀ alias ⁀ "' is disabled") credential.enabled
    r ← current_revision v credential
    secret ←
        decrypt_secret r.key_id r.nonce r.ciphertext credential.flow_id credential.id r.revision
    passed (record {
      alias = credential.alias;
      credential_type = credential.credential_type;
      revision = r.revision;
      secret = secret;
    })

-- `_validate_credential_type`
unfoldable pub validate_credential_type : AuthMode → CredentialType → Checked (Unit {0})
validate_credential_type Runs.bearer bearer = passed tt
validate_credential_type Runs.bearer _ =
    value_error "BEARER callback authentication requires a Bearer credential"
validate_credential_type Runs.api_key_header api_key_header = passed tt
validate_credential_type Runs.api_key_header _ =
    value_error "API_KEY_HEADER callback authentication requires an API key credential"
validate_credential_type Runs.hmac_sha256 basic =
    value_error "HMAC_SHA256 requires a Bearer or API key credential"
validate_credential_type _ _ = passed tt

unfoldable pub ascii : String → Bool
ascii String.[] = true
ascii (String.◌∷◌ c s) = ltb (code c) 128 && ascii s

-- `secrets.compare_digest`, which raises TypeError on texts that are not ASCII
unfoldable pub compare_digest : String → String → Checked Bool
unfolding ascii
compare_digest actual wanted =
    if ascii actual && ascii wanted then passed (actual == wanted) else crash

-- `headers.get(name, "")`
abbrev pub text_or_empty : Option String → String
text_or_empty none = ""
text_or_empty (some s) = s

-- the text of a value in an f-string
abbrev pub text : Crypto → Json → String
text lib (str s) = s
text lib v = lib.show v

-- `secret.get("prefix", "")`
abbrev pub prefix_of : Crypto → Fields → String
prefix_of lib d = elim (get "prefix" d) [ none ↦ "" | some v ↦ text lib v ]

abbrev key_name : CredentialType → String
key_name bearer = "token"
key_name _ = "value"

module _ (lib : Crypto) (headers : String → Option String) (body : List ℕ) where
  -- the header that the mode reads, and the text that it must be
  abbrev pub evidence : AuthMode → InboundCredential → Checked (String × String)
  evidence Runs.bearer c = do
    token ← item "token" c.secret
    passed ("authorization", "Bearer " ⁀ text lib token)
  evidence Runs.api_key_header c = do
    name ← item "headerName" c.secret
    value ← item "value" c.secret
    passed (text lib name, prefix_of lib c.secret ⁀ text lib value)
  evidence _ c = do
    key ← item (key_name c.credential_type) c.secret
    passed ("x-flowforge-signature", "sha256=" ⁀ lib.hmac_sha256 (text lib key) body)

  abbrev pub refusal : AuthMode → String → String
  refusal Runs.bearer name = "Valid Bearer authentication is required"
  refusal Runs.api_key_header name = "Valid " ⁀ name ⁀ " authentication is required"
  refusal _ name = "Valid X-FlowForge-Signature is required"

  abbrev pub with_credential : Vault → AuthMode → Option String → String → Checked (Option ℕ)
  with_credential v mode alias flow = do
    name ← present "Callback credential is not configured" alias
    c ← resolve_inbound_credential lib v flow name
    validate_credential_type mode c.credential_type
    wanted ← evidence mode c
    same ← compare_digest (text_or_empty (headers (wanted.0))) (wanted.1)
    ensure (refusal mode (wanted.0)) same
    passed (some c.revision)

  abbrev pub verify_mode : Vault → AuthMode → Option String → String → Checked (Option ℕ)
  verify_mode v Runs.capability_url alias flow = passed none
  verify_mode v mode alias flow = with_credential v mode alias flow

  -- `verify_callback_auth`
  unfoldable pub verify_callback_auth : Vault → CallbackWait → String → Checked (Option ℕ)
  unfolding resolve_inbound_credential validate_credential_type compare_digest
  verify_callback_auth v wait flow = verify_mode v wait.auth_mode wait.credential_alias flow
