-- ===== src/Tests/Credentials.antt =====
-- A credential that is rotated, used in a request, and sealed again under another key.
use flow_demo.Base.{
  ◌+◌, String, true, Option, none, some, List, [], ◌∷◌, ◌++◌, In, ◌≡◌, refl, inl, inr, ◌⊎◌, arith,
  ◌==◌, eq_iff, if◌then◌else◌, Bool-cases,
}
use flow_demo.Json.{Json, Fields, null, bool, num, str, arr, obj, end, field, get}
use flow_demo.Enums.{FlowStatus}
use flow_demo.Http.{Response, answer, http_error}
use flow_demo.Models.Identity.{User}
use flow_demo.Models.Flows.{FlowDefinition, FlowCredential, FlowCredentialRevision, CredentialType}
use flow_demo.Callback.Auth.{
  passed, Vault, InboundCredential, decrypt_secret, resolve_inbound_credential,
}
use flow_demo.Callback.Store.{Store}
use flow_demo.Flows.{Library}
use flow_demo.Credentials.{Sealer, Split, request_origin}
use flow_demo.Credentials.Define.{validate_credential_definition}
use flow_demo.Credentials.Revisions.{
  EncryptedPayload, ResolvedCredential, header_of, used_event, encrypt_secret, resolve_credential,
}
use flow_demo.Credentials.Handlers.{Office, Numbers, rotate_credential}
use flow_demo.Credentials.Vaults.{IsVault}
use flow_demo.Credentials.Changes.{rotate, act, IsNew}
use flow_demo.Credentials.Changes.Kept.{act-IsVault}
use flow_demo.Credentials.Resolved.{
  IsSealing, decrypt_secret-encrypt_secret, rotate_credential-resolves,
}
use flow_demo.Credentials.Allowed.{resolve_credential-IsAllowed}
use flow_demo.Credentials.Rotation
use flow_demo.Credentials.Rotation.Kept.{rotate-keeps}
use flow_demo.Samples.{diamond, ports}

-- a toy cipher, which seals a dictionary of one token
abbrev seal_of : Fields → Option String
seal_of (field k (str t) end) = if k == "token" then some t else none
seal_of _ = none

abbrev site : Split
site = record {
  scheme = "https";
  hostname = some "partner.test";
  username = none;
  password = none;
  path = "";
  query = "";
  fragment = "";
  port = passed none;
}

abbrev sealer : Sealer
sealer = record {
  crypto = record {
    credential_keys = λ k. some k;
    open_sealed = λ key nonce ciphertext aad. some (obj (field "token" (str ciphertext) end));
    hmac_sha256 = λ key body. key;
    decimal = λ n. "1";
    show = λ v. "";
  };
  texts = record {
    str_of = λ v. (elim v [ str s ↦ s | _ ↦ "" ]);
    upper = λ s. s;
    strip_lower = λ s. s;
  };
  active_key = "k1";
  seal = λ key nonce d aad. seal_of d;
  canonical = λ d. d;
  key_ids = "k1" ∷ "k2" ∷ [];
  is_key = λ k. true;
  strip = λ s. s;
  lower = λ s. s;
  base64 = λ s. s;
  split = λ url. passed site;
  bare = λ url. passed url;
}

seal_of-opens :
    (d : Fields) (c : String)
    → seal_of d ≡ some c
    → ◌≡◌ {A = Option Json} (some (obj (field "token" (str c) end))) (some (obj d))
seal_of-opens end c h = cc
seal_of-opens (field k null r) c h = cc
seal_of-opens (field k (bool b) r) c h = cc
seal_of-opens (field k (num n) r) c h = cc
seal_of-opens (field k (arr a) r) c h = cc
seal_of-opens (field k (obj a) r) c h = cc
seal_of-opens (field k (str t) (field a b r)) c h = cc
seal_of-opens (field k (str t) end) c h = elim (Bool-cases (k == "token")) [
  | inl e ↦
      let same : ◌≡◌ {A = Option String} (some t) (some c) = rw e at h in
      let name = (eq_iff k "token").0 e in let text : t ≡ c = cc in rw (name, text) refl
  | inr e ↦ (let bad : ◌≡◌ {A = Option String} none (some c) = rw e at h in cc)
]

law : IsSealing sealer
law = record { opens = λ key nonce d aad c h. seal_of-opens d c h; keeps = λ k s d h. h }

abbrev secret : Fields
secret = field "token" (str "new") end

abbrev payload : EncryptedPayload
payload = record { key_id = "k1"; nonce = "n"; ciphertext = "new" }

computed : Unit {0}
unfolding get encrypt_secret rotate_credential resolve_credential resolve_inbound_credential
    Rotation.rotate act IsNew
computed = tt

sealed : encrypt_secret sealer "n" secret "f" "c" 2 none ≡ passed payload
unfolding computed
sealed = refl

decrypt_secret-encrypt_secret_example :
    decrypt_secret sealer.crypto "k1" "n" "new" "f" "c" 2 ≡ passed secret
decrypt_secret-encrypt_secret_example =
    decrypt_secret-encrypt_secret sealer law "n" secret "f" "c" 2 none payload sealed

abbrev credential : FlowCredential
credential = record {
  id = "c";
  group_id = "g";
  flow_id = "f";
  alias = "partner";
  credential_type = CredentialType.bearer;
  allowed_origins = "https://partner.test" ∷ [];
  enabled = true;
  current_revision = 1;
  created_at = 0;
  updated_at = 0;
}

abbrev revision : FlowCredentialRevision
revision = record {
  id = "r1";
  credential_id = "c";
  revision = 1;
  key_id = "k1";
  nonce = "n";
  ciphertext = "old";
  created_at = 0;
}

abbrev vault : Vault
vault = record { credentials = credential ∷ []; revisions = revision ∷ [] }

abbrev root : User
root = record {
  id = "u";
  username = "root";
  password_hash = "";
  display_name = "Root";
  is_super_admin = true;
  enabled = true;
  created_at = 0;
  updated_at = 0;
}

abbrev flow : FlowDefinition
flow = record {
  id = "f";
  group_id = "g";
  name = "Flow";
  description = "";
  status = FlowStatus.active;
  draft_content = diamond;
  input_schema = end;
  config_schema = end;
  default_config = end;
  current_version = 1;
  row_version = 1;
  created_at = 0;
  updated_at = 0;
}

abbrev office : Office
office = record {
  access = record { members = []; approvers = [] };
  flows = flow ∷ [];
  versions = [];
  vault = vault;
  audits = [];
}

abbrev library : Library
library = record {
  input_schema_errors = λ d. 0;
  config_errors = λ d v. 0;
  strip_lower = λ s. s;
  registry = ports;
  fingerprint = "1";
}

abbrev numbers : Numbers
numbers = record {
  credential_id = "c2";
  fresh = record { revision_id = "r2"; nonce = "m" };
  audit = 1;
}

vault-IsVault : IsVault vault
vault-IsVault = record {
  ids = λ x y mx my e. elim mx [
    | inl ex ↦ elim my [ inl ey ↦ rw (ex, ey) refl | inr bad ↦ absurd bad ]
    | inr bad ↦ absurd bad
  ];
  named = λ x y mx my ef ea. elim mx [
    | inl ex ↦ elim my [ inl ey ↦ rw (ex, ey) refl | inr bad ↦ absurd bad ]
    | inr bad ↦ absurd bad
  ];
  bounded = λ c r mc mr e. elim mc [
    | inl ec ↦ elim mr [ inl er ↦ rw (ec, er) (omega arith) | inr bad ↦ absurd bad ]
    | inr bad ↦ absurd bad
  ];
  current =
      λ c mc. elim mc [ inl e ↦ (revision, inl refl, rw e refl, rw e refl) | inr bad ↦ absurd bad ];
}

act-IsVault_example :
    IsVault (act library sealer 5 root "g" "f" (rotate numbers "c" secret) office).vault
unfolding IsNew
act-IsVault_example =
    act-IsVault library sealer 5 root "g" "f" (rotate numbers "c" secret) office vault-IsVault tt

abbrev rotated : Response (Office × FlowCredential)
rotated = rotate_credential library sealer 5 root "g" "f" office numbers "c" secret

abbrev office_of : Response (Office × FlowCredential) → Office
office_of (answer (o, c)) = o
office_of (http_error e) = office

abbrev credential_of : Response (Office × FlowCredential) → FlowCredential
credential_of (answer (o, c)) = c
credential_of (http_error e) = credential

done : rotated ≡ answer (office_of rotated, credential_of rotated)
unfolding computed
done = refl

still_on : (credential_of rotated).enabled ≡ true
unfolding computed
still_on = refl

rotate_credential-resolves_example :
    (old : FlowCredential) × (kept : String × List String × Fields) × In old vault.credentials
    × (old.id ≡ "c")
    × (validate_credential_definition sealer old.alias old.credential_type old.allowed_origins
          secret
        ≡ passed kept)
    × (resolve_inbound_credential sealer.crypto (office_of rotated).vault "f" old.alias
        ≡ passed (record {
          alias = old.alias;
          credential_type = old.credential_type;
          revision = old.current_revision + 1;
          secret = sealer.canonical (kept.2);
        }))
rotate_credential-resolves_example =
    rotate_credential-resolves library sealer 5 root "g" "f" office (office_of rotated) numbers "c"
      secret (credential_of rotated) law vault-IsVault done still_on

abbrev tables : Store
tables = record {
  runs = [];
  node_runs = [];
  attempts = [];
  waits = [];
  events = [];
  vault = vault;
  tasks = [];
  approval_groups = [];
  variables = [];
  signals = [];
}

abbrev used : ResolvedCredential
used = record {
  alias = "partner";
  revision = 1;
  origin = "https://partner.test";
  allowed_origins = "https://partner.test" ∷ [];
  header = ("Authorization", "Bearer old");
}

abbrev tables_after : Store
tables_after = record tables {
  events = used_event sealer 3 credential 1 "https://partner.test" "run" "n" ∷ [];
}

resolved :
    resolve_credential sealer 3 "f" "partner" "https://partner.test/x" "run" "n" tables
    ≡ passed (used, tables_after)
unfolding computed
resolved = refl

resolve_credential-IsAllowed_example :
    (c : FlowCredential) × (r : FlowCredentialRevision) × (secret : Fields) × In c vault.credentials
    × (c.flow_id ≡ "f")
    × (c.alias ≡ "partner")
    × (c.enabled ≡ true)
    × (request_origin sealer "https://partner.test/x" ≡ passed used.origin)
    × In used.origin c.allowed_origins
    × In r vault.revisions
    × (r.credential_id ≡ c.id)
    × (r.revision ≡ c.current_revision)
    × (decrypt_secret sealer.crypto r.key_id r.nonce r.ciphertext c.flow_id c.id r.revision
        ≡ passed secret)
    × (header_of sealer c.credential_type secret ≡ passed used.header)
    × (tables_after ≡ record tables {
      events = tables.events ++ (used_event sealer 3 c r.revision used.origin "run" "n" ∷ []);
    })
resolve_credential-IsAllowed_example =
    resolve_credential-IsAllowed sealer 3 "f" "partner" "https://partner.test/x" "run" "n" tables
      tables_after used resolved

abbrev resealed_vault : Vault
resealed_vault = record {
  credentials = credential ∷ [];
  revisions = record revision { key_id = "k2"; nonce = "m" } ∷ [];
}

abbrev inbound : InboundCredential
inbound = record {
  alias = "partner";
  credential_type = CredentialType.bearer;
  revision = 1;
  secret = field "token" (str "old") end;
}

resealed : Rotation.rotate sealer "k2" (λ i. "m") vault ≡ passed resealed_vault
unfolding computed
resealed = refl

before : resolve_inbound_credential sealer.crypto vault "f" "partner" ≡ passed inbound
unfolding computed
before = refl

rotate-keeps_example :
    (resealed_vault.credentials ≡ vault.credentials)
    × ((resolve_inbound_credential sealer.crypto resealed_vault "f" "partner" ≡ passed inbound)
        ⊎ (resolve_inbound_credential sealer.crypto resealed_vault "f" "partner"
            ≡ passed (record inbound { secret = sealer.canonical inbound.secret })))
rotate-keeps_example =
    rotate-keeps sealer "k2" (λ i. "m") vault resealed_vault "f" "partner" inbound law vault-IsVault
      resealed before
