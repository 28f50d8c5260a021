-- ===== src/Callback/Create.antt =====
-- `create_callback_wait` and `callback_url` of app/callbacks.py.
use Prim.Native.Char.{code}
use flow_demo.Base.{
  ℕ, ◌+◌, String, Bool, true, false, Option, none, some, [], ◌∷◌, ◌++◌, ◌==◌, eqb, if◌then◌else◌,
  min, max,
}
use flow_demo.Base.Int.{ℤ, pos, negsuc}
use flow_demo.Json.{Json, Fields, end, get}
use flow_demo.Models.Runs.{FlowRun, NodeRun, CallbackWait, CallbackStatus, AuthMode}
use flow_demo.Models.Runs
use flow_demo.Workflow.Engine.{config_int}
use flow_demo.Callback.Auth.{
  Checked, passed, value_error, ◌>>=◌, Crypto, resolve_inbound_credential, validate_credential_type,
  ◌⁀◌,
}
use flow_demo.Callback.Store.{Store}

-- Python's functions on texts
pub record Texts : Type 0 where
  pub str_of : Json → String
  pub upper : String → String
  pub strip_lower : String → String

all_slashes : String → Bool
all_slashes String.[] = true
all_slashes (String.◌∷◌ c s) = if eqb (code c) b'/' then all_slashes s else false

-- `rstrip("/")`
rstrip_slash : String → String
unfolding all_slashes
rstrip_slash String.[] = String.[]
rstrip_slash (String.◌∷◌ c s) =
    if all_slashes (String.◌∷◌ c s) then String.[] else String.◌∷◌ c (rstrip_slash s)

-- `callback_url`, for a configured base
unfoldable pub callback_url : String → CallbackWait → String
unfolding rstrip_slash
callback_url base w = rstrip_slash base ⁀ "/api/callbacks/" ⁀ w.id

-- membership in CALLBACK_AUTH_MODES
unfoldable pub mode_of_text : String → Checked AuthMode
mode_of_text m =
    if m == "CAPABILITY_URL"
    then passed Runs.capability_url
    else if m == "BEARER"
    then passed Runs.bearer
    else if m == "API_KEY_HEADER"
    then passed Runs.api_key_header
    else if m == "HMAC_SHA256"
    then passed Runs.hmac_sha256
    else value_error ("Unsupported callback authentication mode: " ⁀ m)

-- `min(max(int(seconds), 10), 604800)`
unfoldable pub clamp_timeout : ℤ → ℕ
clamp_timeout (pos n) = min (max n 10) 604800
clamp_timeout (negsuc n) = 10

abbrev mode_text : AuthMode → String
mode_text Runs.capability_url = "CAPABILITY_URL"
mode_text Runs.bearer = "BEARER"
mode_text Runs.api_key_header = "API_KEY_HEADER"
mode_text Runs.hmac_sha256 = "HMAC_SHA256"

abbrev needs_credential : AuthMode → Bool
needs_credential Runs.capability_url = false
needs_credential _ = true

abbrev pub timeout_of : Option ℤ → Checked ℕ
timeout_of none = value_error "invalid literal for int()"
timeout_of (some n) = passed (clamp_timeout n)

-- `text or None`
abbrev pub filled : String → Option String
filled s = if s == "" then none else some s

-- `str(config.get(key, default))`
abbrev pub text_at : Texts → String → String → Fields → String
text_at lib key default config = elim (get key config) [ none ↦ default | some v ↦ lib.str_of v ]

module _ (crypto : Crypto) (lib : Texts) where
  -- the credential that is named must resolve and fit the mode
  abbrev pub check_alias : Store → String → AuthMode → Option String → Checked (Unit {0})
  check_alias s flow mode none =
      if needs_credential mode
      then value_error (mode_text mode ⁀ " callback authentication requires a credential")
      else passed tt
  check_alias s flow mode (some alias) =
      resolve_inbound_credential crypto s.vault flow alias >>= λ c.
      validate_credential_type mode c.credential_type

  -- `create_callback_wait`: the new row, under the key `new_id`, and the tables with it
  unfoldable pub create_callback_wait :
      ℕ → String → FlowRun → NodeRun → Fields → Store → Checked (CallbackWait × Store)
  unfolding mode_of_text resolve_inbound_credential validate_credential_type clamp_timeout get
  create_callback_wait now new_id run n config s =
      mode_of_text (lib.upper (text_at lib "authMode" "CAPABILITY_URL" config)) >>= λ mode.
      let alias = filled (lib.strip_lower (text_at lib "credentialRef" "" config)) in
      check_alias s run.flow_id mode alias >>= λ _.
      timeout_of (config_int "timeoutSeconds" 3600 config) >>= λ timeout.
      let w : CallbackWait = record {
        id = new_id;
        flow_run_id = run.id;
        node_run_id = n.id;
        node_id = n.node_id;
        attempt_number = n.attempts;
        status = CallbackStatus.waiting;
        auth_mode = mode;
        credential_alias = alias;
        expires_at = now + timeout;
        received_at = none;
        idempotency_key = none;
        payload = none;
        request_metadata = end;
        created_at = now;
        updated_at = now;
      } in
      passed (w, record s { waits = s.waits ++ (w ∷ []) })
