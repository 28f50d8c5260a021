-- ===== src/Credentials.antt =====
-- The credentials of flows in app/security/credentials.py and app/security/crypto.py: origins,
-- definitions, sealed revisions and their use in requests.
pub mod Define
pub mod Revisions
pub mod Handlers
pub mod Rotation
pub mod Allowed
pub mod Vaults
pub mod Changes
pub mod Resolved
use Prim.Native.String
use flow_demo.Base.{
  ℕ, String, Bool, true, false, not, ◌&&◌, ◌||◌, Option, none, some, List, [], ◌∷◌, ◌==◌, eqb,
  if◌then◌else◌, any,
}
use flow_demo.Json.{Fields}
use flow_demo.Callback.Auth.{Checked, passed, value_error, crash, ◌>>=◌, ◌>>◌, ensure, Crypto, ◌⁀◌}
use flow_demo.Callback.Create.{Texts}

-- what `urlsplit` finds; reading `port` may raise
pub record Split : Type 0 where
  pub scheme : String
  pub hostname : Option String
  pub username : Option String
  pub password : Option String
  pub path : String
  pub query : String
  pub fragment : String
  pub port : Checked (Option ℕ)

-- The libraries: those of the callbacks; the active key; AES-GCM with base64 and `json.dumps`, under
-- the encoded key, the nonce, the payload and the associated data (`none` where the key is not the
-- base64 of 32 bytes); a dictionary as it comes back from `json.dumps` and `json.loads`, which
-- sorts its keys; the ids of the key ring, and whether an encoded key is the base64 of 32 bytes;
-- Python's `strip` and `lower`, `b64encode` of a text, `urlsplit`, and an URL without its path,
-- query and fragment.
pub record Sealer : Type 0 where
  pub crypto : Crypto
  pub texts : Texts
  pub active_key : String
  pub seal : String → String → Fields → String → Option String
  pub canonical : Fields → Fields
  pub key_ids : List String
  pub is_key : String → Bool
  pub strip : String → String
  pub lower : String → String
  pub base64 : String → String
  pub split : String → Checked Split
  pub bare : String → Checked String

-- `bool(text)` of a text or None
abbrev is_filled_text : Option String → Bool
is_filled_text none = false
is_filled_text (some s) = not (s == "")

abbrev host_of : Option String → String
host_of none = ""
host_of (some s) = s

abbrev default_port : String → ℕ
default_port scheme = if scheme == "https" then 443 else 80

-- `parsed.port or default_port`
abbrev port_or : ℕ → Option ℕ → ℕ
port_or d none = d
port_or d (some p) = if eqb p 0 then d else p

module _ (sl : Sealer) where
  abbrev suffix : String → ℕ → String
  suffix scheme port = if eqb port (default_port scheme) then "" else ":" ⁀ sl.crypto.decimal port

  unfoldable pub normalize_origin : String → Checked String
  normalize_origin value = do
    p ← sl.split value
    ensure "Allowed origin must use http:// or https:// and include a host"
        ((p.scheme == "http" || p.scheme == "https") && is_filled_text p.hostname)
    ensure "Allowed origin cannot contain credentials or a path" (
        not (is_filled_text p.username)
        && not (is_filled_text p.password)
        && (p.path == "" || p.path == "/"))
    ensure "Allowed origin cannot contain a query or fragment" (p.query == "" && p.fragment == "")
    port ← p.port
    passed (
        p.scheme
        ⁀ "://"
        ⁀ sl.lower (host_of p.hostname)
        ⁀ suffix p.scheme (port_or (default_port p.scheme) port))

  unfoldable pub request_origin : String → Checked String
  unfolding normalize_origin
  request_origin url = sl.bare url >>= normalize_origin
