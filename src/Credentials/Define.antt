-- ===== src/Credentials/Define.antt =====
-- `validate_credential_definition` of app/security/credentials.py.
use Prim.Native.Char.{code}
use Prim.Native.String
use flow_demo.Base.{
  ℕ, String, Bool, true, false, not, ◌&&◌, ◌||◌, List, [], ◌∷◌, ◌==◌, eqb, leb, any, filter,
}
use flow_demo.Json.{Fields, str, field, end, get}
use flow_demo.Models.Flows.{CredentialType, bearer, basic, api_key_header}
use flow_demo.Workflow.Sorted.{sorted}
use flow_demo.Callback.Auth.{Checked, passed, ◌>>=◌, ◌>>◌, ensure}
use flow_demo.Callback.Create.{text_at}
use flow_demo.Credentials.{Sealer, normalize_origin}

abbrev between : ℕ → ℕ → ℕ → Bool
between a b c = leb a c && leb c b

alias_rest : String → Bool
alias_rest String.[] = true
alias_rest (String.◌∷◌ c s) =
    (between b'a' b'z' (code c) || between b'0' b'9' (code c) || eqb (code c) b'_') && alias_rest s

-- `ALIAS_PATTERN.fullmatch`
unfoldable pub is_alias : String → Bool
unfolding alias_rest
is_alias String.[] = false
is_alias (String.◌∷◌ c s) =
    between b'a' b'z' (code c) && alias_rest s && leb 1 (String.count s) && leb (String.count s) 99

header_chars : List ℕ
header_chars =
    b'!' ∷ b'#' ∷ b'$' ∷ b'%' ∷ b'&' ∷ 39 ∷ b'*' ∷ b'+' ∷ b'.' ∷ b'^' ∷ b'_' ∷ b'`' ∷ b'|' ∷ b'~'
    ∷ b'-' ∷ []

header_rest : String → Bool
unfolding header_chars
header_rest String.[] = true
header_rest (String.◌∷◌ c s) =
    (between b'0' b'9' (code c)
      || between b'A' b'Z' (code c)
      || between b'a' b'z' (code c)
      || any (eqb (code c)) header_chars)
    && header_rest s

-- `HEADER_PATTERN.fullmatch`
unfoldable pub is_header : String → Bool
unfolding header_rest
is_header String.[] = false
is_header (String.◌∷◌ c s) = header_rest (String.◌∷◌ c s)

-- FORBIDDEN_HEADERS
abbrev pub forbidden_headers : List String
forbidden_headers = "host" ∷ "content-length" ∷ "cookie" ∷ "set-cookie" ∷ "connection" ∷ []

-- a list of texts as a set
unfoldable pub unique : List String → List String
unique [] = []
unique (x ∷ xs) = x ∷ filter (λ y. not (x == y)) (unique xs)

module _ (sl : Sealer) where
  abbrev value_of : String → Fields → String
  value_of key d = text_at sl.texts key "" d

  -- the secret that is kept, by the type
  unfoldable pub validated : CredentialType → Fields → Checked Fields
  unfolding is_header get
  validated bearer d =
      let token = sl.strip (value_of "token" d) in
      ensure "Bearer token is required" (not (token == ""))
      >> passed (field "token" (str token) end)
  validated basic d =
      ensure "Basic username and password are required"
        (not (value_of "username" d == "") && not (value_of "password" d == ""))
      >> passed (
          field "username" (str (value_of "username" d))
            (field "password" (str (value_of "password" d)) end))
  validated api_key_header d =
      let name = sl.strip (value_of "headerName" d) in
      ensure "API key header name is invalid or forbidden"
        (is_header name && not (any (λ h. sl.lower name == h) forbidden_headers))
      >> ensure "API key value is required" (not (value_of "value" d == ""))
      >> passed (
          field "headerName" (str name) (
            field "value" (str (value_of "value" d))
              (field "prefix" (str (value_of "prefix" d)) end)))

  normalized : List String → Checked (List String)
  unfolding normalize_origin
  normalized [] = passed []
  normalized (x ∷ xs) = normalize_origin sl x >>= λ o. normalized xs >>= λ os. passed (o ∷ os)

  -- `sorted({normalize_origin(item) for item in items})`
  unfoldable pub origins_of : List String → Checked (List String)
  unfolding normalized sorted unique
  origins_of items = normalized items >>= λ os. passed (sorted (unique os))

  abbrev has_any : List String → Bool
  has_any [] = false
  has_any (x ∷ xs) = true

  -- `validate_credential_definition`, for a type that is one of CREDENTIAL_TYPES
  unfoldable pub validate_credential_definition :
      String → CredentialType → List String → Fields → Checked (String × List String × Fields)
  unfolding is_alias origins_of validated
  validate_credential_definition alias type items secret = do
    ensure "Credential alias must use lowercase letters, numbers, and underscores"
        (is_alias (sl.texts.strip_lower alias))
    origins ← origins_of items
    ensure "At least one allowed origin is required" (has_any origins)
    kept ← validated type secret
    passed (sl.texts.strip_lower alias, origins, kept)
