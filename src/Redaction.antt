-- ===== src/Redaction.antt =====
-- app/security/redaction.py: secrets are blanked in what is stored and shown.
pub mod Laws
use Prim.Native.Char.{code}
use flow_demo.Base.{
  ℕ, ◌+◌, String, Bool, true, false, ◌&&◌, ◌||◌, List, [], ◌∷◌, if◌then◌else◌, leb, eqb, any,
}
use flow_demo.Json.{Json, Items, Fields, null, bool, num, str, arr, obj, nil, cons, end, field}

abbrev pub redacted : Json
redacted = str "[REDACTED]"

abbrev sensitive_keys : List String
sensitive_keys =
    "authorization" ∷ "cookie" ∷ "set-cookie" ∷ "password" ∷ "secret" ∷ "token" ∷ "access_token"
    ∷ "refresh_token" ∷ "api_key" ∷ "apikey" ∷ []

-- the lower case of a character, as far as it can be an ASCII letter: 0x212a is the Kelvin sign
lower : ℕ → ℕ
lower c = if leb b'A' c && leb c b'Z' then c + 32 else if eqb c 0x212a then b'k' else c

-- `key.lower() == word`, for a word in lower case
unfoldable pub lower_is : String → String → Bool
unfolding lower
lower_is String.[] String.[] = true
lower_is (String.◌∷◌ c key) (String.◌∷◌ d word) = eqb (lower (code c)) (code d) && lower_is key word
lower_is _ _ = false

-- `str(key).lower() in SENSITIVE_KEYS`
unfoldable pub is_sensitive : String → Bool
unfolding lower_is
is_sensitive key = any (lower_is key) sensitive_keys

-- `redact_sensitive`
unfoldable mutual
  pub redact : Json → Json
  redact null = null
  redact (bool b) = bool b
  redact (num n) = num n
  redact (str s) = str s
  redact (arr xs) = arr (redact_items xs)
  redact (obj d) = obj (redact_fields d)

  pub redact_items : Items → Items
  redact_items nil = nil
  redact_items (cons x xs) = cons (redact x) (redact_items xs)

  pub redact_fields : Fields → Fields
  redact_fields end = end
  redact_fields (field k v d) =
      field k (if is_sensitive k then redacted else redact v) (redact_fields d)
