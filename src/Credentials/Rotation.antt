-- ===== src/Credentials/Rotation.antt =====
-- app/security/rotate_credential_keys.py, with `validate_key_ring` of app/security/crypto.py.
pub mod Kept
use Prim.Native.String
use flow_demo.Base.{
  ℕ, suc, ◌+◌, String, Bool, true, false, not, ◌&&◌, Option, none, some, List, [], ◌∷◌, find?, all,
  is_some, ◌==◌, if◌then◌else◌,
}
use flow_demo.Json.{Fields}
use flow_demo.Models.Flows.{FlowCredential, FlowCredentialRevision}
use flow_demo.Table.{row_at}
use flow_demo.Callback.Auth.{
  Checked, passed, value_error, crash, ◌>>=◌, ◌>>◌, ensure, Vault, decrypt_secret, ◌⁀◌,
}
use flow_demo.Credentials.{Sealer}
use flow_demo.Credentials.Revisions.{EncryptedPayload, encrypt_secret}

module _ (sl : Sealer) where
  unfoldable pub validate_key_ring : Checked (Unit {0})
  validate_key_ring = do
    ensure "WORKFLOW_ACTIVE_CREDENTIAL_KEY_ID is required" (not (sl.active_key == ""))
    ensure "The active credential key is missing from WORKFLOW_CREDENTIAL_KEYS"
        (is_some (sl.crypto.credential_keys sl.active_key))
    ensure "A credential key is not the base64 of 32 bytes" (
        all (λ k. elim (sl.crypto.credential_keys k) [ none ↦ true | some key ↦ sl.is_key key ])
          sl.key_ids)

  abbrev pub resealed : FlowCredentialRevision → EncryptedPayload → FlowCredentialRevision
  resealed r e = record r { key_id = e.key_id; nonce = e.nonce; ciphertext = e.ciphertext }

  -- a row that is joined with its credential
  abbrev pub reseal :
      String
      → String
      → FlowCredentialRevision
      → Option FlowCredential
      → Checked FlowCredentialRevision
  reseal to nonce r none = passed r
  reseal to nonce r (some c) =
      if r.key_id == to
      then passed r
      else decrypt_secret sl.crypto r.key_id r.nonce r.ciphertext c.flow_id c.id r.revision
        >>= λ secret. encrypt_secret sl nonce secret c.flow_id c.id r.revision (some to) >>= λ e.
            passed (resealed r e)

  -- the loop over the rows, with a nonce for each
  unfoldable pub reseal_all :
      String
      → (ℕ → String)
      → ℕ
      → List FlowCredential
      → List FlowCredentialRevision
      → Checked (List FlowCredentialRevision)
  unfolding decrypt_secret encrypt_secret
  reseal_all to nonces i credentials [] = passed []
  reseal_all to nonces i credentials (r ∷ rs) =
      reseal to (nonces i) r (row_at (λ c. c.id) r.credential_id credentials) >>= λ r'.
      reseal_all to nonces (suc i) credentials rs >>= λ rs'. passed (r' ∷ rs')

  -- `rotate`, whose transaction is taken back where it raises
  unfoldable pub rotate : String → (ℕ → String) → Vault → Checked Vault
  unfolding validate_key_ring reseal_all
  rotate to nonces v = do
    validate_key_ring
    ensure ("Credential key '" ⁀ to ⁀ "' is not configured")
        (is_some (sl.crypto.credential_keys to))
    rows ← reseal_all to nonces 0 v.credentials v.revisions
    passed (record v { revisions = rows })
