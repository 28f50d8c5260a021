-- ===== src/Credentials/Changes.antt =====
-- Requests to the handlers of credentials, one after another.
pub mod Kept
use flow_demo.Base.{
  ℕ, suc, ◌+◌, ◌≤◌, String, Bool, true, false, not, ◌&&◌, Option, none, some, List, [], ◌∷◌, ◌++◌,
  any, find?, find?-some, filter, In, ◌≡◌, ◌≢◌, refl, sym, ap, ◌∙◌, subst, ◌⊎◌, inl, inr, arith,
  ◌==◌, eq_iff, eq_refl, Bool-cases, append-nil,
}
use flow_demo.Json.{Fields}
use flow_demo.Http.{
  Response, answer, http_error, require, found_or, ◌>>=◌, after, answer-inj, require-answer,
  found_or-answer,
}
use flow_demo.Models.Identity.{User}
use flow_demo.Models.Flows.{FlowDefinition, FlowCredential, FlowCredentialRevision}
use flow_demo.Permissions.{require_design}
use flow_demo.Table.{save}
use flow_demo.Flows.{Library, flow_or_404}
use flow_demo.Callback.Auth.{Checked, passed, value_error, crash, Vault}
use flow_demo.Callback.Evidence
use flow_demo.Callback.Evidence.{passed-inj}
use flow_demo.Credentials.{Sealer}
use flow_demo.Credentials.Define.{validate_credential_definition}
use flow_demo.Credentials.Revisions.{create_revision, encrypt_secret, sealed_row, number_of}
use flow_demo.Credentials.Handlers.{
  Office, shop, CredentialCreate, CredentialUpdate, checked, uncaught, is_credential,
  get_credential_or_404, credential_is_referenced, new_credential, enabled_or, origins_or, Numbers,
  own_credential, save_credential, add_audit, create_credential, rotate_credential,
  update_credential, delete_credential,
}
use flow_demo.Credentials.Vaults.{
  IsVault, IsChange, changed-IsVault, added-IsVault, removed-IsVault,
}

pub data Action : Type 0 where
  create : Numbers → CredentialCreate → Action
  rotate : Numbers → String → Fields → Action
  update : Numbers → String → CredentialUpdate → Action
  delete : String → Action

pub uncaught-answer : {A : Type 0} (m : Checked A) (a : A) → uncaught m ≡ answer a → m ≡ passed a
uncaught-answer (passed x) a h = ap passed (answer-inj x a h)
uncaught-answer (value_error e) a h = (let bad : http_error 500 ≡ answer a = h in cc)
uncaught-answer crash a h = (let bad : http_error 500 ≡ answer a = h in cc)

-- the tables after a request, which stay where it is refused
abbrev pub outcome : Office → Response (Office × FlowCredential) → Office
outcome o (answer (o', c)) = o'
outcome o (http_error e) = o

abbrev pub outcome_of : Office → Response Office → Office
outcome_of o (answer o') = o'
outcome_of o (http_error e) = o

unfoldable pub act : Library → Sealer → ℕ → User → String → String → Action → Office → Office
unfolding create_credential rotate_credential update_credential delete_credential
act lib sl now user group flow (create ns p) o =
    outcome o (create_credential lib sl now user group flow o ns p)
act lib sl now user group flow (rotate ns id d) o =
    outcome o (rotate_credential lib sl now user group flow o ns id d)
act lib sl now user group flow (update ns id p) o =
    outcome o (update_credential lib sl now user group flow o ns id p)
act lib sl now user group flow (delete id) o =
    outcome_of o (delete_credential lib sl now user group flow o id)

-- the key of a new credential is new
unfoldable pub IsNew : Action → Vault → Type 0
IsNew (create ns p) v =
    ((c : FlowCredential) → In c v.credentials → c.id ≢ ns.credential_id)
    × ((r : FlowCredentialRevision) → In r v.revisions → r.credential_id ≢ ns.credential_id)
IsNew _ v = Unit {0}

-- what `create_revision` answers: the next number, in the credential and in the row
pub create_revision-next :
    (sl : Sealer) (fresh : _) (now : ℕ) (c c' : FlowCredential) (secret : Fields)
    (r : FlowCredentialRevision)
    → create_revision sl fresh now c secret none ≡ passed (c', r)
    → (c' ≡ record c { current_revision = c.current_revision + 1 })
      × (r.credential_id ≡ c.id)
      × (r.revision ≡ c.current_revision + 1)
unfolding create_revision
create_revision-next sl fresh now c c' secret r h =
    Evidence.after
      (encrypt_secret sl fresh.nonce secret c.flow_id c.id (c.current_revision + 1) none) _ (c', r)
      h
      (λ e _ h₁.
        let made =
          passed-inj
            (
              record c { current_revision = c.current_revision + 1 },
              sealed_row sl fresh now c (c.current_revision + 1) e,
            )
            (c', r) h₁ in
        (
          sym (ap (λ x. x.0) made),
          ap (λ x. x.1.credential_id) (sym made),
          ap (λ x. x.1.revision) (sym made),
        ))

pub none_passes :
    {A : Type 0} (p : A → Bool) (xs : List A) (x : A) → any p xs ≡ false → In x xs → p x ≡ false
none_passes p [] x h m = absurd m
none_passes p (y ∷ ys) x h (inl e) = rw e (let out : p y ≡ false = ground arith in out)
none_passes p (y ∷ ys) x h (inr m) = none_passes p ys x (ground arith) m

module _ (lib : Library) (sl : Sealer) (now : ℕ) (user : User) (group flow_id : String)
    (o : Office) where
  pub own_credential-In :
      (id : String) (c : FlowCredential)
      → own_credential lib sl now user group flow_id o id ≡ answer c
      → In c o.vault.credentials × (c.id ≡ id) × (c.flow_id ≡ flow_id) × (c.group_id ≡ group)
  unfolding get_credential_or_404
  own_credential-In id c h = after (get_credential_or_404 o.vault flow_id id) _ c h (λ x found h₁.
      after (require (x.group_id == group) 404) _ c h₁ (λ u mine h₂.
        let (i, fits) =
          find?-some (is_credential flow_id id) x o.vault.credentials
            (found_or-answer 404 _ x found) in
        let same = answer-inj x c h₂ in
        (
          rw (← same) i,
          rw (← same) ((eq_iff x.id id).0 (ground arith)),
          rw (← same) ((eq_iff x.flow_id flow_id).0 (ground arith)),
          rw (← same) ((eq_iff x.group_id group).0 (require-answer _ 404 u mine)),
        )))
