-- ===== src/Credentials/Vaults.antt =====
-- Well-formed tables of credentials, and what the writes to them keep.
use flow_demo.Base.{
  ◌≤◌, String, true, false, not, List, [], ◌∷◌, ◌++◌, filter, In, In-append_left, In-append_right,
  In-append_cases, In-filter, In-of_filter, ◌≡◌, ◌≢◌, refl, sym, ap, ◌∙◌, ◌⊎◌, inl, inr, arith,
  ◌==◌, eq_refl,
}
use flow_demo.Models.Flows.{FlowCredential, FlowCredentialRevision}
use flow_demo.Table.{save, In-save_apart}
use flow_demo.Callback.Auth.{Vault}

-- A key has one credential, and a flow one under a name; the revisions of a credential have numbers up
-- to its current one, and the current one is there.
pub record IsVault (v : Vault) : Type 0 where
  pub ids : (x y : FlowCredential) → In x v.credentials → In y v.credentials → x.id ≡ y.id → x ≡ y
  pub named :
      (x y : FlowCredential)
      → In x v.credentials
      → In y v.credentials
      → x.flow_id ≡ y.flow_id
      → x.alias ≡ y.alias
      → x ≡ y
  pub bounded :
      (c : FlowCredential) (r : FlowCredentialRevision)
      → In c v.credentials
      → In r v.revisions
      → r.credential_id ≡ c.id
      → r.revision ≤ c.current_revision
  pub current :
      (c : FlowCredential)
      → In c v.credentials
      → (r : FlowCredentialRevision) × In r v.revisions
        × (r.credential_id ≡ c.id)
        × (r.revision ≡ c.current_revision)

-- a credential written over another, with the revisions that come with it
pub record IsChange (c c' : FlowCredential) (extra : List FlowCredentialRevision) : Type 0 where
  pub id : c'.id ≡ c.id
  pub flow : c'.flow_id ≡ c.flow_id
  pub alias : c'.alias ≡ c.alias
  pub number : c.current_revision ≤ c'.current_revision
  pub rows :
      (r : FlowCredentialRevision)
      → In r extra
      → (r.credential_id ≡ c.id) × (r.revision ≤ c'.current_revision)
  pub current :
      (c'.current_revision ≡ c.current_revision)
      ⊎ ((r : FlowCredentialRevision) × In r extra
          × (r.credential_id ≡ c.id)
          × (r.revision ≡ c'.current_revision))

differ : (a b : String) → (a == b) ≡ false → a ≢ b
differ a b h e = (let bad : (a == b) ≡ true = rw e (eq_refl b) in cc)

module _ (v : Vault) (c c' : FlowCredential) (extra : List FlowCredentialRevision) (h : IsVault v)
    (m : In c v.credentials) (ch : IsChange c c' extra) where
  rows : List FlowCredential
  rows = save (λ x. x.id) c' v.credentials

  -- the fields that a change keeps tell the rows apart as before
  changed_unique :
      (same : FlowCredential → FlowCredential → Type 0)
      → ((x : FlowCredential) → same c' x → same c x)
      → ((x : FlowCredential) → same x c' → same x c)
      → ((x y : FlowCredential) → In x v.credentials → In y v.credentials → same x y → x ≡ y)
      → (x y : FlowCredential) → In x rows
      → In y rows
      → same x y
      → x ≡ y
  unfolding rows
  changed_unique same left right unique x y mx my e =
      elim (In-save_apart (λ x. x.id) x c' v.credentials mx) [
        | inl ex ↦ elim (In-save_apart (λ x. x.id) y c' v.credentials my) [
          | inl ey ↦ ex ∙ sym ey
          | inr (iy, apart) ↦
              let own : c ≡ y = unique c y m iy (left y (rw ex at e)) in
              absurd (differ y.id c'.id apart (ap (λ z. z.id) (sym own) ∙ sym ch.id))
        ]
        | inr (ix, apart) ↦ elim (In-save_apart (λ x. x.id) y c' v.credentials my) [
          | inl ey ↦
              let own : x ≡ c = unique x c ix m (right x (rw ey at e)) in
              absurd (differ x.id c'.id apart (ap (λ z. z.id) own ∙ sym ch.id))
          | inr (iy, _) ↦ unique x y ix iy e
        ]
      ]

  changed-bounded :
      (x : FlowCredential) (r : FlowCredentialRevision)
      → In x rows
      → In r (v.revisions ++ extra)
      → r.credential_id ≡ x.id
      → r.revision ≤ x.current_revision
  unfolding rows
  changed-bounded x r mx mr e = elim (In-save_apart (λ x. x.id) x c' v.credentials mx) [
    | inl ex ↦
        (let own : r.credential_id ≡ c.id = e ∙ ap (λ z. z.id) ex ∙ ch.id in
          let count : x.current_revision ≡ c'.current_revision = ap (λ z. z.current_revision) ex in
          elim (In-append_cases r v.revisions extra mr) [
            | inl old ↦
                (let low = h.bounded c r m old own in
                  let up = ch.number in omega (arith, low, up, count))
            | inr new ↦ (let low = (ch.rows r new).1 in omega (arith, low, count))
          ])
    | inr (ix, apart) ↦ elim (In-append_cases r v.revisions extra mr) [
      | inl old ↦ h.bounded x r ix old e
      | inr new ↦ absurd (differ x.id c'.id apart (sym e ∙ (ch.rows r new).0 ∙ sym ch.id))
    ]
  ]

  changed-current :
      (x : FlowCredential)
      → In x rows
      → (r : FlowCredentialRevision) × In r (v.revisions ++ extra)
        × (r.credential_id ≡ x.id)
        × (r.revision ≡ x.current_revision)
  unfolding rows
  changed-current x mx = elim (In-save_apart (λ x. x.id) x c' v.credentials mx) [
    | inl ex ↦ elim ch.current [
      | inl same ↦
          let (r, i, own, at) = h.current c m in
          (
            r,
            In-append_left r v.revisions extra i,
            own ∙ sym ch.id ∙ ap (λ z. z.id) (sym ex),
            at ∙ sym same ∙ ap (λ z. z.current_revision) (sym ex),
          )
      | inr (r, i, own, at) ↦ (
        r,
        In-append_right r v.revisions extra i,
        own ∙ sym ch.id ∙ ap (λ z. z.id) (sym ex),
        at ∙ ap (λ z. z.current_revision) (sym ex),
      )
    ]
    | inr (ix, _) ↦
        let (r, i, own, at) = h.current x ix in (r, In-append_left r v.revisions extra i, own, at)
  ]

  pub changed-IsVault :
      IsVault (record {
        credentials = save (λ x. x.id) c' v.credentials;
        revisions = v.revisions ++ extra;
      })
  unfolding rows
  changed-IsVault = record {
    ids = changed_unique (λ x y. x.id ≡ y.id) (λ x e. sym ch.id ∙ e) (λ x e. e ∙ ch.id) h.ids;
    named = λ x y mx my ef ea.
        changed_unique (λ x y. (x.flow_id ≡ y.flow_id) × (x.alias ≡ y.alias))
          (λ x e. (sym ch.flow ∙ e.0, sym ch.alias ∙ e.1)) (λ x e. (e.0 ∙ ch.flow, e.1 ∙ ch.alias))
          (λ x y mx my e. h.named x y mx my (e.0) (e.1)) x y mx my (ef, ea);
    bounded = changed-bounded;
    current = changed-current;
  }

-- a new credential with its first revision
module _ (v : Vault) (c : FlowCredential) (r : FlowCredentialRevision) (h : IsVault v)
    (new_id : (x : FlowCredential) → In x v.credentials → x.id ≢ c.id)
    (new_owner : (q : FlowCredentialRevision) → In q v.revisions → q.credential_id ≢ c.id)
    (new_name : (x : FlowCredential)
      → In x v.credentials
      → x.flow_id ≡ c.flow_id
      → x.alias ≢ c.alias)
    (owner : r.credential_id ≡ c.id) (number : r.revision ≡ c.current_revision) where
  In-added : (x : FlowCredential) → In x (v.credentials ++ (c ∷ [])) → In x v.credentials ⊎ (x ≡ c)
  In-added x m = elim (In-append_cases x v.credentials (c ∷ []) m) [
    | inl old ↦ inl old
    | inr new ↦ elim new [ inl e ↦ inr e | inr bad ↦ absurd bad ]
  ]

  added_unique :
      (same : FlowCredential → FlowCredential → Type 0)
      → ((x : FlowCredential) → In x v.credentials → same x c → ⊥)
      → ((x : FlowCredential) → In x v.credentials → same c x → ⊥)
      → ((x y : FlowCredential) → In x v.credentials → In y v.credentials → same x y → x ≡ y)
      → (x y : FlowCredential) → In x (v.credentials ++ (c ∷ []))
      → In y (v.credentials ++ (c ∷ []))
      → same x y
      → x ≡ y
  added_unique same right left unique x y mx my e = elim (In-added x mx) [
    | inl ox ↦ elim (In-added y my) [
      | inl oy ↦ unique x y ox oy e
      | inr ey ↦ absurd (right x ox (rw ey at e))
    ]
    | inr ex ↦ elim (In-added y my) [
      | inl oy ↦ absurd (left y oy (rw ex at e))
      | inr ey ↦ ex ∙ sym ey
    ]
  ]

  pub added-IsVault :
      IsVault
        (record { credentials = v.credentials ++ (c ∷ []); revisions = v.revisions ++ (r ∷ []) })
  added-IsVault = record {
    ids = added_unique (λ x y. x.id ≡ y.id) new_id (λ x i e. new_id x i (sym e)) h.ids;
    named = λ x y mx my ef ea.
        added_unique (λ x y. (x.flow_id ≡ y.flow_id) × (x.alias ≡ y.alias))
          (λ x i e. new_name x i (e.0) (e.1)) (λ x i e. new_name x i (sym (e.0)) (sym (e.1)))
          (λ x y mx my e. h.named x y mx my (e.0) (e.1)) x y mx my (ef, ea);
    bounded = λ x q mx mq e. elim (In-added x mx) [
      | inl ox ↦ elim (In-append_cases q v.revisions (r ∷ []) mq) [
        | inl old ↦ h.bounded x q ox old e
        | inr new ↦ elim new [
          | inl eq ↦ absurd (new_id x ox (sym e ∙ ap (λ z. z.credential_id) eq ∙ owner))
          | inr bad ↦ absurd bad
        ]
      ]
      | inr ex ↦ elim (In-append_cases q v.revisions (r ∷ []) mq) [
        | inl old ↦ absurd (new_owner q old (e ∙ ap (λ z. z.id) ex))
        | inr new ↦ elim new [
          | inl eq ↦
              (let one : q.revision ≡ x.current_revision =
                  ap (λ z. z.revision) eq ∙ number ∙ ap (λ z. z.current_revision) (sym ex) in
                omega (arith, one))
          | inr bad ↦ absurd bad
        ]
      ]
    ];
    current = λ x mx. elim (In-added x mx) [
      | inl ox ↦
          (let (q, i, own, at) = h.current x ox in
            (q, In-append_left q v.revisions (r ∷ []) i, own, at))
      | inr ex ↦ (
        r,
        In-append_right r v.revisions (r ∷ []) (inl refl),
        owner ∙ ap (λ z. z.id) (sym ex),
        number ∙ ap (λ z. z.current_revision) (sym ex),
      )
    ];
  }

-- a credential that is deleted with its revisions
pub removed-IsVault :
    (v : Vault) (k : String)
    → IsVault v
    → IsVault (record {
      credentials = filter (λ x. not (x.id == k)) v.credentials;
      revisions = filter (λ r. not (r.credential_id == k)) v.revisions;
    })
removed-IsVault v k h =
    let back : (x : FlowCredential)
        → In x (filter (λ x. not (x.id == k)) v.credentials)
        → In x v.credentials =
      λ x m. (In-of_filter (λ x. not (x.id == k)) x v.credentials m).0 in
    record {
      ids = λ x y mx my. h.ids x y (back x mx) (back y my);
      named = λ x y mx my. h.named x y (back x mx) (back y my);
      bounded = λ c r mc mr.
          h.bounded c r (back c mc)
            (In-of_filter (λ r. not (r.credential_id == k)) r v.revisions mr).0;
      current = λ c mc.
          let (r, i, own, at) = h.current c (back c mc) in
          let kept : not (c.id == k) ≡ true =
            (In-of_filter (λ x. not (x.id == k)) c v.credentials mc).1 in
          (r, In-filter (λ r. not (r.credential_id == k)) r v.revisions i (rw own kept), own, at);
    }
