-- ===== src/Variables/Stored.antt =====
-- What a write to a variable leaves in the tables.
use flow_demo.Base.{
  ℕ, suc, String, Bool, true, Option, none, some, List, [], ◌∷◌, ◌++◌, find?, find?-some, eq_refl,
  ◌≡◌, refl, sym, ap, ◌∙◌, inl, inr, arith, Bool-cases, is_some,
}
use flow_demo.Json.{Json}
use flow_demo.Models.Runs.{FlowRunVariable}
use flow_demo.Table.{row_at, find?-save}
use flow_demo.Variables.{
  Mode, Store, value_type, mode_of, apply_mode, is_name, is_variable, variable_at, value_or_null,
  written, put_row, stored, in_mode, set_variable,
}

abbrev pub revision_of : Option FlowRunVariable → ℕ
revision_of none = 0
revision_of (some v) = v.revision

some-inj : {A : Type 0} (a b : A) → some a ≡ some b → a ≡ b
some-inj a b h = cc

none≢some : {A C : Type 0} (a : A) → none ≡ some a → C
none≢some a h = cc

find?-append :
    (p : FlowRunVariable → Bool) (vs : List FlowRunVariable) (v : FlowRunVariable)
    → find? p vs ≡ none
    → p v ≡ true
    → find? p (vs ++ (v ∷ [])) ≡ some v
find?-append p [] v h k = rw k refl
find?-append p (x ∷ vs) v h k = elim (Bool-cases (p x)) [
  | inl here ↦ let bad : some x ≡ none = rw here at h in cc
  | inr other ↦ rw other (find?-append p vs v (rw other at h) k)
]

module _ (now : ℕ) (new_id run node name : String) (vs : List FlowRunVariable) (next : Json) where
  put_row-found :
      (o : Option FlowRunVariable)
      → variable_at run name vs ≡ o
      → let item = written now new_id run node name next o in
        (variable_at run name (put_row o item vs) ≡ some item)
        × (item.revision ≡ suc (revision_of o))
        × (item.value ≡ next)
        × (item.value_type ≡ value_type next)
  put_row-found none h = (
    find?-append (is_variable run name) vs _ h (rw (eq_refl run, eq_refl name) refl),
    refl,
    refl,
    refl,
  )
  put_row-found (some old) h =
      let (_, fits) = find?-some (is_variable run name) old vs h in
      (find?-save (λ x. x.id) (is_variable run name) vs old _ h fits refl, omega arith, refl, refl)

-- the state that a write starts from and the one that it answers
module _ (upper : String → String) (now : ℕ) (new_id : String) (s : Store) (run node name : String)
    (value : Json) (mode : String) where
  stored-found :
      (o : Option Json) (t : Store) (item : FlowRunVariable)
      → stored now new_id run node name (upper mode) s o ≡ some (t, item)
      → (o ≡ some item.value)
        × (variable_at run name t.variables ≡ some item)
        × (item.revision ≡ suc (revision_of (variable_at run name s.variables)))
        × (item.value_type ≡ value_type item.value)
  stored-found none t item h = cc
  stored-found (some next) t item h =
      let (found, revision, value_is, type_is) =
        put_row-found now new_id run node name s.variables next (variable_at run name s.variables)
          refl in
      let item₀ = written now new_id run node name next (variable_at run name s.variables) in
      let made = some-inj _ (t, item) h in
      let is_item : item₀ ≡ item = ap (λ x. x.1) made in
      let rows = ap (λ x. x.0.variables) made in
      (
        ap some (sym value_is ∙ ap (λ x. x.value) is_item),
        rw (← rows) (found ∙ ap some is_item),
        sym (ap (λ x. x.revision) is_item) ∙ revision,
        sym (ap (λ x. x.value_type) is_item)
            ∙ type_is
            ∙ ap value_type (sym value_is ∙ ap (λ x. x.value) is_item),
      )

  in_mode-found :
      (m : Option Mode) (t : Store) (item : FlowRunVariable)
      → in_mode now new_id run node name value (upper mode) s m ≡ some (t, item)
      → ((m' : Mode) × (m ≡ some m')
          × (apply_mode (value_or_null (variable_at run name s.variables)) value m'
              ≡ some item.value))
        × (variable_at run name t.variables ≡ some item)
        × (item.revision ≡ suc (revision_of (variable_at run name s.variables)))
        × (item.value_type ≡ value_type item.value)
  in_mode-found none t item h = cc
  in_mode-found (some m) t item h = elim (Bool-cases (is_some (row_at (λ r. r.id) run s.runs))) [
    | inr missing ↦ let bad : none ≡ some (t, item) = rw missing at h in none≢some (t, item) bad
    | inl there ↦
        let (value_is, found, revision, kind) =
          stored-found (apply_mode (value_or_null (variable_at run name s.variables)) value m) t
            item (rw there at h) in
        ((m, refl, value_is), found, revision, kind)
  ]

  -- A write that succeeds has a mode that WRITE_MODES names, and stores what that mode makes of the
  -- old value (null, where there is none) and the given one: reading the variable afterwards gives
  -- the row that was answered, whose revision is one more than before (1 for a new variable), with
  -- the type of its value.
  pub set_variable-stores :
      (t : Store) (item : FlowRunVariable)
      → set_variable upper now new_id s run node name value mode ≡ some (t, item)
      → ((m : Mode) × (mode_of (upper mode) ≡ some m)
          × (apply_mode (value_or_null (variable_at run name s.variables)) value m
              ≡ some item.value))
        × (variable_at run name t.variables ≡ some item)
        × (item.revision ≡ suc (revision_of (variable_at run name s.variables)))
        × (item.value_type ≡ value_type item.value)
  unfolding set_variable
  set_variable-stores t item h = elim (Bool-cases (is_name name)) [
    | inl good ↦ in_mode-found (mode_of (upper mode)) t item (rw good at h)
    | inr bad ↦ let no : none ≡ some (t, item) = rw bad at h in none≢some (t, item) no
  ]
