-- ===== src/Redaction/Laws.antt =====
-- No secret is left, at any depth, and nothing else is touched.
use flow_demo.Base.{
  String, true, false, none, some, ◌≡◌, ◌==◌, refl, if◌then◌else◌, arith, eq_iff, Bool-cases, ap,
  inl, inr,
}
use flow_demo.Json.{Json, Items, Fields, null, bool, num, str, arr, obj, nil, cons, end, field, get}
use flow_demo.Redaction.{redacted, is_sensitive, redact, redact_items, redact_fields}

-- at every depth, a sensitive key has the blank for its value
mutual
  pub IsClean : Json → Type 0
  IsClean null = Unit
  IsClean (bool b) = Unit
  IsClean (num n) = Unit
  IsClean (str s) = Unit
  IsClean (arr xs) = AreClean xs
  IsClean (obj d) = HasCleanFields d

  pub AreClean : Items → Type 0
  AreClean nil = Unit
  AreClean (cons x xs) = IsClean x × AreClean xs

  pub HasCleanFields : Fields → Type 0
  HasCleanFields end = Unit
  HasCleanFields (field k v d) =
      (is_sensitive k ≡ true → v ≡ redacted) × IsClean v × HasCleanFields d

IsClean-value :
    (k : String) (v : Json)
    → IsClean v
    → (is_sensitive k ≡ true → (if is_sensitive k then redacted else v) ≡ redacted)
      × IsClean (if is_sensitive k then redacted else v)
unfolding IsClean
IsClean-value k v h = elim (Bool-cases (is_sensitive k)) [
  | inl s ↦ (λ q. rw s, rw s tt)
  | inr n ↦ (λ q. rw q, rw n h)
]

mutual
  unfolding IsClean redact

  clean : (v : Json) → IsClean (redact v)
  clean null = tt
  clean (bool b) = tt
  clean (num n) = tt
  clean (str s) = tt
  clean (arr xs) = clean_items xs
  clean (obj d) = clean_fields d

  clean_items : (xs : Items) → AreClean (redact_items xs)
  clean_items nil = tt
  clean_items (cons x xs) = (clean x, clean_items xs)

  clean_fields : (d : Fields) → HasCleanFields (redact_fields d)
  clean_fields end = tt
  clean_fields (field k v d) = (
    (IsClean-value k (redact v) (clean v)).0,
    (IsClean-value k (redact v) (clean v)).1,
    clean_fields d,
  )

mutual
  unfolding redact

  again : (v : Json) → redact (redact v) ≡ redact v
  again null = refl
  again (bool b) = refl
  again (num n) = refl
  again (str s) = refl
  again (arr xs) = ap arr (again_items xs)
  again (obj d) = ap obj (again_fields d)

  again_items : (xs : Items) → redact_items (redact_items xs) ≡ redact_items xs
  again_items nil = refl
  again_items (cons x xs) = cc (again x, again_items xs)

  again_fields : (d : Fields) → redact_fields (redact_fields d) ≡ redact_fields d
  again_fields end = refl
  again_fields (field k v d) = ground (arith, again v, again_fields d)

-- A key that is not sensitive keeps its value, redacted.
pub get-redact_fields :
    (j : String) (d : Fields)
    → is_sensitive j ≡ false
    → get j (redact_fields d) ≡ elim (get j d) [ none ↦ none | some v ↦ some (redact v) ]
unfolding get redact
get-redact_fields j end h = refl
get-redact_fields j (field k v d) h = elim (Bool-cases (k == j)) [
  | inl same ↦ let plain : is_sensitive k ≡ false = rw ((eq_iff k j).0 same) h in rw (same, plain)
  | inr other ↦ rw other (get-redact_fields j d h)
]

-- Redaction leaves no sensitive key with a value of its own at any depth, and redacting twice is
-- redacting once.
pub redact-IsClean : (v : Json) → IsClean (redact v) × (redact (redact v) ≡ redact v)
redact-IsClean v = (clean v, again v)
