-- ===== src/Table.antt =====
-- A table with a text for its primary key: a row by its key, and a row written back.
use flow_demo.Base.{
  true, Bool, In, ◌⊎◌, String, false, Option, some, List, [], ◌∷◌, map, find?, ◌==◌, if◌then◌else◌,
  ◌≡◌, ap, refl, eq_iff, eq_refl, arith, inl, inr, Bool-cases,
}

module _ {A : Type 0} (key : A → String) where
  -- `db.get(Row, k)`
  abbrev pub row_at : String → List A → Option A
  row_at k rows = find? (λ r. key r == k) rows

  -- the flush of a row that was changed
  unfoldable pub save : A → List A → List A
  save r rows = map (λ x. if key x == key r then r else x) rows

  pub row_at-save_self :
      (r s : A) (k : String) (rows : List A)
      → key r ≡ k
      → row_at k rows ≡ some s
      → row_at k (save r rows) ≡ some r
  unfolding save
  row_at-save_self r s k [] e h = cc
  row_at-save_self r s k (x ∷ rows) e h = elim (Bool-cases (key x == k)) [
    | inl here ↦ rw (e, here) (rw (e, eq_refl) refl)
    | inr other ↦ rw (e, other) (rw other (row_at-save_self r s k rows e (rw other at h)))
  ]

  pub row_at-save_ne :
      (r : A) (k : String) (rows : List A)
      → (key r == k) ≡ false
      → row_at k (save r rows) ≡ row_at k rows
  unfolding save
  row_at-save_ne r k [] h = refl
  row_at-save_ne r k (x ∷ rows) h = elim (Bool-cases (key x == key r)) [
    | inl same ↦
        let apart : (key x == k) ≡ false = rw ((eq_iff (key x) (key r)).0 same) h in
        rw (same, h, apart) (row_at-save_ne r k rows h)
    | inr other ↦ rw other (ground (arith, row_at-save_ne r k rows h))
  ]

  -- a row that is written back over the one that a search found is found
  pub find?-save :
      (p : A → Bool) (rows : List A) (old r : A)
      → find? p rows ≡ some old
      → p r ≡ true
      → key r ≡ key old
      → find? p (save r rows) ≡ some r
  unfolding save
  find?-save p [] old r h k same = cc
  find?-save p (x ∷ rows) old r h k same = elim (Bool-cases (key x == key r)) [
    | inl own ↦ rw (own, k) refl
    | inr other ↦ elim (Bool-cases (p x)) [
      | inl here ↦
          let e : some x ≡ some old = rw here at h in
          let e' : x ≡ old = cc in
          let own : (key x == key r) ≡ true = rw (e', same) (eq_refl (key old)) in cc
      | inr miss ↦ rw (other, miss) (find?-save p rows old r (rw miss at h) k same)
    ]
  ]

  -- a search that neither the row nor those under its key pass does not see the write
  pub find?-save_other :
      (p : A → Bool) (rows : List A) (r : A)
      → ((x : A) → In x rows → key x ≡ key r → p x ≡ false)
      → p r ≡ false
      → find? p (save r rows) ≡ find? p rows
  unfolding save
  find?-save_other p [] r others own = refl
  find?-save_other p (x ∷ rows) r others own =
      let rest = find?-save_other p rows r (λ y m. others y (inr m)) own in
      elim (Bool-cases (key x == key r)) [
        | inl e ↦
            let skip : p x ≡ false = others x (inl refl) ((eq_iff (key x) (key r)).0 e) in
            rw (e, own, skip) rest
        | inr e ↦ rw e (ground (arith, rest))
      ]

  pub In-save : (x r : A) (rows : List A) → In x (save r rows) → (x ≡ r) ⊎ In x rows
  unfolding save
  In-save x r [] m = absurd m
  In-save x r (y ∷ rows) (inl e) = elim (Bool-cases (key y == key r)) [
    | inl own ↦ inl (rw own at e)
    | inr other ↦ inr (inl (rw other at e))
  ]
  In-save x r (y ∷ rows) (inr m) = elim (In-save x r rows m) [ inl e ↦ inl e | inr i ↦ inr (inr i) ]

  -- a row after a write is the one written, or another that was there
  pub In-save_apart :
      (x r : A) (rows : List A)
      → In x (save r rows)
      → (x ≡ r) ⊎ (In x rows × ((key x == key r) ≡ false))
  unfolding save
  In-save_apart x r [] m = absurd m
  In-save_apart x r (y ∷ rows) (inl e) = elim (Bool-cases (key y == key r)) [
    | inl own ↦ inl (rw own at e)
    | inr other ↦ (let same : x ≡ y = rw other at e in inr (inl same, rw same other))
  ]
  In-save_apart x r (y ∷ rows) (inr m) = elim (In-save_apart x r rows m) [
    | inl e ↦ inl e
    | inr (i, apart) ↦ inr (inr i, apart)
  ]

  -- what a row in the table that nothing else passes is, the search finds
  pub find?-only :
      (p : A → Bool) (r : A) (rows : List A)
      → In r rows
      → p r ≡ true
      → ((x : A) → In x rows → p x ≡ true → x ≡ r)
      → find? p rows ≡ some r
  find?-only p r [] m h only = absurd m
  find?-only p r (x ∷ rows) m h only = elim (Bool-cases (p x)) [
    | inl here ↦ (let same : x ≡ r = only x (inl refl) here in rw here (ap some same))
    | inr out ↦ elim m [
      | inl e ↦ (let bad : p x ≡ true = rw (← e) h in cc)
      | inr rest ↦ rw out (find?-only p r rows rest h (λ y i k. only y (inr i) k))
    ]
  ]

  pub In-save_written : (r s : A) (rows : List A) → In s rows → key r ≡ key s → In r (save r rows)
  unfolding save
  In-save_written r s [] m same = absurd m
  In-save_written r s (x ∷ rows) (inl e) same =
      (let own : (key x == key r) ≡ true = rw (same, e) (eq_refl (key x)) in inl (rw own refl))
  In-save_written r s (x ∷ rows) (inr m) same = inr (In-save_written r s rows m same)
