-- ===== src/Validator/Order.antt =====
-- Lists of distinct texts: counting them inside another list, and the order in which they stand.
use flow_demo.Base.{
  suc, ◌≤◌, String, true, false, List, [], ◌∷◌, ◌++◌, ◌≡◌, refl, ap, ◌⊎◌, inl, inr, ◌==◌, eq_iff,
  if◌then◌else◌, contains, In, contains-of_In, length, arith, subst,
}

abbrev pub Distinct : List String → Type 0
Distinct [] = Unit
Distinct (x ∷ xs) = (contains xs x ≡ false) × Distinct xs

pub not_In : (xs : List String) (x : String) → contains xs x ≡ false → ¬ In x xs
not_In xs x h m = cc (contains-of_In xs x m, h)

pub contains-snoc :
    (xs : List String) (x y : String)
    → contains (xs ++ x ∷ []) y ≡ (if contains xs y then true else x == y)
contains-snoc [] x y = ground arith
contains-snoc (z ∷ zs) x y = ground (arith, contains-snoc zs x y)

pub Distinct-snoc :
    (xs : List String) (x : String) → Distinct xs → contains xs x ≡ false → Distinct (xs ++ x ∷ [])
Distinct-snoc [] x d h = (refl, tt)
Distinct-snoc (y ∷ ys) x d h = (
  ground (arith, contains-snoc ys x y, eq_iff x y, eq_iff y x),
  Distinct-snoc ys x d.1 (ground arith),
)

-- take one occurrence of `x` out of `ys`
remove :
    (x : String) (ys : List String)
    → In x ys
    → (zs : List String) × (length ys ≡ suc (length zs))
      × ((y : String) → In y ys → (y ≡ x) ⊎ In y zs)
remove x [] m = absurd m
remove x (y ∷ ys) (inl e) = (ys, refl, λ z m. elim m [ inl q ↦ inl (cc) | inr r ↦ inr r ])
remove x (y ∷ ys) (inr m) =
    let (zs, len, split) = remove x ys m in
    (
      y ∷ zs,
      ap suc len,
      λ z i. elim i [
        | inl q ↦ inr (inl q)
        | inr r ↦ elim (split z r) [ inl e ↦ inl e | inr k ↦ inr (inr k) ]
      ],
    )

rest_In :
    (x : String) (xs zs : List String)
    → contains xs x ≡ false
    → (y : String) → In y xs
    → (y ≡ x) ⊎ In y zs
    → In y zs
rest_In x xs zs h y m (inl e) = absurd (not_In xs x h (subst (λ k. In k xs) e m))
rest_In x xs zs h y m (inr i) = i

-- Distinct texts that all stand in `ys` are at most as many, and if as many they are all of `ys`.
pub Distinct-length :
    (xs ys : List String)
    → Distinct xs
    → ((y : String) → In y xs → In y ys)
    → (length xs ≤ length ys) × (length ys ≤ length xs → (y : String) → In y ys → In y xs)
Distinct-length [] [] d sub = (omega arith, λ h y m. m)
Distinct-length [] (y ∷ ys) d sub = (omega arith, λ h. absurd (omega arith))
Distinct-length (x ∷ xs) ys d sub =
    let (zs, len, split) = remove x ys (sub x (inl refl)) in
    let (le, full) =
      Distinct-length xs zs d.1 (λ y m. rest_In x xs zs d.0 y m (split y (sub y (inr m)))) in
    (
      omega arith,
      λ h y m. elim (split y m) [ inl e ↦ inl e | inr k ↦ inr (full (omega arith) y k) ],
    )
