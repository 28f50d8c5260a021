-- ===== src/Workflow/Sorted.antt =====
-- Python's `sorted` on texts, which compares code points.
use Prim.Native.Char.{code}
use flow_demo.Base.{
  String, Bool, true, false, ◌||◌, ◌&&◌, List, [], ◌∷◌, if◌then◌else◌, ltb, eqb, ◌≡◌, ◌↔◌, inl, inr,
  In, arith, ◌⊎◌, Bool-cases,
}

-- `a <= b`
abbrev text_le : String → String → Bool
text_le String.[] b = true
text_le (String.◌∷◌ c a) String.[] = false
text_le (String.◌∷◌ c a) (String.◌∷◌ d b) =
    ltb (code c) (code d) || eqb (code c) (code d) && text_le a b

insert : String → List String → List String
insert s [] = s ∷ []
insert s (x ∷ xs) = if text_le s x then s ∷ x ∷ xs else x ∷ insert s xs

unfoldable pub sorted : List String → List String
unfolding insert
sorted [] = []
sorted (x ∷ xs) = insert x (sorted xs)

In-insert : (a s : String) (xs : List String) → In a (insert s xs) ↔ ((a ≡ s) ⊎ In a xs)
unfolding insert
In-insert a s [] = ground arith
In-insert a s (x ∷ xs) = elim (Bool-cases (text_le s x)) [
  | inl le ↦ rw le (ground arith)
  | inr gt ↦ rw gt (ground (arith, In-insert a s xs))
]

pub In-sorted : (a : String) (xs : List String) → In a (sorted xs) ↔ In a xs
unfolding sorted
In-sorted a [] = (λ m. m, λ m. m)
In-sorted a (x ∷ xs) = ground (arith, In-insert a x (sorted xs), In-sorted a xs)
