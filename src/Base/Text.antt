-- ===== src/Base/Text.antt =====
-- Membership of a text in a list of texts, as the source's `in` on sets and dictionaries.
use Prim.Native.String.{String}
use mathlib.Core.Path.{◌≡◌}
use mathlib.Core.Logic.{inl, inr}
use mathlib.Core.Bool.{Bool, true, false, ◌||◌}
use mathlib.Core.List.{List, [], ◌∷◌}
use native.Mathlib.Omega.{arith}
use text.Mathlib.Text.{◌==◌}
use text.Mathlib.TextEquality.{eq_iff}
use flow_demo.Base.Lists.{In}

abbrev pub contains : List String → String → Bool
contains [] s = false
contains (x ∷ xs) s = x == s || contains xs s

pub In-of_contains : (xs : List String) (s : String) → contains xs s ≡ true → In s xs
In-of_contains [] s h = cc
In-of_contains (x ∷ xs) s h = ground (arith, eq_iff x s, In-of_contains xs s)

pub contains-of_In : (xs : List String) (s : String) → In s xs → contains xs s ≡ true
contains-of_In [] s m = absurd m
contains-of_In (x ∷ xs) s (inl e) = ground (arith, eq_iff x s)
contains-of_In (x ∷ xs) s (inr m) = ground (arith, contains-of_In xs s m)
