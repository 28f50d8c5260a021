-- ===== src/Workflow/Number.antt =====
-- Python's `int` of a text of ASCII characters, which temporal/workflows.py, group_api.py and callbacks.py
-- call on configured numbers. Digits of other scripts and the limit on very long texts are left out.
use Prim.Native.Char.{code}
use flow_demo.Base.{
  ℕ, zero, suc, ◌+◌, ◌-◌, ◌*◌, String, Bool, true, false, ◌&&◌, ◌||◌, Option, none, some, eqb, leb,
  if◌then◌else◌,
}
use flow_demo.Base.Int.{ℤ, pos, negsuc}

-- what a character is in a numeral
pub data CharKind : Type 0 where
  digit : ℕ → CharKind
  underscore : CharKind
  plus : CharKind
  minus : CharKind
  space : CharKind
  other : CharKind

abbrev pub kind_of : ℕ → CharKind
kind_of c =
    if leb b'0' c && leb c b'9'
    then digit (c - b'0')
    else if eqb c b'_'
    then underscore
    else if eqb c b'+'
    then plus
    else if eqb c b'-'
    then minus
    else if leb 9 c && leb c 13 || eqb c 32
    then space
    else other

-- only spaces follow
only_spaces : String → Bool
only_spaces String.[] = true
only_spaces (String.◌∷◌ c s) = elim (kind_of (code c)) [ space ↦ only_spaces s | _ ↦ false ]

-- the digits after those that make `n`; `after_digit` when the last character was one
digits : Bool → ℕ → String → Option ℕ
unfolding only_spaces
digits after_digit n String.[] = if after_digit then some n else none
digits after_digit n (String.◌∷◌ c s) = elim (kind_of (code c)) [
  | digit d ↦ digits true (n * 10 + d) s
  | underscore ↦ elim after_digit [ true ↦ digits false n s | false ↦ none ]
  | space ↦ if after_digit && only_spaces s then some n else none
  | _ ↦ none
]

abbrev pub positive : Option ℕ → Option ℤ
positive none = none
positive (some n) = some (pos n)

abbrev pub negative : Option ℕ → Option ℤ
negative none = none
negative (some zero) = some (pos 0)
negative (some (suc n)) = some (negsuc n)

-- `int(text)`; `none` where it raises ValueError
unfoldable pub int_of_text : String → Option ℤ
unfolding digits
int_of_text String.[] = none
int_of_text (String.◌∷◌ c s) = elim (kind_of (code c)) [
  | space ↦ int_of_text s
  | plus ↦ positive (digits false 0 s)
  | minus ↦ negative (digits false 0 s)
  | digit d ↦ positive (digits true d s)
  | _ ↦ none
]
