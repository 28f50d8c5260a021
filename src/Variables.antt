-- ===== src/Variables.antt =====
-- app/run_variables.py: the variables of a run and the modes of writing them. A run's own row lock
-- puts the writes one after the other. Floats are not modelled.
pub mod Stored
use Prim.Native.Char.{code}
use Prim.Native.String
use flow_demo.Base.{
  ℕ, ◌+◌, String, Bool, true, false, not, ◌&&◌, ◌||◌, Option, none, some, List, [], ◌∷◌, ◌++◌,
  find?, any, ◌==◌, eqb, leb, if◌then◌else◌, is_some,
}
use flow_demo.Base.Int.{ℤ, pos, ◌+ℤ◌}
use flow_demo.Json.{
  Json, Items, Fields, null, bool, num, str, arr, obj, nil, cons, end, field, update, append,
}
use flow_demo.Models.Runs.{FlowRun, FlowRunVariable, FlowEvent}
use flow_demo.Table.{row_at, save}

-- `value_type`
unfoldable pub value_type : Json → String
value_type null = "null"
value_type (bool b) = "boolean"
value_type (num n) = "number"
value_type (str s) = "string"
value_type (arr xs) = "array"
value_type (obj d) = "object"

pub data Mode : Type 0 where
  replace merge append_to increment : Mode

-- the mode of a text in upper case, where it is in WRITE_MODES
unfoldable pub mode_of : String → Option Mode
mode_of m =
    if m == "REPLACE"
    then some replace
    else if m == "MERGE"
    then some merge
    else if m == "APPEND"
    then some append_to
    else if m == "INCREMENT"
    then some increment
    else none

abbrev listed : Json → Items
listed (arr ys) = ys
listed v = cons v nil

-- `_apply_mode`: the new value, or `none` where it raises ValueError
unfoldable pub apply_mode : Json → Json → Mode → Option Json
unfolding update append
apply_mode existing incoming replace = some incoming
apply_mode null (obj new) merge = some (obj new)
apply_mode (obj old) (obj new) merge = some (obj (update old new))
apply_mode _ _ merge = none
apply_mode null incoming append_to = some (arr (listed incoming))
apply_mode (arr xs) incoming append_to = some (arr (append xs (listed incoming)))
apply_mode _ _ append_to = none
apply_mode null (num n) increment = some (num n)
apply_mode (num m) (num n) increment = some (num (m +ℤ n))
apply_mode _ _ increment = none

between : ℕ → ℕ → ℕ → Bool
between low high c = leb low c && leb c high

starts_name : ℕ → Bool
unfolding between
starts_name c = between b'A' b'Z' c || between b'a' b'z' c || eqb c b'_'

continues_name : ℕ → Bool
unfolding starts_name
continues_name c = starts_name c || between b'0' b'9' c || eqb c b'.' || eqb c b'-'

all_continue : String → Bool
unfolding continues_name
all_continue String.[] = true
all_continue (String.◌∷◌ c s) = continues_name (code c) && all_continue s

-- `VARIABLE_NAME.fullmatch(name)`
unfoldable pub is_name : String → Bool
unfolding all_continue
is_name String.[] = false
is_name (String.◌∷◌ c s) = starts_name (code c) && all_continue s && leb (String.count s) 199

pub record Store : Type 0 where
  pub runs : List FlowRun
  pub variables : List FlowRunVariable
  pub events : List FlowEvent

abbrev pub is_variable : String → String → FlowRunVariable → Bool
is_variable run name v = v.flow_run_id == run && v.name == name

abbrev pub variable_at : String → String → List FlowRunVariable → Option FlowRunVariable
variable_at run name vs = find? (is_variable run name) vs

-- `get_variable`
unfoldable pub get_variable : Store → String → String → Json → Json
get_variable s run name default = elim (variable_at run name s.variables) [
  | none ↦ default
  | some v ↦ v.value
]

abbrev pub value_or_null : Option FlowRunVariable → Json
value_or_null none = null
value_or_null (some v) = v.value

-- the row after a write; a new one is left to the column's default group
abbrev pub written :
    ℕ → String → String → String → String → Json → Option FlowRunVariable → FlowRunVariable
written now new_id run node name value none = record {
  id = new_id;
  group_id = "default";
  flow_run_id = run;
  name = name;
  value = value;
  value_type = value_type value;
  updated_by_node_id = node;
  revision = 1;
  created_at = now;
  updated_at = now;
}
written now new_id run node name value (some v) = record v {
  value = value;
  value_type = value_type value;
  updated_by_node_id = node;
  revision = v.revision + 1;
  updated_at = now;
}

abbrev pub put_row :
    Option FlowRunVariable → FlowRunVariable → List FlowRunVariable → List FlowRunVariable
put_row none v vs = vs ++ (v ∷ [])
put_row (some _) v vs = save (λ x. x.id) v vs

-- the event VARIABLE_SET, also left to the column's default group
abbrev event : ℕ → String → String → String → String → ℕ → FlowEvent
event now run node name mode revision = record {
  group_id = some "default";
  flow_run_id = run;
  node_id = some node;
  event_type = "VARIABLE_SET";
  payload =
      field "name" (str name) (field "mode" (str mode) (field "revision" (num (pos revision)) end));
  created_at = now;
}

abbrev pub stored :
    ℕ
    → String
    → String
    → String
    → String
    → String
    → Store
    → Option Json
    → Option (Store × FlowRunVariable)
stored now new_id run node name mode s none = none
stored now new_id run node name mode s (some next) =
    let old = variable_at run name s.variables in
    let item = written now new_id run node name next old in
    some (
      record {
        runs = s.runs;
        variables = put_row old item s.variables;
        events = s.events ++ (event now run node name mode item.revision ∷ []);
      },
      item,
    )

abbrev pub in_mode :
    ℕ
    → String
    → String
    → String
    → String
    → Json
    → String
    → Store
    → Option Mode
    → Option (Store × FlowRunVariable)
in_mode now new_id run node name value mode s none = none
in_mode now new_id run node name value mode s (some m) =
    if is_some (row_at (λ r. r.id) run s.runs)
    then stored now new_id run node name mode s
        (apply_mode (value_or_null (variable_at run name s.variables)) value m)
    else none

-- `set_variable`, `none` where it raises ValueError; `upper` is Python's upper case
unfoldable pub set_variable :
    (String → String)
    → ℕ
    → String
    → Store
    → String
    → String
    → String
    → Json
    → String
    → Option (Store × FlowRunVariable)
unfolding is_name mode_of apply_mode value_type save
set_variable upper now new_id s run node name value mode =
    if is_name name
    then in_mode now new_id run node name value (upper mode) s (mode_of (upper mode))
    else none
