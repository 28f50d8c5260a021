-- ===== src/Json.antt =====
-- The values of Python's `json`: what request bodies, node outputs, run variables and flow
-- configurations hold (app/run_variables.py, app/template_resolver.py, app/flow_config.py,
-- app/security/redaction.py). Numbers are integers; a `float` is not modelled.
pub mod Dict
use flow_demo.Base.{String, Bool, true, false, Option, none, some, ◌≡◌, ◌==◌, if◌then◌else◌}
use flow_demo.Base.Int.{ℤ}

mutual
  pub data Json : Type 0 where
    null : Json
    bool : Bool → Json
    num : ℤ → Json
    str : String → Json
    arr : Items → Json
    obj : Fields → Json

  -- a `list`
  pub data Items : Type 0 where
    nil : Items
    cons : Json → Items → Items

  -- a `dict` with text keys, in insertion order
  pub data Fields : Type 0 where
    end : Fields
    field : String → Json → Fields → Fields

-- `d.get(key)`
unfoldable pub get : String → Fields → Option Json
get key end = none
get key (field k v d) = if k == key then some v else get key d

-- `d[key] = value`: a key that is there keeps its place
unfoldable pub put : String → Json → Fields → Fields
put key value end = field key value end
put key value (field k v d) = if k == key then field k value d else field k v (put key value d)

-- `key in d`
abbrev pub has : String → Fields → Bool
has key d = elim (get key d) [ none ↦ false | some _ ↦ true ]

-- `{**base, **over}`
unfoldable pub update : Fields → Fields → Fields
unfolding put
update base end = base
update base (field k v over) = update (put k v base) over

-- `[*xs, *ys]`
unfoldable pub append : Items → Items → Items
append nil ys = ys
append (cons x xs) ys = cons x (append xs ys)

-- `d.get(key, {})` read as a dictionary; `none` where it is something else
abbrev pub fields_of : Json → Option Fields
fields_of (obj d) = some d
fields_of _ = none

abbrev pub is_obj : Json → Bool
is_obj (obj _) = true
is_obj _ = false
