-- ===== src/Json/Dict.antt =====
-- The laws of dictionaries.
use flow_demo.Base.{String, Option, some, ◌≡◌, ◌==◌, refl, if◌then◌else◌, arith, eq_iff}
use flow_demo.Json.{Json, Fields, end, field, get, put, update}

pub get-put :
    (key j : String) (value : Json) (d : Fields)
    → get j (put key value d) ≡ (if key == j then some value else get j d)
unfolding get put
get-put key j value end = refl
get-put key j value (field k v d) =
    ground (arith, eq_iff key j, eq_iff k key, eq_iff k j, get-put key j value d)

-- the last binding of a key in `over` wins
abbrev pub last : String → Fields → Option Json → Option Json
last key end o = o
last key (field k v d) o = last key d (if k == key then some v else o)

pub get-update :
    (j : String) (base over : Fields) → get j (update base over) ≡ last j over (get j base)
unfolding update
get-update j base end = refl
get-update j base (field k v over) = rw (get-update j (put k v base) over, get-put k j v base)
