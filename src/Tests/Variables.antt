-- ===== src/Tests/Variables.antt =====
-- A counter that is written twice, and the theorem at it.
use flow_demo.Base.{suc, String, false, if◌then◌else◌, Option, none, some, [], ◌∷◌, ◌≡◌, refl, ◌==◌}
use flow_demo.Base.Int.{pos, ◌+ℤ◌}
use flow_demo.Json.{Json, num, str, end}
use flow_demo.Enums.{RunStatus, RunTriggerType}
use flow_demo.Models.Runs.{FlowRunVariable}
use flow_demo.Variables.{
  Mode, Store, value_type, mode_of, apply_mode, variable_at, get_variable, value_or_null,
  set_variable,
}
use flow_demo.Variables.Stored.{revision_of, set_variable-stores}

abbrev store : Store
store = record {
  runs =
      record {
        id = "r";
        group_id = "g";
        flow_id = "f";
        flow_version_id = "v";
        status = RunStatus.running;
        input_data = end;
        flow_config = end;
        output_data = none;
        error_message = none;
        cancel_requested = false;
        trigger_type = RunTriggerType.manual;
        trigger_id = none;
        parent_run_id = none;
        idempotency_key = none;
        source_metadata = end;
        temporal_workflow_id = none;
        requested_at = 0;
        created_at = 0;
        started_at = none;
        finished_at = none;
      }
      ∷ [];
  variables =
      record {
        id = "x";
        group_id = "default";
        flow_run_id = "r";
        name = "count";
        value = num (pos 2);
        value_type = "number";
        updated_by_node_id = "n";
        revision = 1;
        created_at = 0;
        updated_at = 0;
      }
      ∷ [];
  events = [];
}

abbrev upper : String → String
upper s = if s == "increment" then "INCREMENT" else s

abbrev write : Json → String → String → Option (Store × FlowRunVariable)
write v mode name = set_variable upper 1 "y" store "r" "n" name v mode

abbrev store_of : Option (Store × FlowRunVariable) → Store
store_of none = store
store_of (some (t, item)) = t

abbrev next : FlowRunVariable
next = record {
  id = "x";
  group_id = "default";
  flow_run_id = "r";
  name = "count";
  value = num (pos 5);
  value_type = "number";
  updated_by_node_id = "n";
  revision = 2;
  created_at = 0;
  updated_at = 1;
}

desk : Unit {0}
unfolding set_variable get_variable ◌+ℤ◌
desk = tt

refused : write (str "3") "increment" "count" ≡ none
unfolding desk
refused = refl

bad_name : write (num (pos 3)) "increment" "2nd" ≡ none
unfolding desk
bad_name = refl

counted :
    write (num (pos 3)) "increment" "count"
    ≡ some (store_of (write (num (pos 3)) "increment" "count"), next)
unfolding desk
counted = refl

set_variable-stores_example :
    ((m : Mode) × (mode_of "INCREMENT" ≡ some m)
      × (apply_mode (value_or_null (variable_at "r" "count" store.variables)) (num (pos 3)) m
          ≡ some (num (pos 5))))
    × (variable_at "r" "count" (store_of (write (num (pos 3)) "increment" "count")).variables
        ≡ some next)
    × (2 ≡ suc (revision_of (variable_at "r" "count" store.variables)))
    × ("number" ≡ value_type (num (pos 5)))
set_variable-stores_example =
    set_variable-stores upper 1 "y" store "r" "n" "count" (num (pos 3)) "increment"
      (store_of (write (num (pos 3)) "increment" "count")) next counted
