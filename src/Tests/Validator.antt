-- ===== src/Tests/Validator.antt =====
-- The validator on a flow without issues and on flows with some.
use flow_demo.Base.{ℕ, String, [], ◌∷◌, ◌≡◌, refl, ◌⊎◌}
use flow_demo.Json.{Json, end}
use flow_demo.Content.{FlowContent, keys, node_at}
use flow_demo.Workflow.Engine.{Sched}
use flow_demo.Workflow.Run.{run, succeeded, node_failed}
use flow_demo.Validator.{validate_flow, linked, kahn, issue, cycle}
use flow_demo.Validator.Sound.{IsValidFlow, validate_flow-IsValidFlow, validated_run_total}
use flow_demo.Samples.{echo, diamond, ports, node, edge, echo-PollsBelow}

checker : Unit {0}
unfolding validate_flow kahn linked keys node_at
checker = tt

diamond_valid : validate_flow ports diamond ≡ []
unfolding checker
diamond_valid = refl

-- two nodes in a circle: neither is visited
abbrev circle : FlowContent
circle = record {
  schema_version = 1;
  nodes = node "s" "start" ∷ node "x" "delay" ∷ node "y" "delay" ∷ node "e" "end" ∷ [];
  edges =
      edge "e1" "s" "x" "out"
      ∷ edge "e2" "x" "y" "out"
      ∷ edge "e3" "y" "x" "out"
      ∷ edge "e4" "y" "e" "out"
      ∷ [];
}

circle_refused : validate_flow ports circle ≡ issue cycle ∷ []
unfolding checker
circle_refused = refl

validate_flow-IsValidFlow_example : IsValidFlow ports diamond
validate_flow-IsValidFlow_example = validate_flow-IsValidFlow ports diamond diamond_valid

validated_run_total_example :
    ((output : Json) × (s : Sched) × (w' : ℕ) × (run echo 5 "run-1" diamond end 0
        ≡ succeeded output s w'))
    ⊎ ((e : String) × (s : Sched) × (w' : ℕ) × (run echo 5 "run-1" diamond end 0
          ≡ node_failed e s w'))
validated_run_total_example =
    validated_run_total echo 5 "run-1" ports diamond end 0 diamond_valid echo-PollsBelow
