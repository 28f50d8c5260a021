-- ===== src/FlowConfig.antt =====
-- app/flow_config.py: `deep_merge`. A value is immutable here, so `deepcopy` is the value itself.
use flow_demo.Base.{Option, some}
use flow_demo.Json.{Json, Fields, obj, end, field, get, put}

-- `deep_merge`; `merged_value` is what one key of `overrides` puts over the value that is there
unfoldable mutual
  unfolding get put

  pub deep_merge : Fields → Fields → Fields
  deep_merge base end = base
  deep_merge base (field k v overrides) =
      deep_merge (put k (merged_value (get k base) v) base) overrides

  pub merged_value : Option Json → Json → Json
  merged_value (some (obj old)) (obj new) = obj (deep_merge old new)
  merged_value _ v = v
