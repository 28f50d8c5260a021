-- ===== src/Workflow/Activities.antt =====
-- What GenericFlowWorkflow asks of the Temporal server: its activities and the wait for a signal,
-- as actions on a world `W`. An activity that raises answers `err` with the text of the exception.
-- The server repeats a bookkeeping activity until it completes, so those have no error.
use flow_demo.Base.{ℕ, String, Option}
use flow_demo.Json.{Json, Fields}
use flow_demo.Content.{FlowNodeData}
use flow_demo.Enums.{RunStatus}

pub data Result {ℓ} (A : Type ℓ) : Type ℓ where
  ok : A → Result A
  err : String → Result A

-- what an activity returns: `{"kind": "success", "output": …}`, or `{"kind": "poll_pending",
-- "delay_seconds": …, "last_output": …}`
pub data Reply : Type 0 where
  done : Fields → Reply
  poll_pending : ℕ → Fields → Reply

-- the arguments of an activity, which `_execute_node` calls `base`
pub record Payload : Type 0 where
  pub run_id : String
  pub node_id : String
  pub node_data : FlowNodeData
  pub inputs : Json
  pub attempt : ℕ

-- the arguments of mark_run_activity
pub record Mark : Type 0 where
  pub run_id : String
  pub status : RunStatus
  pub output : Option Json
  pub error : Option String
  pub event_type : String

pub record Activities (W : Type 0) : Type 0 where
  pub mark_run : Mark → W → W
  pub mark_node_skipped : String → String → W → W
  pub mark_node_failed : String → String → String → W → W
  -- the second argument is the retry policy's `maximum_attempts`
  pub execute_node : Payload → ℕ → W → Result Reply × W
  pub create_manual_wait : Payload → W → Result (Unit {0}) × W
  pub complete_manual_wait : Payload → Fields → W → Result Reply × W
  pub create_callback_wait : Payload → W → Result (Unit {0}) × W
  pub complete_callback_wait : Payload → Fields → W → Result Reply × W
  -- wait until a signal for the node is there, and take it
  pub await_manual : String → W → Fields × W
  pub await_callback : String → W → Fields × W
