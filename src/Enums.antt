-- ===== src/Enums.antt =====
-- The enumerations of app/enums.py, one constructor for each member.
use flow_demo.Base.{String, Bool, true, false}

pub data FlowStatus : Type 0 where
  draft active paused archived : FlowStatus

pub data RunStatus : Type 0 where
  pending running waiting waiting_callback success failed cancelled : RunStatus

pub data NodeRunStatus : Type 0 where
  pending ready running waiting waiting_callback retry_wait poll_wait : NodeRunStatus
  success failed skipped cancelled : NodeRunStatus

-- membership in NODE_TERMINAL_STATUSES
unfoldable pub node_terminal : NodeRunStatus → Bool
node_terminal NodeRunStatus.success = true
node_terminal NodeRunStatus.failed = true
node_terminal NodeRunStatus.skipped = true
node_terminal NodeRunStatus.cancelled = true
node_terminal _ = false

pub data RunTriggerType : Type 0 where
  manual schedule rerun : RunTriggerType

pub data GroupRole : Type 0 where
  group_admin flow_designer flow_executor approver viewer : GroupRole

pub data ApprovalTaskStatus : Type 0 where
  pending approved rejected expired cancelled : ApprovalTaskStatus

abbrev pub role_eq : GroupRole → GroupRole → Bool
role_eq group_admin group_admin = true
role_eq flow_designer flow_designer = true
role_eq flow_executor flow_executor = true
role_eq approver approver = true
role_eq viewer viewer = true
role_eq _ _ = false

abbrev pub is_active : FlowStatus → Bool
is_active active = true
is_active _ = false

-- the values of the members
abbrev pub run_text : RunStatus → String
run_text RunStatus.pending = "PENDING"
run_text RunStatus.running = "RUNNING"
run_text RunStatus.waiting = "WAITING"
run_text RunStatus.waiting_callback = "WAITING_CALLBACK"
run_text RunStatus.success = "SUCCESS"
run_text RunStatus.failed = "FAILED"
run_text RunStatus.cancelled = "CANCELLED"

abbrev pub node_text : NodeRunStatus → String
node_text NodeRunStatus.pending = "PENDING"
node_text NodeRunStatus.ready = "READY"
node_text NodeRunStatus.running = "RUNNING"
node_text NodeRunStatus.waiting = "WAITING"
node_text NodeRunStatus.waiting_callback = "WAITING_CALLBACK"
node_text NodeRunStatus.retry_wait = "RETRY_WAIT"
node_text NodeRunStatus.poll_wait = "POLL_WAIT"
node_text NodeRunStatus.success = "SUCCESS"
node_text NodeRunStatus.failed = "FAILED"
node_text NodeRunStatus.skipped = "SKIPPED"
node_text NodeRunStatus.cancelled = "CANCELLED"
