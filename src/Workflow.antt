-- ===== src/Workflow.antt =====
-- GenericFlowWorkflow of app/temporal/workflows.py: the loop that runs the graph of one flow.
-- `Activities` is the interface to the Temporal server, `Engine` has the helpers, `Run` the loop.
pub mod Number
pub mod Activities
pub mod Engine
pub mod Sorted
pub mod Run
pub mod Settled
pub mod Visits
pub mod Passes
pub mod Fuel
pub mod Correct
pub mod Completion
pub mod Tracked
pub mod Active
pub mod Traced
