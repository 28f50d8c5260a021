-- ===== src/Projection.antt =====
-- The activities of app/temporal/activities.py: the tables as a projection of the workflow's run.
pub mod World
pub mod Marks
pub mod Execute
pub mod Waits
pub mod Server
pub mod Rows
pub mod Executed
pub mod Waited
pub mod Served
pub mod Refined
