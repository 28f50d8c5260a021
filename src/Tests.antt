-- ===== src/Tests.antt =====
-- Runs of the model at concrete inputs, and the theorems at them.
mod Workflow
mod Validator
mod Callback
mod Flows
mod Security
mod Variables
mod Projection
mod Runs
mod Credentials
mod Sessions
