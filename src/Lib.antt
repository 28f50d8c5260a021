-- ===== src/Lib.antt =====
-- FlowForge's backend (backend/app): flows are graphs of nodes that a group's designers draft and
-- publish, and that a Temporal workflow runs node by node.
--
-- The parts, and the files that model them:
--   Models, Enums, Content: the tables of models.py, the enumerations of enums.py and the graph of
--     schemas.py, one record or data type for each class. A table is a list of rows (Table: a row by
--     its key, a row written back); a time is a number of seconds.
--   Json: the JSON values that configurations, inputs and outputs hold. Floats are not modelled.
--   Workflow: temporal/workflows.py. Workflow.Engine holds `_active_edge`, `_max_attempts`,
--     `_collect_inputs` and the tests of the loop, Workflow.Run the loop of `run` itself
--     (`visit` is one turn of its `for`, `pass` one turn of its `while`, `execute_node` is
--     `_execute_node`). Signals and activities are the record `Activities` over a world of its own,
--     so that they may answer anything. Workflow.Tracked follows what a run leaves in that world,
--     Workflow.Traced the steps it takes, with the edges of Workflow.Active. Workflow.Number is Python's
--     `int` of a text. The start of a scheduled run and timeouts are not modelled.
--   Projection: temporal/activities.py, which writes the state of a run into the tables:
--     Projection.Execute is `execute_node_activity`, Projection.Marks the three that mark, Projection.Waits
--     the two pairs for approvals and callbacks, and Projection.Server gives them to the workflow as its
--     `Activities`, with the repeated attempts. The node handlers, `resolve_templates`, jsonschema, the
--     clock and new keys are the record `Services`.
--   FlowConfig: `deep_merge` of flow_config.py.
--   Runs: `_create_run_projection`, `create_run`, `rerun_run`, `cancel_run` and `resume_node` of
--     group_api.py; Temporal takes a request or raises, after the commit.
--   Credentials: security/credentials.py, security/crypto.py, security/rotate_credential_keys.py and the
--     handlers of credentials in group_api.py. AES-GCM, base64 and urlsplit are the record `Sealer`.
--   Validator: `validate_flow` of workflow/validator.py. The registry of node types and the errors
--     that jsonschema finds are the record `Registry`. Messages are left out.
--   Permissions: security/permissions.py. Redaction: security/redaction.py.
--   Callback: callback_api.py (`receive_callback`, `_expire`, `_reject`), `verify_callback_auth` and
--     `create_callback_wait` of callbacks.py, events.py, and the lookup of an inbound credential in
--     security/credentials.py and security/crypto.py. Cryptography, json.loads and Temporal are the
--     records `Crypto` and `Service`. Callback.Store is the state: the tables and the signals that were sent.
--   Sessions: security/auth.py; Argon2, SHA-256 and the settings are the record `Settings`.
--   Flows: the handlers of group_api.py that draft, publish, roll back and switch a flow, with the
--     checks of api_helpers.py that they call; jsonschema and Python's text functions are the record
--     `Library`.
--   Variables: run_variables.py, without the lookup by path and the listing.
--   Http: handlers that answer or raise HTTPException. Base: what all share. Samples and Tests: runs
--     at concrete inputs.
--
-- How they meet: a flow that Flows publishes has passed Validator, a run that Runs starts of it is
-- executed by Workflow, whose steps Projection writes into the tables that Runs made and Callback
-- reads; it waits for the signals that Callback and Runs send, and the handlers ask Permissions.
--
-- Loops: the validator's two work lists run on the number of nodes as fuel, which is enough since a
-- node enters a work list at most once; the workflow's `while` runs on one more than the number of
-- nodes, since every turn that does not end the run settles a node. The polls of a node have a fuel
-- of their own, and a run whose nodes ask for more polls than that is the only one that runs out.
--
-- Order: requests are handled one after the other, each as one transaction, and an error leaves what
-- was not committed undone. In the code only run_variables.py, callback_api.py (for the wait) and
-- rotate_credential_keys.py lock the rows they read. Requests that overlap are not modelled: two drafts
-- saved at the same time, say, may both find the row version that they name, since `update_draft`
-- reads it without a lock.
--
-- Not modelled: the nodes' own handlers and registry, templates, schedules, groups and members in
-- group_api.py, seed data, start-up and configuration, of which the activities and the handlers take
-- what they need as parameters. A workflow that is cancelled by Temporal, as `cancel_run` asks for, and
-- a signal that never comes have no outcome in the model of `run`: every wait is answered.
pub mod Base
pub mod Json
pub mod Enums
pub mod Content
pub mod Workflow
pub mod Validator
pub mod Http
pub mod Models
pub mod Permissions
pub mod Redaction
mod Table
pub mod Callback
pub mod Flows
pub mod Variables
pub mod FlowConfig
pub mod Credentials
pub mod Sessions
pub mod Projection
pub mod Runs
mod Samples
mod Tests
