-- ===== src/Models.antt =====
-- The tables of app/models.py. A row is a record with the columns as fields, a table is the list of its
-- rows, `select(…).where(…)` is a search, and a time is a number of seconds.
pub mod Admin
pub mod Identity
pub mod Flows
pub mod Runs
