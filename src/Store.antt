-- ===== src/Store.antt =====
-- apps/orchestrator/src/store.ts: the tables of the local database, one child for each group of
-- methods. A method that changes a table returns the new table; times are in milliseconds.
pub mod Locks
pub mod Usage
pub mod Submissions
pub mod Approvals
pub mod Idempotency
pub mod Boards
pub mod Clients
pub mod Settings
mod Tests
