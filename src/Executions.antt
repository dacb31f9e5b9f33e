-- ===== src/Executions.antt =====
-- The execution event store (backend/app/execution_store.py, with the `execution_events` table of
-- backend/app/db/schema.py): the operations (`Store`) and their proofs (`History`).
pub mod Store
pub mod History
mod Tests
