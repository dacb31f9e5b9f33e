-- ===== src/Picks.antt =====
-- The saved predictions of users (backend/app/history.py): the picks and their scoring (`Rules`), the
-- tables and the operations on them (`Store`, `Resolve`), and the proofs: of the resolution (`Settled`,
-- `Finished`, `Resolved`, `ByMatch`), of the picks (`Accepted`), of saving (`Saves`), and of all runs
-- (`Runs`, `Counts`).
pub mod Rules
pub mod Store
pub mod Resolve
pub mod Settled
pub mod Finished
pub mod Resolved
pub mod ByMatch
pub mod Accepted
pub mod Saves
pub mod Runs
pub mod Counts
mod Tests
