-- ===== src/Scientific.antt =====
-- The scientific protocol of backend/app/scientific: the temporal split of the rows (`Split`) with its
-- proof (`Partition`), and the evaluation (`Protocol`) with its proofs (`Holdout`, `Outcomes`).
pub mod Split
pub mod Partition
pub mod Protocol
pub mod Holdout
pub mod Outcomes
mod Tests
