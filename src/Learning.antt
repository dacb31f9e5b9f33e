-- ===== src/Learning.antt =====
-- The evaluation of models on played matches (backend/app/feature_engine.py and
-- backend/app/learning): the features of a match and a team (`Features`), the batches of simultaneous
-- fixtures (`Batches`), the walk-forward backtest (`Engine`) and its proofs (`Order`, `Past`, `NoLeak`,
-- `Scores`), the calibration (`Calibration`) and its proofs (`Selection`, `Stored`).
pub mod Features
pub mod Batches
pub mod Engine
pub mod Order
pub mod Past
pub mod NoLeak
pub mod Scores
pub mod Calibration
pub mod Selection
pub mod Stored
mod Tests
