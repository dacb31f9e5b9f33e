-- ===== src/Backtest.antt =====
-- The suggestions of hyperparameters from the history of backtests (backend/app/backtest/meta.py):
-- the learner (`Meta`) and its proofs (`Bounds`); and the temporal cross-validation
-- (backend/app/backtest/temporal.py, `Folds`).
pub mod Meta
pub mod Bounds
pub mod Folds
mod Tests
