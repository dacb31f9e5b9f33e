-- ===== src/Risk.antt =====
-- The market and risk engines (backend/app/market.py and backend/app/risk): the policy (`Policy`), the
-- assessment of a match and of a portfolio (`Assess`) and the bounds of the stakes (`Stakes`).
pub mod Policy
pub mod Assess
pub mod Stakes
mod Tests
