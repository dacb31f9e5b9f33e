-- ===== src/RateLimit.antt =====
-- Rate limiting (backend/app/ratelimit.py): the limiter (`Limiter`) and its proofs (`Refusals`).
pub mod Limiter
pub mod Refusals
mod Tests
