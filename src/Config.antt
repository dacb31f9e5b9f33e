-- ===== src/Config.antt =====
-- The central configuration (backend/app/config.py): reading the environment (`Env`), the settings
-- (`Settings`), their validation (`Validation`), and the proofs about what is loaded.
pub mod Env
pub mod Settings
pub mod Validation
pub mod Safety
pub mod Ranges
mod Tests
