-- ===== src/Security.antt =====
-- The security primitives (backend/app/security): CSRF protection (`Csrf`), client addresses
-- (`Client`), redaction (`Redaction`) and the audit log (`Audit`), each with its proofs.
pub mod Csrf
pub mod Client
pub mod Redaction
pub mod Audit
mod Tests
