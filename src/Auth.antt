-- ===== src/Auth.antt =====
-- Authentication, sessions and permissions (backend/app/auth): roles (`Roles`), passwords
-- (`Password`), the session table (`State`), login and refresh (`Sessions`), logout (`Logout`), the
-- request dependencies (`Access`), accounts (`Accounts`), and the proofs about them.
pub mod Roles
pub mod Password
pub mod State
pub mod Sessions
pub mod Logout
pub mod Access
pub mod Accounts
pub mod Permissions
pub mod Evolution
pub mod Steps
pub mod Rotation
pub mod Entry
pub mod Uniqueness
pub mod Runs
mod Tests
