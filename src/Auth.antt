-- ===== src/Auth.antt =====
-- Who may do what: authentication and API tokens of internal/app/app.go.
mod Examples
pub mod Request
pub mod Session
pub mod Token
pub mod Gate
pub mod Dead
pub mod Revocation
pub mod Calls
pub mod Elsewhere
