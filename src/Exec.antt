-- ===== src/Exec.antt =====
-- Commands in the guest: requests, the command line that the guest's shell gets, and the bounded
-- output (internal/lifecycle/service.go).
pub mod Buffer
pub mod Request
pub mod Shell
pub mod Json
pub mod Run
pub mod Jobs
pub mod Examples
