-- ===== src/Lifecycle.antt =====
-- internal/lifecycle/service.go: virtual machines and what the host runs for them.
pub mod Fixtures
mod Examples
pub mod Names
pub mod Cleanup
pub mod Net
pub mod Overlap
pub mod Firewall
pub mod Boot
pub mod Quiet
pub mod Vms
pub mod Create
pub mod Alloc
pub mod Rules
