-- ===== src/Store.antt =====
-- internal/store/store.go: the SQL tables and the statements of each method.
pub mod Db
pub mod Table
pub mod Jobs
pub mod Vms
pub mod Networks
pub mod Access
pub mod Keeps
pub mod Assets
