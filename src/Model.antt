-- ===== src/Model.antt =====
-- The rows of internal/model/model.go: one record for each struct, with the struct's fields.
-- A `time.Time` is its nanoseconds since the epoch, a nil pointer is `none`. Fields that the
-- program fills from checked values (ports, sizes, prefix lengths) are natural numbers.
mod Machine
mod Access
mod Assets
mod Jobs
pub use Machine.*
pub use Access.*
pub use Assets.*
pub use Jobs.*
