-- ===== src/Authorization.antt =====
-- authorization.py: decisions, and the evaluation of a request against the grants.
pub mod Decision
pub mod Evaluate
pub mod Rows
pub mod Active
pub mod Complete
unfoldable pub use Decision.*
unfoldable pub use Evaluate.*
