-- ===== src/Chain.antt =====
-- The tamper-evident event chain (integrity.py, database.py).
pub mod Material
pub mod Rows
pub mod Events
pub mod Append
pub mod Roundtrip
pub mod Linked
pub mod Invariant
pub mod Verifier
pub mod Joined
pub mod Heads
pub mod Verified
unfoldable pub use Material.*
unfoldable pub use Rows.*
unfoldable pub use Events.*
unfoldable pub use Append.*
