-- ===== src/Receipts.antt =====
-- Execution receipts and the canonical events made from them (receipts.py; RunReceipt of
-- models.py).
pub mod Fields
pub mod Validation
pub mod Events
unfoldable pub use Fields.*
unfoldable pub use Validation.*
unfoldable pub use Events.*
