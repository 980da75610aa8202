-- ===== src/Authentication.antt =====
-- Signed operations (models.py) and their authentication (authentication.py).
pub mod Operations
pub mod Verify
pub mod Window
pub mod Accepted
pub mod Consumed
