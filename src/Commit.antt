-- ===== src/Commit.antt =====
-- The write transactions of database.py.
pub mod Insert
pub mod Progress
pub mod Rejection
pub mod Authority
pub mod Policy
pub mod Envelope
pub mod Frame
pub mod Grants
pub mod Extends
pub mod Admin
pub mod Refusals
pub mod Governed
pub mod Moves
pub mod Branches
pub mod Admitted
pub mod History
pub mod Steps
