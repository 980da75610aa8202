-- ===== src/Effects.antt =====
-- External effects (external_effects.py, effect_protocol.py): the claims of an effect's attempts and
-- the executors' signed results.
pub mod Tables
pub mod Envelopes
pub mod Rows
pub mod Keys
pub mod Record
pub mod Release
pub mod Evidence
pub mod Released
pub mod Evident
pub mod Request
pub mod Create
pub mod Register
pub mod Management
pub mod Mediate
pub mod Registered
pub mod Managed
pub mod Claim
pub mod Ingest
pub mod Frame
pub mod Answer
pub mod Derived
pub mod Created
pub mod Latest
pub mod Lifecycle
pub mod Settled
pub mod Refines
pub mod Answered
pub mod Steps
pub mod Changes
pub mod Once
pub mod PerPacket
pub mod Signature
pub mod Twice
pub mod Trust
