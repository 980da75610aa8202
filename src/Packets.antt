-- ===== src/Packets.antt =====
-- Content packets (packets.py).
pub mod Manifest
pub mod Values
pub mod Hashes
pub mod Scopes
pub mod Agreement
