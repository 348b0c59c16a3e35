-- ===== src/Serde.antt =====
-- The serializer, src/litharness_contracts/_serde.py.
pub mod Encode
pub mod Decode
pub mod Typing
pub mod Lookup
pub mod Plain
pub mod Defaults
pub mod Sound
pub mod Compat
pub mod Faults
pub mod RoundTrip
pub mod Version
pub mod Gate
