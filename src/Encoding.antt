-- ===== src/Encoding.antt =====
-- Deterministic identities (sose/core/encoding.py and sose/core/identity.py): a value is encoded
-- without collisions, and its identity is a digest of the encoding.
mod Scalars
mod Lossless
mod Value
mod Bytes
mod Parts
pub mod Injective
pub mod Identity
mod Tests
