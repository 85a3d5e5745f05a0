-- ===== src/RoundTrip.antt =====
-- Serializers and deserializers together: what is written is read back.
pub mod Bitfields
pub mod Unions
pub mod Uints
pub mod Vectors
pub mod Lists
