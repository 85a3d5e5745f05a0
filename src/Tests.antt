-- ===== src/Tests.antt =====
-- The theorems at concrete data.
mod Bitfields
mod Unions
mod Uints
mod Utils
mod Merkle
mod Vectors
mod Lists
mod Generator
mod Attestation
