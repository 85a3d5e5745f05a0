-- ===== src/Attestation.antt =====
-- bench/bench_ssz_attestation.c, the program that measures the library on an Attestation: its buffer that
-- grows, the serializer, the deserializer and the hash tree roots that it builds from the library's functions.
pub mod Buffer
pub mod Growth
pub mod Write
pub mod Read
pub mod Root
pub mod Hashed
pub mod Encode
pub mod Layout
pub mod Written
pub mod RoundTrip
pub mod Refusal
use c_ssz.Common.{ℕ, List, Option, Bool}

pub record Checkpoint : Type 0 where
  pub epoch : ℕ
  pub root : List ℕ

pub record AttestationData : Type 0 where
  pub slot : ℕ
  pub index : ℕ
  pub beacon_block_root : List ℕ
  pub source : Checkpoint
  pub target : Checkpoint

-- `bits` is the field `data`: the cells behind the pointer.
pub record AggregationBits : Type 0 where
  pub count : ℕ
  pub bits : Option (List Bool)

-- `body` is the field `data`.
pub record Attestation : Type 0 where
  pub aggregation_bits : AggregationBits
  pub body : AttestationData
  pub signature : List ℕ

abbrev pub max_validators_per_committee : ℕ
max_validators_per_committee = 2048
