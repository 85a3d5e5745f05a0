-- ===== src/RoundTrip/Uints.antt =====
-- An unsigned integer or a Boolean that is serialized and deserialized again comes back.
use c_ssz.Common.{ℕ, ◌^◌, ◌≤◌, ◌<◌, ◌≡◌, ap, ◌∙◌, arith, List, [], ◌∷◌, ◌++◌, some, Bool}
use c_ssz.Common.{length, drop, done}
use c_ssz.Common.{true, false}
use c_ssz.Types.{success}
use c_ssz.Host.{Endian, le_bytes, host_bytes, length-le_bytes, le_bytes-All}
use c_ssz.Host.{le_value-le_bytes}
use c_ssz.Serialize.Emit.{emit-finish}
use c_ssz.Serialize.Uints.{serialize_uint8, serialize_uint16, serialize_uint32, serialize_uint64}
use c_ssz.Serialize.Uints.{serialize_uint128, serialize_uint256, serialize_boolean}
use c_ssz.Serialize.Uints.Encode.{
  serialize_uint8-emit, serialize_uint16-emit, serialize_uint32-emit,
}
use c_ssz.Serialize.Uints.Encode.{
  serialize_uint64-emit, serialize_uint128-emit, serialize_uint256-emit,
}
use c_ssz.Deserialize.Uints.{deserialize_uint8, deserialize_uint16, deserialize_uint32}
use c_ssz.Deserialize.Uints.{deserialize_uint64, deserialize_uint128, deserialize_uint256}
use c_ssz.Deserialize.Uints.{deserialize_boolean}
use c_ssz.Deserialize.Uints.Decode.{uint8-Reader, uint16-Reader, uint32-Reader, uint64-Reader}
use c_ssz.Deserialize.Uints.Decode.{uint128-WideReader, uint256-WideReader}

module _ (v old : ℕ) (buf : List ℕ) (size : ℕ) (fits : size ≤ length buf) where
  -- A value below 2 ^ 8, with a told size of at least 1 byte that the buffer has: `ssz_serialize_uint8` succeeds and reports 1, and
  -- `ssz_deserialize_uint8` reads the value from the buffer that it leaves.
  pub uint8_round_trip :
      v < 2 ^ 8
      → 1 ≤ size
      → (out : List ℕ) × (serialize_uint8 (some v) (some buf) (some size)
          ≡ done (success, some out, some 1))
        × (deserialize_uint8 (some out) 1 (some old) ≡ done (success, some v))
  uint8_round_trip h space = (
    le_bytes 1 v ++ drop 1 buf,
    serialize_uint8-emit v buf size fits h
        ∙ emit-finish (le_bytes 1 v) buf size 1 (length-le_bytes 1 v) space,
    uint8-Reader.reads (le_bytes 1 v) (drop 1 buf) old (length-le_bytes 1 v) (le_bytes-All 1 v)
        ∙ ap (λ (x : ℕ). done (success, some x)) (le_value-le_bytes 1 v (omega arith)),
  )

  -- A value below 2 ^ 16, with a told size of at least 2 bytes that the buffer has: `ssz_serialize_uint16` succeeds and reports 2, and
  -- `ssz_deserialize_uint16` reads the value from the buffer that it leaves.
  pub uint16_round_trip :
      v < 2 ^ 16
      → 2 ≤ size
      → (out : List ℕ) × (serialize_uint16 (some v) (some buf) (some size)
          ≡ done (success, some out, some 2))
        × (deserialize_uint16 (some out) 2 (some old) ≡ done (success, some v))
  uint16_round_trip h space = (
    le_bytes 2 v ++ drop 2 buf,
    serialize_uint16-emit v buf size fits
        ∙ emit-finish (le_bytes 2 v) buf size 2 (length-le_bytes 2 v) space,
    uint16-Reader.reads (le_bytes 2 v) (drop 2 buf) old (length-le_bytes 2 v) (le_bytes-All 2 v)
        ∙ ap (λ (x : ℕ). done (success, some x)) (le_value-le_bytes 2 v (omega arith)),
  )

  -- A value below 2 ^ 32, with a told size of at least 4 bytes that the buffer has: `ssz_serialize_uint32` succeeds and reports 4, and
  -- `ssz_deserialize_uint32` reads the value from the buffer that it leaves.
  pub uint32_round_trip :
      v < 2 ^ 32
      → 4 ≤ size
      → (out : List ℕ) × (serialize_uint32 (some v) (some buf) (some size)
          ≡ done (success, some out, some 4))
        × (deserialize_uint32 (some out) 4 (some old) ≡ done (success, some v))
  uint32_round_trip h space = (
    le_bytes 4 v ++ drop 4 buf,
    serialize_uint32-emit v buf size fits
        ∙ emit-finish (le_bytes 4 v) buf size 4 (length-le_bytes 4 v) space,
    uint32-Reader.reads (le_bytes 4 v) (drop 4 buf) old (length-le_bytes 4 v) (le_bytes-All 4 v)
        ∙ ap (λ (x : ℕ). done (success, some x)) (le_value-le_bytes 4 v (omega arith)),
  )

  -- A value below 2 ^ 64, with a told size of at least 8 bytes that the buffer has: `ssz_serialize_uint64` succeeds and reports 8, and
  -- `ssz_deserialize_uint64` reads the value from the buffer that it leaves.
  pub uint64_round_trip :
      v < 2 ^ 64
      → 8 ≤ size
      → (out : List ℕ) × (serialize_uint64 (some v) (some buf) (some size)
          ≡ done (success, some out, some 8))
        × (deserialize_uint64 (some out) 8 (some old) ≡ done (success, some v))
  uint64_round_trip h space = (
    le_bytes 8 v ++ drop 8 buf,
    serialize_uint64-emit v buf size fits
        ∙ emit-finish (le_bytes 8 v) buf size 8 (length-le_bytes 8 v) space,
    uint64-Reader.reads (le_bytes 8 v) (drop 8 buf) old (length-le_bytes 8 v) (le_bytes-All 8 v)
        ∙ ap (λ (x : ℕ). done (success, some x)) (le_value-le_bytes 8 v (omega arith)),
  )

module _ (e : Endian) (v : ℕ) (rest old buf : List ℕ) (size : ℕ) (fits : size ≤ length buf) where
  -- On either byte order, with a told size of at least 16 bytes that the buffer has: `ssz_serialize_uint128` takes the representation of a
  -- value to a buffer, succeeds and reports 16, and `ssz_deserialize_uint128` puts the representation of
  -- the same value into memory of 16 bytes or more, and leaves what stands behind it.
  pub uint128_round_trip :
      16 ≤ size
      → 16 ≤ length old
      → (out : List ℕ) × (serialize_uint128 e
            (some (host_bytes e 16 v ++ rest))
            (some buf)
            (some size)
          ≡ done (success, some out, some 16))
        × (deserialize_uint128 e (some out) 16 (some old)
            ≡ done (success, some (host_bytes e 16 v ++ drop 16 old)))
  unfolding host_bytes
  uint128_round_trip space room = (
    le_bytes 16 v ++ drop 16 buf,
    serialize_uint128-emit v buf size fits e rest
        ∙ emit-finish (le_bytes 16 v) buf size 16 (length-le_bytes 16 v) space,
    (uint128-WideReader e).reads_wide (le_bytes 16 v) (drop 16 buf) old (length-le_bytes 16 v) room,
  )

  -- On either byte order, with a told size of at least 32 bytes that the buffer has: `ssz_serialize_uint256` takes the representation of a
  -- value to a buffer, succeeds and reports 32, and `ssz_deserialize_uint256` puts the representation of
  -- the same value into memory of 32 bytes or more, and leaves what stands behind it.
  pub uint256_round_trip :
      32 ≤ size
      → 32 ≤ length old
      → (out : List ℕ) × (serialize_uint256 e
            (some (host_bytes e 32 v ++ rest))
            (some buf)
            (some size)
          ≡ done (success, some out, some 32))
        × (deserialize_uint256 e (some out) 32 (some old)
            ≡ done (success, some (host_bytes e 32 v ++ drop 32 old)))
  unfolding host_bytes
  uint256_round_trip space room = (
    le_bytes 32 v ++ drop 32 buf,
    serialize_uint256-emit v buf size fits e rest
        ∙ emit-finish (le_bytes 32 v) buf size 32 (length-le_bytes 32 v) space,
    (uint256-WideReader e).reads_wide (le_bytes 32 v) (drop 32 buf) old (length-le_bytes 32 v) room,
  )

-- With a told size of at least 1 that the buffer has, `ssz_serialize_boolean` succeeds and reports 1, and `ssz_deserialize_boolean`
-- reads the value back from the buffer that it leaves, whatever size from 1 on it is told.
pub boolean_round_trip :
    (b old : Bool) (buf : List ℕ) (size told : ℕ)
    → size ≤ length buf
    → 1 ≤ size
    → 1 ≤ told
    → (out : List ℕ) × (serialize_boolean (some b) (some buf) (some size)
        ≡ done (success, some out, some 1))
      × (deserialize_boolean (some out) told (some old) ≡ done (success, some b))
unfolding serialize_boolean deserialize_boolean
boolean_round_trip b old [] size told fits space h = absurd (omega arith)
boolean_round_trip true old (x ∷ buf) size told fits space h = (1 ∷ buf, ground arith, ground arith)
boolean_round_trip false old (x ∷ buf) size told fits space h =
    (0 ∷ buf, ground arith, ground arith)
