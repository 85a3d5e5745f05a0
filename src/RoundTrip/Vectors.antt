-- ===== src/RoundTrip/Vectors.antt =====
-- A vector that is serialized and deserialized again comes back, for every element type.
use c_ssz.Common.{
  ℕ, ◌*◌, ◌^◌, ◌≤◌, ◌<◌, ◌≡◌, refl, ◌∙◌, arith, List, ◌++◌, some, Bool, map, length, drop,
}
use c_ssz.Common.{All, length-map, done, ne→==}
use c_ssz.Types.{success}
use c_ssz.Host.{Endian, object_bytes}
use c_ssz.Serialize.{finish}
use c_ssz.Serialize.Emit.{emit_within-finish}
use c_ssz.Serialize.Uints.{bit}
use c_ssz.Serialize.Vectors.Loops.{encoding, length-encoding}
use c_ssz.Serialize.Vectors.{
  serialize_vector_uint8, serialize_vector_uint16, serialize_vector_uint32,
}
use c_ssz.Serialize.Vectors.{
  serialize_vector_uint64, serialize_vector_uint128, serialize_vector_uint256,
}
use c_ssz.Serialize.Vectors.{serialize_vector_bool}
use c_ssz.Serialize.Vectors.Encode.{
  encoded, serialize_vector_uint8_lem, serialize_vector_uint16_lem,
}
use c_ssz.Serialize.Vectors.Encode.{serialize_vector_uint32_lem, serialize_vector_uint64_lem}
use c_ssz.Serialize.Vectors.Encode.{serialize_vector_uint128_lem, serialize_vector_uint256_lem}
use c_ssz.Serialize.Vectors.Encode.{serialize_vector_bool_lem}
use c_ssz.Deserialize.Vectors.{
  deserialize_vector_uint8, deserialize_vector_uint16, deserialize_vector_uint32,
}
use c_ssz.Deserialize.Vectors.{
  deserialize_vector_uint64, deserialize_vector_uint128, deserialize_vector_uint256,
}
use c_ssz.Deserialize.Vectors.{deserialize_vector_bool}
use c_ssz.Deserialize.Vectors.Decode.{deserialize_vector_uint8_lem, deserialize_vector_uint16_lem}
use c_ssz.Deserialize.Vectors.Decode.{deserialize_vector_uint32_lem, deserialize_vector_uint64_lem}
use c_ssz.Deserialize.Vectors.Decode.{
  deserialize_vector_uint128_lem, deserialize_vector_uint256_lem,
}
use c_ssz.Deserialize.Vectors.Decode.{deserialize_vector_bool_lem}

-- What the serializer returns where the encoding `bs` has `n` bytes and fits.
written :
    (buf : List ℕ) (size : ℕ) (fits : size ≤ length buf) (bs : List ℕ) (count n : ℕ)
    → length bs ≡ n
    → 0 < count
    → n ≤ size
    → n < 2 ^ 32
    → encoded buf size fits count bs ≡ finish (bs ++ drop n buf) n
written buf size fits bs count n e pos h small =
    rw (ne→== count 0 (omega arith)) (emit_within-finish bs buf size n e h small)

module _ (buf : List ℕ) (size : ℕ) (fits : size ≤ length buf) where
  -- A vector of at least one element, of bytes: with a buffer of at least the told size and
  -- space for the encoding, which has less than 2 ^ 32 bytes, and an output array that holds the
  -- elements, the serializer succeeds and reports the encoding's length, and the deserializer
  -- reads from the buffer that it leaves the elements, and the cells of the output behind them
  -- keep their content.
  pub vector_uint8_round_trip :
      (xs rest old : List ℕ)
      → 0 < length xs
      → length xs ≤ size
      → length xs < 2 ^ 32
      → length xs ≤ length old
      → (out : List ℕ) × (serialize_vector_uint8
            (some (xs ++ rest))
            (length xs)
            (some buf)
            (some size)
          ≡ done (success, some out, some (length xs)))
        × (deserialize_vector_uint8 (some out) (length xs) (length xs) (some old)
            ≡ done (success, some (xs ++ drop (length xs) old)))
  vector_uint8_round_trip xs rest old pos space small room = (
    xs ++ drop (length xs) buf,
    serialize_vector_uint8_lem buf size fits xs rest
        ∙ written buf size fits (xs) (length xs) (length xs) (refl) pos space small,
    deserialize_vector_uint8_lem (drop (length xs) buf) xs old pos (omega arith) room,
  )

  -- A vector of at least one element, of Booleans: with a buffer of at least the told size and
  -- space for the encoding, which has less than 2 ^ 32 bytes, and an output array that holds the
  -- elements, the serializer succeeds and reports the encoding's length, and the deserializer
  -- reads from the buffer that it leaves the elements, and the cells of the output behind them
  -- keep their content.
  pub vector_bool_round_trip :
      (xs rest old : List Bool)
      → 0 < length xs
      → length xs ≤ size
      → length xs < 2 ^ 32
      → length xs ≤ length old
      → (out : List ℕ) × (serialize_vector_bool
            (some (xs ++ rest))
            (length xs)
            (some buf)
            (some size)
          ≡ done (success, some out, some (length xs)))
        × (deserialize_vector_bool (some out) (length xs) (length xs) (some old)
            ≡ done (success, some (xs ++ drop (length xs) old)))
  vector_bool_round_trip xs rest old pos space small room = (
    map bit xs ++ drop (length xs) buf,
    serialize_vector_bool_lem buf size fits xs rest
        ∙ written buf size fits (map bit xs) (length xs) (length xs) (length-map xs bit) pos space
            small,
    deserialize_vector_bool_lem (drop (length xs) buf) xs old pos room,
  )

  -- A vector of at least one element, of uint16 values (each below 256 ^ 2), on either byte
  -- order of the host: with a buffer of at least the told size and space for the encoding, which
  -- has less than 2 ^ 32 bytes, and an output array that holds the elements, the serializer
  -- succeeds and reports the encoding's length, and the deserializer reads from the buffer that
  -- it leaves the elements, and the cells of the output behind them keep their content.
  pub vector_uint16_round_trip :
      (e : Endian) (xs rest old : List ℕ)
      → 0 < length xs
      → All (λ x. x < 256 ^ 2) xs
      → length xs * 2 ≤ size
      → length xs * 2 < 2 ^ 32
      → length xs ≤ length old
      → (out : List ℕ) × (serialize_vector_uint16 e
            (some (xs ++ rest))
            (length xs)
            (some buf)
            (some size)
          ≡ done (success, some out, some (length xs * 2)))
        × (deserialize_vector_uint16 (some out) (length xs * 2) (length xs) (some old)
            ≡ done (success, some (xs ++ drop (length xs) old)))
  vector_uint16_round_trip e xs rest old pos range space small room = (
    encoding 2 xs ++ drop (length xs * 2) buf,
    serialize_vector_uint16_lem buf size fits e xs rest (omega arith)
        ∙ written buf size fits (encoding 2 xs) (length xs) (length xs * 2) (length-encoding 2 xs)
            pos space small,
    deserialize_vector_uint16_lem (drop (length xs * 2) buf) xs old pos range (omega arith) room,
  )

  -- A vector of at least one element, of uint32 values (each below 256 ^ 4), on either byte
  -- order of the host: with a buffer of at least the told size and space for the encoding, which
  -- has less than 2 ^ 32 bytes, and an output array that holds the elements, the serializer
  -- succeeds and reports the encoding's length, and the deserializer reads from the buffer that
  -- it leaves the elements, and the cells of the output behind them keep their content.
  pub vector_uint32_round_trip :
      (e : Endian) (xs rest old : List ℕ)
      → 0 < length xs
      → All (λ x. x < 256 ^ 4) xs
      → length xs * 4 ≤ size
      → length xs * 4 < 2 ^ 32
      → length xs ≤ length old
      → (out : List ℕ) × (serialize_vector_uint32 e
            (some (xs ++ rest))
            (length xs)
            (some buf)
            (some size)
          ≡ done (success, some out, some (length xs * 4)))
        × (deserialize_vector_uint32 (some out) (length xs * 4) (length xs) (some old)
            ≡ done (success, some (xs ++ drop (length xs) old)))
  vector_uint32_round_trip e xs rest old pos range space small room = (
    encoding 4 xs ++ drop (length xs * 4) buf,
    serialize_vector_uint32_lem buf size fits e xs rest (omega arith)
        ∙ written buf size fits (encoding 4 xs) (length xs) (length xs * 4) (length-encoding 4 xs)
            pos space small,
    deserialize_vector_uint32_lem (drop (length xs * 4) buf) xs old pos range (omega arith) room,
  )

  -- A vector of at least one element, of uint64 values (each below 256 ^ 8), on either byte
  -- order of the host: with a buffer of at least the told size and space for the encoding, which
  -- has less than 2 ^ 32 bytes, and an output array that holds the elements, the serializer
  -- succeeds and reports the encoding's length, and the deserializer reads from the buffer that
  -- it leaves the elements, and the cells of the output behind them keep their content.
  pub vector_uint64_round_trip :
      (e : Endian) (xs rest old : List ℕ)
      → 0 < length xs
      → All (λ x. x < 256 ^ 8) xs
      → length xs * 8 ≤ size
      → length xs * 8 < 2 ^ 32
      → length xs ≤ length old
      → (out : List ℕ) × (serialize_vector_uint64 e
            (some (xs ++ rest))
            (length xs)
            (some buf)
            (some size)
          ≡ done (success, some out, some (length xs * 8)))
        × (deserialize_vector_uint64 (some out) (length xs * 8) (length xs) (some old)
            ≡ done (success, some (xs ++ drop (length xs) old)))
  vector_uint64_round_trip e xs rest old pos range space small room = (
    encoding 8 xs ++ drop (length xs * 8) buf,
    serialize_vector_uint64_lem buf size fits e xs rest (omega arith)
        ∙ written buf size fits (encoding 8 xs) (length xs) (length xs * 8) (length-encoding 8 xs)
            pos space small,
    deserialize_vector_uint64_lem (drop (length xs * 8) buf) xs old pos range (omega arith) room,
  )

  -- A vector of at least one element, of uint128 values, on either byte order of the host: with
  -- a buffer of at least the told size and space for the encoding, which has less than 2 ^ 32
  -- bytes, and an output array that holds the elements, the serializer succeeds and reports the
  -- encoding's length, and the deserializer reads from the buffer that it leaves the elements in
  -- the host's representation, and the memory behind them keeps its content.
  pub vector_uint128_round_trip :
      (e : Endian) (xs rest old : List ℕ)
      → 0 < length xs
      → length xs * 16 ≤ size
      → length xs * 16 < 2 ^ 32
      → length xs * 16 ≤ length old
      → (out : List ℕ) × (serialize_vector_uint128 e
            (some (object_bytes e 16 xs ++ rest))
            (length xs)
            (some buf)
            (some size)
          ≡ done (success, some out, some (length xs * 16)))
        × (deserialize_vector_uint128 e (some out) (length xs * 16) (length xs) (some old)
            ≡ done (success, some (object_bytes e 16 xs ++ drop (length xs * 16) old)))
  vector_uint128_round_trip e xs rest old pos space small room = (
    encoding 16 xs ++ drop (length xs * 16) buf,
    serialize_vector_uint128_lem buf size fits e xs rest (omega arith)
        ∙ written buf size fits (encoding 16 xs) (length xs) (length xs * 16)
            (length-encoding 16 xs) pos space small,
    deserialize_vector_uint128_lem (drop (length xs * 16) buf) e xs old pos (omega arith) room,
  )

  -- A vector of at least one element, of uint256 values, on either byte order of the host: with
  -- a buffer of at least the told size and space for the encoding, which has less than 2 ^ 32
  -- bytes, and an output array that holds the elements, the serializer succeeds and reports the
  -- encoding's length, and the deserializer reads from the buffer that it leaves the elements in
  -- the host's representation, and the memory behind them keeps its content.
  pub vector_uint256_round_trip :
      (e : Endian) (xs rest old : List ℕ)
      → 0 < length xs
      → length xs * 32 ≤ size
      → length xs * 32 < 2 ^ 32
      → length xs * 32 ≤ length old
      → (out : List ℕ) × (serialize_vector_uint256 e
            (some (object_bytes e 32 xs ++ rest))
            (length xs)
            (some buf)
            (some size)
          ≡ done (success, some out, some (length xs * 32)))
        × (deserialize_vector_uint256 e (some out) (length xs * 32) (length xs) (some old)
            ≡ done (success, some (object_bytes e 32 xs ++ drop (length xs * 32) old)))
  vector_uint256_round_trip e xs rest old pos space small room = (
    encoding 32 xs ++ drop (length xs * 32) buf,
    serialize_vector_uint256_lem buf size fits e xs rest (omega arith)
        ∙ written buf size fits (encoding 32 xs) (length xs) (length xs * 32)
            (length-encoding 32 xs) pos space small,
    deserialize_vector_uint256_lem (drop (length xs * 32) buf) e xs old pos (omega arith) room,
  )
