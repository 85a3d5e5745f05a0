-- ===== src/RoundTrip/Lists.antt =====
-- A list that is serialized and deserialized again comes back, for every element type.
use c_ssz.Common.{
  ℕ, ◌*◌, ◌^◌, ◌≤◌, ◌<◌, ◌≡◌, refl, ◌∙◌, arith, List, [], ◌∷◌, zero, suc, ◌++◌, some, Bool, map,
  length, drop,
}
use c_ssz.Common.{All, length-map, done, ne→==}
use c_ssz.Types.{success}
use c_ssz.Host.{Endian, object_bytes}
use c_ssz.Serialize.{finish}
use c_ssz.Serialize.Emit.{emit_within-finish}
use c_ssz.Serialize.Uints.{bit}
use c_ssz.Serialize.Vectors.Loops.{encoding, length-encoding}
use c_ssz.Serialize.Lists.{serialize_list_uint8, serialize_list_uint16, serialize_list_uint32}
use c_ssz.Serialize.Lists.{serialize_list_uint64, serialize_list_uint128, serialize_list_uint256}
use c_ssz.Serialize.Lists.{serialize_list_bool}
use c_ssz.Serialize.Lists.Encode.{encoded, serialize_list_uint8_lem, serialize_list_uint16_lem}
use c_ssz.Serialize.Lists.Encode.{serialize_list_uint32_lem, serialize_list_uint64_lem}
use c_ssz.Serialize.Lists.Encode.{serialize_list_uint128_lem, serialize_list_uint256_lem}
use c_ssz.Serialize.Lists.Encode.{serialize_list_bool_lem}
use c_ssz.Deserialize.Lists.{
  deserialize_list_uint8, deserialize_list_uint16, deserialize_list_uint32,
}
use c_ssz.Deserialize.Lists.{
  deserialize_list_uint64, deserialize_list_uint128, deserialize_list_uint256,
}
use c_ssz.Deserialize.Lists.{deserialize_list_bool}
use c_ssz.Deserialize.Lists.Decode.{deserialize_list_uint8_lem, deserialize_list_uint16_lem}
use c_ssz.Deserialize.Lists.Decode.{deserialize_list_uint32_lem, deserialize_list_uint64_lem}
use c_ssz.Deserialize.Lists.Decode.{deserialize_list_uint128_lem, deserialize_list_uint256_lem}
use c_ssz.Deserialize.Lists.Decode.{deserialize_list_bool_lem}

-- What the serializer returns where the encoding `bs` has `n` bytes and fits.
written :
    (buf : List ℕ) (size : ℕ) (fits : size ≤ length buf) (bs : List ℕ) (count n w : ℕ)
    → length bs ≡ n
    → n ≡ count * w
    → n ≤ size
    → n < 2 ^ 32
    → encoded buf size fits count bs ≡ finish (bs ++ drop n buf) n
written buf size fits [] zero n w e en h small = rw (← e)
written buf size fits (b ∷ bs) zero n w e en h small = absurd (omega arith)
written buf size fits bs (suc count) n w e en h small =
    rw (ne→== (suc count) 0 (omega arith)) (emit_within-finish bs buf size n e h small)

module _ (buf : List ℕ) (size : ℕ) (fits : size ≤ length buf) (max_length actual : ℕ) where
  -- A list within the limit of the reader, of bytes: with a buffer of at least the told size and
  -- space for the encoding, which has less than 2 ^ 32 bytes, and an output array that holds the
  -- elements, the serializer succeeds and reports the encoding's length, and the deserializer
  -- reads from the buffer that it leaves the elements, and the cells of the output behind them
  -- keep their content; the count that it reports is the number of elements.
  pub list_uint8_round_trip :
      (xs rest old : List ℕ)
      → length xs ≤ max_length
      → length xs ≤ size
      → length xs < 2 ^ 32
      → length xs ≤ length old
      → (out : List ℕ) × (serialize_list_uint8
            (some (xs ++ rest))
            (length xs)
            (some buf)
            (some size)
          ≡ done (success, some out, some (length xs)))
        × (deserialize_list_uint8 (some out) (length xs) max_length (some old) (some actual)
            ≡ done (success, some (xs ++ drop (length xs) old), some (length xs)))
  list_uint8_round_trip xs rest old within space small room = (
    xs ++ drop (length xs) buf,
    serialize_list_uint8_lem buf size fits xs rest
        ∙ written buf size fits (xs) (length xs) (length xs) 1 (refl) (omega arith) space small,
    deserialize_list_uint8_lem (drop (length xs) buf) max_length actual xs old within room,
  )

  -- A list within the limit of the reader, of Booleans: with a buffer of at least the told size
  -- and space for the encoding, which has less than 2 ^ 32 bytes, and an output array that holds
  -- the elements, the serializer succeeds and reports the encoding's length, and the
  -- deserializer reads from the buffer that it leaves the elements, and the cells of the output
  -- behind them keep their content; the count that it reports is the number of elements.
  pub list_bool_round_trip :
      (xs rest old : List Bool)
      → length xs ≤ max_length
      → length xs ≤ size
      → length xs < 2 ^ 32
      → length xs ≤ length old
      → (out : List ℕ) × (serialize_list_bool (some (xs ++ rest)) (length xs) (some buf) (some size)
          ≡ done (success, some out, some (length xs)))
        × (deserialize_list_bool (some out) (length xs) max_length (some old) (some actual)
            ≡ done (success, some (xs ++ drop (length xs) old), some (length xs)))
  list_bool_round_trip xs rest old within space small room = (
    map bit xs ++ drop (length xs) buf,
    serialize_list_bool_lem buf size fits xs rest
        ∙ written buf size fits (map bit xs) (length xs) (length xs) 1 (length-map xs bit)
            (omega arith) space small,
    deserialize_list_bool_lem (drop (length xs) buf) max_length actual xs old within room,
  )

  -- A list within the limit of the reader, of uint16 values (each below 256 ^ 2), on either byte
  -- order of the host: with a buffer of at least the told size and space for the encoding, which
  -- has less than 2 ^ 32 bytes, and an output array that holds the elements, the serializer
  -- succeeds and reports the encoding's length, and the deserializer reads from the buffer that
  -- it leaves the elements, and the cells of the output behind them keep their content; the
  -- count that it reports is the number of elements.
  pub list_uint16_round_trip :
      (e : Endian) (xs rest old : List ℕ)
      → length xs ≤ max_length
      → All (λ x. x < 256 ^ 2) xs
      → length xs * 2 ≤ size
      → length xs * 2 < 2 ^ 32
      → length xs ≤ length old
      → (out : List ℕ) × (serialize_list_uint16 e
            (some (xs ++ rest))
            (length xs)
            (some buf)
            (some size)
          ≡ done (success, some out, some (length xs * 2)))
        × (deserialize_list_uint16 (some out) (length xs * 2) max_length (some old) (some actual)
            ≡ done (success, some (xs ++ drop (length xs) old), some (length xs)))
  list_uint16_round_trip e xs rest old within range space small room = (
    encoding 2 xs ++ drop (length xs * 2) buf,
    serialize_list_uint16_lem buf size fits e xs rest (omega arith)
        ∙ written buf size fits (encoding 2 xs) (length xs) (length xs * 2) 2 (length-encoding 2 xs)
            (omega arith) space small,
    deserialize_list_uint16_lem (drop (length xs * 2) buf) max_length actual xs old within range
        (omega arith) room,
  )

  -- A list within the limit of the reader, of uint32 values (each below 256 ^ 4), on either byte
  -- order of the host: with a buffer of at least the told size and space for the encoding, which
  -- has less than 2 ^ 32 bytes, and an output array that holds the elements, the serializer
  -- succeeds and reports the encoding's length, and the deserializer reads from the buffer that
  -- it leaves the elements, and the cells of the output behind them keep their content; the
  -- count that it reports is the number of elements.
  pub list_uint32_round_trip :
      (e : Endian) (xs rest old : List ℕ)
      → length xs ≤ max_length
      → All (λ x. x < 256 ^ 4) xs
      → length xs * 4 ≤ size
      → length xs * 4 < 2 ^ 32
      → length xs ≤ length old
      → (out : List ℕ) × (serialize_list_uint32 e
            (some (xs ++ rest))
            (length xs)
            (some buf)
            (some size)
          ≡ done (success, some out, some (length xs * 4)))
        × (deserialize_list_uint32 (some out) (length xs * 4) max_length (some old) (some actual)
            ≡ done (success, some (xs ++ drop (length xs) old), some (length xs)))
  list_uint32_round_trip e xs rest old within range space small room = (
    encoding 4 xs ++ drop (length xs * 4) buf,
    serialize_list_uint32_lem buf size fits e xs rest (omega arith)
        ∙ written buf size fits (encoding 4 xs) (length xs) (length xs * 4) 4 (length-encoding 4 xs)
            (omega arith) space small,
    deserialize_list_uint32_lem (drop (length xs * 4) buf) max_length actual xs old within range
        (omega arith) room,
  )

  -- A list within the limit of the reader, of uint64 values (each below 256 ^ 8), on either byte
  -- order of the host: with a buffer of at least the told size and space for the encoding, which
  -- has less than 2 ^ 32 bytes, and an output array that holds the elements, the serializer
  -- succeeds and reports the encoding's length, and the deserializer reads from the buffer that
  -- it leaves the elements, and the cells of the output behind them keep their content; the
  -- count that it reports is the number of elements.
  pub list_uint64_round_trip :
      (e : Endian) (xs rest old : List ℕ)
      → length xs ≤ max_length
      → All (λ x. x < 256 ^ 8) xs
      → length xs * 8 ≤ size
      → length xs * 8 < 2 ^ 32
      → length xs ≤ length old
      → (out : List ℕ) × (serialize_list_uint64 e
            (some (xs ++ rest))
            (length xs)
            (some buf)
            (some size)
          ≡ done (success, some out, some (length xs * 8)))
        × (deserialize_list_uint64 (some out) (length xs * 8) max_length (some old) (some actual)
            ≡ done (success, some (xs ++ drop (length xs) old), some (length xs)))
  list_uint64_round_trip e xs rest old within range space small room = (
    encoding 8 xs ++ drop (length xs * 8) buf,
    serialize_list_uint64_lem buf size fits e xs rest (omega arith)
        ∙ written buf size fits (encoding 8 xs) (length xs) (length xs * 8) 8 (length-encoding 8 xs)
            (omega arith) space small,
    deserialize_list_uint64_lem (drop (length xs * 8) buf) max_length actual xs old within range
        (omega arith) room,
  )

  -- A list within the limit of the reader, of uint128 values, on either byte order of the host:
  -- with a buffer of at least the told size and space for the encoding, which has less than 2 ^
  -- 32 bytes, and an output array that holds the elements, the serializer succeeds and reports
  -- the encoding's length, and the deserializer reads from the buffer that it leaves the
  -- elements in the host's representation, and the memory behind them keeps its content; the
  -- count that it reports is the number of elements.
  pub list_uint128_round_trip :
      (e : Endian) (xs rest old : List ℕ)
      → length xs ≤ max_length
      → length xs * 16 ≤ size
      → length xs * 16 < 2 ^ 32
      → length xs * 16 ≤ length old
      → (out : List ℕ) × (serialize_list_uint128 e
            (some (object_bytes e 16 xs ++ rest))
            (length xs)
            (some buf)
            (some size)
          ≡ done (success, some out, some (length xs * 16)))
        × (deserialize_list_uint128 e
              (some out)
              (length xs * 16)
              max_length
              (some old)
              (some actual)
            ≡ done (
              success,
              some (object_bytes e 16 xs ++ drop (length xs * 16) old),
              some (length xs),
            ))
  list_uint128_round_trip e xs rest old within space small room = (
    encoding 16 xs ++ drop (length xs * 16) buf,
    serialize_list_uint128_lem buf size fits e xs rest (omega arith)
        ∙ written buf size fits (encoding 16 xs) (length xs) (length xs * 16) 16
            (length-encoding 16 xs) (omega arith) space small,
    deserialize_list_uint128_lem (drop (length xs * 16) buf) max_length actual e xs old within
        (omega arith) room,
  )

  -- A list within the limit of the reader, of uint256 values, on either byte order of the host:
  -- with a buffer of at least the told size and space for the encoding, which has less than 2 ^
  -- 32 bytes, and an output array that holds the elements, the serializer succeeds and reports
  -- the encoding's length, and the deserializer reads from the buffer that it leaves the
  -- elements in the host's representation, and the memory behind them keeps its content; the
  -- count that it reports is the number of elements.
  pub list_uint256_round_trip :
      (e : Endian) (xs rest old : List ℕ)
      → length xs ≤ max_length
      → length xs * 32 ≤ size
      → length xs * 32 < 2 ^ 32
      → length xs * 32 ≤ length old
      → (out : List ℕ) × (serialize_list_uint256 e
            (some (object_bytes e 32 xs ++ rest))
            (length xs)
            (some buf)
            (some size)
          ≡ done (success, some out, some (length xs * 32)))
        × (deserialize_list_uint256 e
              (some out)
              (length xs * 32)
              max_length
              (some old)
              (some actual)
            ≡ done (
              success,
              some (object_bytes e 32 xs ++ drop (length xs * 32) old),
              some (length xs),
            ))
  list_uint256_round_trip e xs rest old within space small room = (
    encoding 32 xs ++ drop (length xs * 32) buf,
    serialize_list_uint256_lem buf size fits e xs rest (omega arith)
        ∙ written buf size fits (encoding 32 xs) (length xs) (length xs * 32) 32
            (length-encoding 32 xs) (omega arith) space small,
    deserialize_list_uint256_lem (drop (length xs * 32) buf) max_length actual e xs old within
        (omega arith) room,
  )
