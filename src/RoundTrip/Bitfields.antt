-- ===== src/RoundTrip/Bitfields.antt =====
-- A bitvector or a bitlist that is serialized and deserialized again comes back.
use c_ssz.Common.{ℕ, ◌+◌, ◌/◌, ◌^◌, ◌≤◌, ◌<◌, ◌≡◌, ◌∙◌, List, ◌++◌, some, Bool, length, drop, done}
use c_ssz.Types.{success}
use c_ssz.Host.{length-le_bytes}
use c_ssz.Bitfield.{bits_value, bitvector_bytes}
use c_ssz.Serialize.Emit.{emit-finish}
use c_ssz.Serialize.Bitfields.{serialize_bitvector}
use c_ssz.Serialize.Bitfields.Bitvector.{serialize_bitvector_lem}
use c_ssz.Deserialize.Bitfields.{deserialize_bitvector}
use c_ssz.Deserialize.Bitfields.Bitvector.{deserialize_bitvector_lem}
use c_ssz.Common.{arith, suc, replicate, ◌-◌, true, false, [], ◌∷◌}
use c_ssz.Bitfield.{bitlist_bytes}
use c_ssz.Serialize.Bitfields.{serialize_bitlist}
use c_ssz.Serialize.Bitfields.Bitlist.{serialize_bitlist_lem}
use c_ssz.Deserialize.Bitfields.{deserialize_bitlist}
use c_ssz.Deserialize.Bitfields.Bitlist.{deserialize_bitlist_lem}

length-bitvector_bytes : (bs : List Bool) → length (bitvector_bytes bs) ≡ (length bs + 7) / 8
unfolding bitvector_bytes
length-bitvector_bytes bs = length-le_bytes ((length bs + 7) / 8) (bits_value bs)

module _ (bs rest old : List Bool) (buf : List ℕ) (size : ℕ) (fits : size ≤ length buf) where
  -- For one bit or more, short of the wrap of `num_bits + 7`: with space for the bytes that the bits
  -- need, `ssz_serialize_bitvector` succeeds and reports their number, and
  -- `ssz_deserialize_bitvector`, told that number and the count of bits, reads the bits from the
  -- buffer that it leaves into an array with room for them, whose other cells keep their content.
  pub bitvector_round_trip :
      0 < length bs
      → length bs + 7 < 2 ^ 64
      → (length bs + 7) / 8 ≤ size
      → length bs ≤ length old
      → (out : List ℕ) × (serialize_bitvector (some (bs ++ rest)) (length bs) (some buf) (some size)
          ≡ done (success, some out, some ((length bs + 7) / 8)))
        × (deserialize_bitvector (some out) ((length bs + 7) / 8) (length bs) (some old)
            ≡ done (success, some (bs ++ drop (length bs) old)))
  bitvector_round_trip pos small space room = (
    bitvector_bytes bs ++ drop ((length bs + 7) / 8) buf,
    serialize_bitvector_lem bs rest buf size pos small fits
        ∙ emit-finish (bitvector_bytes bs) buf size ((length bs + 7) / 8)
            (length-bitvector_bytes bs) space,
    deserialize_bitvector_lem bs (drop ((length bs + 7) / 8) buf) old pos small room,
  )

length-bitlist_bytes : (bs : List Bool) → length (bitlist_bytes bs) ≡ suc (length bs / 8)
unfolding bitlist_bytes
length-bitlist_bytes bs = length-le_bytes (suc (length bs / 8)) (bits_value (bs ++ true ∷ []))

module _ (bs rest old : List Bool) (buf : List ℕ) (size max_bits actual : ℕ)
    (fits : size ≤ length buf) where
  -- For fewer than 2 ^ 63 bits, up to the reader's limit `max_bits`, which is short of the wrap of
  -- `max_bits + 8`: with space for the bits and the delimiter in a buffer of at least the told size,
  -- `ssz_serialize_bitlist` succeeds and reports the number of bytes, and `ssz_deserialize_bitlist`, told
  -- that number, reads the bits from the buffer that it leaves into an array of at least `max_bits`
  -- cells, clears the cells behind them up to `max_bits`, leaves the others, and reports the number of
  -- bits.
  pub bitlist_round_trip :
      length bs < 2 ^ 63
      → length bs ≤ max_bits
      → max_bits + 8 < 2 ^ 64
      → suc (length bs / 8) ≤ size
      → max_bits ≤ length old
      → (out : List ℕ) × (serialize_bitlist (some (bs ++ rest)) (length bs) (some buf) (some size)
          ≡ done (success, some out, some (suc (length bs / 8))))
        × (deserialize_bitlist (some out) (suc (length bs / 8)) max_bits (some old) (some actual)
            ≡ done (
              success,
              some (bs ++ (replicate (max_bits - length bs) false ++ drop max_bits old)),
              some (length bs),
            ))
  bitlist_round_trip addressed within small space room = (
    bitlist_bytes bs ++ drop (suc (length bs / 8)) buf,
    serialize_bitlist_lem bs rest buf size (omega arith) fits
        ∙ emit-finish (bitlist_bytes bs) buf size (suc (length bs / 8)) (length-bitlist_bytes bs)
            space,
    deserialize_bitlist_lem bs (drop (suc (length bs / 8)) buf) max_bits old within room actual
        small addressed,
  )
