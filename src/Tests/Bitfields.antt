-- ===== src/Tests/Bitfields.antt =====
-- The round trip of bitvectors and bitlists at concrete data.
use c_ssz.Common.{ℕ, ◌≡◌, arith, List, [], ◌∷◌, ◌++◌, some, Bool, true, false, done, replicate}
use c_ssz.Types.{success}
use c_ssz.Bitfield.{bitlist_bytes, bitvector_bytes}
use c_ssz.Serialize.Emit.{emit}
use c_ssz.Serialize.Bitfields.Bitlist.{serialize_bitlist_lem}
use c_ssz.Serialize.Bitfields.Bitvector.{serialize_bitvector_lem}
use c_ssz.Serialize.Bitfields.{serialize_bitvector, serialize_bitlist}
use c_ssz.Deserialize.Bitfields.{deserialize_bitvector, deserialize_bitlist}
use c_ssz.RoundTrip.Bitfields.{bitvector_round_trip, bitlist_round_trip}

-- Ten bits.
abbrev bits : List Bool
bits = true ∷ false ∷ true ∷ true ∷ false ∷ false ∷ false ∷ true ∷ false ∷ true ∷ []

bitvector_round_trip_example :
    (out : List ℕ) × (serialize_bitvector
        (some (bits ++ true ∷ []))
        10
        (some (9 ∷ 9 ∷ 9 ∷ []))
        (some 3)
      ≡ done (success, some out, some 2))
    × (deserialize_bitvector (some out) 2 10 (some (replicate 11 true))
        ≡ done (success, some (bits ++ true ∷ [])))
bitvector_round_trip_example =
    bitvector_round_trip bits (true ∷ []) (replicate 11 true) (9 ∷ 9 ∷ 9 ∷ []) 3 (omega arith)
      (omega arith) (omega arith) (omega arith) (omega arith)

bitlist_round_trip_example :
    (out : List ℕ) × (serialize_bitlist
        (some (bits ++ true ∷ []))
        10
        (some (9 ∷ 9 ∷ 9 ∷ []))
        (some 3)
      ≡ done (success, some out, some 2))
    × (deserialize_bitlist (some out) 2 12 (some (replicate 13 true)) (some 0)
        ≡ done (success, some (bits ++ false ∷ false ∷ true ∷ []), some 10))
bitlist_round_trip_example =
    bitlist_round_trip bits (true ∷ []) (replicate 13 true) (9 ∷ 9 ∷ 9 ∷ []) 3 12 0 (omega arith)
      (omega arith) (omega arith) (omega arith) (omega arith) (omega arith)

serialize_bitlist_lem_example :
    serialize_bitlist (some (bits ++ [])) 10 (some (9 ∷ 9 ∷ 9 ∷ [])) (some 1)
    ≡ emit (bitlist_bytes bits) (9 ∷ 9 ∷ 9 ∷ []) 1
serialize_bitlist_lem_example =
    serialize_bitlist_lem bits [] (9 ∷ 9 ∷ 9 ∷ []) 1 (omega arith) (omega arith)

serialize_bitvector_lem_example :
    serialize_bitvector (some (bits ++ [])) 10 (some (9 ∷ 9 ∷ 9 ∷ [])) (some 2)
    ≡ emit (bitvector_bytes bits) (9 ∷ 9 ∷ 9 ∷ []) 2
serialize_bitvector_lem_example =
    serialize_bitvector_lem bits [] (9 ∷ 9 ∷ 9 ∷ []) 2 (omega arith) (omega arith) (omega arith)
