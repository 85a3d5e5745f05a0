-- ===== src/Tests/Vectors.antt =====
-- The round trips of vectors at concrete data.
use c_ssz.Common.{ℕ, ◌≡◌, arith, List, [], ◌∷◌, ◌++◌, some, Bool, true, false, done, replicate}
use c_ssz.Types.{success}
use c_ssz.Host.{little, big, object_bytes}
use c_ssz.Serialize.Vectors.{serialize_vector_uint8}
use c_ssz.Deserialize.Vectors.{deserialize_vector_uint8}
use c_ssz.RoundTrip.Vectors.{vector_uint8_round_trip}
use c_ssz.Serialize.Vectors.{serialize_vector_bool}
use c_ssz.Deserialize.Vectors.{deserialize_vector_bool}
use c_ssz.RoundTrip.Vectors.{vector_bool_round_trip}
use c_ssz.Serialize.Vectors.{serialize_vector_uint32}
use c_ssz.Deserialize.Vectors.{deserialize_vector_uint32}
use c_ssz.RoundTrip.Vectors.{vector_uint32_round_trip}
use c_ssz.Serialize.Vectors.{serialize_vector_uint64}
use c_ssz.Deserialize.Vectors.{deserialize_vector_uint64}
use c_ssz.RoundTrip.Vectors.{vector_uint64_round_trip}
use c_ssz.Serialize.Vectors.{serialize_vector_uint128}
use c_ssz.Deserialize.Vectors.{deserialize_vector_uint128}
use c_ssz.RoundTrip.Vectors.{vector_uint128_round_trip}
use c_ssz.Serialize.Vectors.{serialize_vector_uint256}
use c_ssz.Deserialize.Vectors.{deserialize_vector_uint256}
use c_ssz.RoundTrip.Vectors.{vector_uint256_round_trip}

-- A buffer of 80 bytes.
abbrev space : List ℕ
space = replicate 80 0

-- What stands in the output array before.
abbrev cells : List ℕ
cells = 7 ∷ 7 ∷ 7 ∷ []

abbrev values : List ℕ
values = 1 ∷ 200 ∷ []

abbrev flags : List Bool
flags = true ∷ false ∷ []

abbrev old_flags : List Bool
old_flags = true ∷ true ∷ true ∷ []

vector_uint8_round_trip_example :
    (out : List ℕ) × (serialize_vector_uint8 (some (values ++ (3 ∷ []))) 2 (some space) (some 80)
      ≡ done (success, some out, some 2))
    × (deserialize_vector_uint8 (some out) 2 2 (some cells)
        ≡ done (success, some (1 ∷ 200 ∷ 7 ∷ [])))
vector_uint8_round_trip_example =
    vector_uint8_round_trip space 80 (omega arith) values (3 ∷ []) cells (omega arith) (omega arith)
      (omega arith) (omega arith)

vector_bool_round_trip_example :
    (out : List ℕ) × (serialize_vector_bool (some (flags ++ (true ∷ []))) 2 (some space) (some 80)
      ≡ done (success, some out, some 2))
    × (deserialize_vector_bool (some out) 2 2 (some old_flags)
        ≡ done (success, some (true ∷ false ∷ true ∷ [])))
vector_bool_round_trip_example =
    vector_bool_round_trip space 80 (omega arith) flags (true ∷ []) old_flags (omega arith)
      (omega arith) (omega arith) (omega arith)

vector_uint32_round_trip_example :
    (out : List ℕ) × (serialize_vector_uint32 big
        (some (values ++ (3 ∷ [])))
        2
        (some space)
        (some 80)
      ≡ done (success, some out, some 8))
    × (deserialize_vector_uint32 (some out) 8 2 (some cells)
        ≡ done (success, some (1 ∷ 200 ∷ 7 ∷ [])))
vector_uint32_round_trip_example =
    vector_uint32_round_trip space 80 (omega arith) big values (3 ∷ []) cells (omega arith)
      (omega arith, (omega arith, tt)) (omega arith) (omega arith) (omega arith)

vector_uint64_round_trip_example :
    (out : List ℕ) × (serialize_vector_uint64 big
        (some (values ++ (3 ∷ [])))
        2
        (some space)
        (some 80)
      ≡ done (success, some out, some 16))
    × (deserialize_vector_uint64 (some out) 16 2 (some cells)
        ≡ done (success, some (1 ∷ 200 ∷ 7 ∷ [])))
vector_uint64_round_trip_example =
    vector_uint64_round_trip space 80 (omega arith) big values (3 ∷ []) cells (omega arith)
      (omega arith, (omega arith, tt)) (omega arith) (omega arith) (omega arith)

vector_uint128_round_trip_example :
    (out : List ℕ) × (serialize_vector_uint128 little
        (some (object_bytes little 16 values ++ (3 ∷ [])))
        2
        (some space)
        (some 80)
      ≡ done (success, some out, some 32))
    × (deserialize_vector_uint128 little (some out) 32 2 (some (replicate 70 9))
        ≡ done (success, some (object_bytes little 16 values ++ replicate 38 9)))
vector_uint128_round_trip_example =
    vector_uint128_round_trip space 80 (omega arith) little values (3 ∷ []) (replicate 70 9)
      (omega arith) (omega arith) (omega arith) (omega arith)

vector_uint256_round_trip_example :
    (out : List ℕ) × (serialize_vector_uint256 big
        (some (object_bytes big 32 values ++ (3 ∷ [])))
        2
        (some space)
        (some 80)
      ≡ done (success, some out, some 64))
    × (deserialize_vector_uint256 big (some out) 64 2 (some (replicate 70 9))
        ≡ done (success, some (object_bytes big 32 values ++ replicate 6 9)))
vector_uint256_round_trip_example =
    vector_uint256_round_trip space 80 (omega arith) big values (3 ∷ []) (replicate 70 9)
      (omega arith) (omega arith) (omega arith) (omega arith)
