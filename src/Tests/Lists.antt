-- ===== src/Tests/Lists.antt =====
-- The round trips of lists at concrete data.
use c_ssz.Common.{ℕ, ◌≡◌, arith, List, [], ◌∷◌, ◌++◌, some, Bool, true, false, done, replicate}
use c_ssz.Types.{success}
use c_ssz.Host.{little, big, object_bytes}
use c_ssz.Serialize.Lists.{serialize_list_bool}
use c_ssz.Deserialize.Lists.{deserialize_list_bool}
use c_ssz.RoundTrip.Lists.{list_bool_round_trip}
use c_ssz.Serialize.Lists.{serialize_list_uint32}
use c_ssz.Deserialize.Lists.{deserialize_list_uint32}
use c_ssz.RoundTrip.Lists.{list_uint32_round_trip}
use c_ssz.Serialize.Lists.{serialize_list_uint64}
use c_ssz.Deserialize.Lists.{deserialize_list_uint64}
use c_ssz.RoundTrip.Lists.{list_uint64_round_trip}
use c_ssz.Serialize.Lists.{serialize_list_uint128}
use c_ssz.Deserialize.Lists.{deserialize_list_uint128}
use c_ssz.RoundTrip.Lists.{list_uint128_round_trip}
use c_ssz.Serialize.Lists.{serialize_list_uint256}
use c_ssz.Deserialize.Lists.{deserialize_list_uint256}
use c_ssz.RoundTrip.Lists.{list_uint256_round_trip}

-- A buffer of 80 bytes.
abbrev space : List ℕ
space = replicate 80 0

-- What stands in the output array before.
abbrev cells : List ℕ
cells = 7 ∷ 7 ∷ 7 ∷ []

abbrev values : List ℕ
values = 1 ∷ 200 ∷ []

abbrev flags : List Bool
flags = true ∷ false ∷ []

abbrev old_flags : List Bool
old_flags = true ∷ true ∷ true ∷ []

list_bool_round_trip_example :
    (out : List ℕ) × (serialize_list_bool (some (flags ++ (true ∷ []))) 2 (some space) (some 80)
      ≡ done (success, some out, some 2))
    × (deserialize_list_bool (some out) 2 5 (some old_flags) (some 0)
        ≡ done (success, some (true ∷ false ∷ true ∷ []), some 2))
list_bool_round_trip_example =
    list_bool_round_trip space 80 (omega arith) 5 0 flags (true ∷ []) old_flags (omega arith)
      (omega arith) (omega arith) (omega arith)

list_uint32_round_trip_example :
    (out : List ℕ) × (serialize_list_uint32 big (some (values ++ (3 ∷ []))) 2 (some space) (some 80)
      ≡ done (success, some out, some 8))
    × (deserialize_list_uint32 (some out) 8 5 (some cells) (some 0)
        ≡ done (success, some (1 ∷ 200 ∷ 7 ∷ []), some 2))
list_uint32_round_trip_example =
    list_uint32_round_trip space 80 (omega arith) 5 0 big values (3 ∷ []) cells (omega arith)
      (omega arith, (omega arith, tt)) (omega arith) (omega arith) (omega arith)

list_uint64_round_trip_example :
    (out : List ℕ) × (serialize_list_uint64 big (some (values ++ (3 ∷ []))) 2 (some space) (some 80)
      ≡ done (success, some out, some 16))
    × (deserialize_list_uint64 (some out) 16 5 (some cells) (some 0)
        ≡ done (success, some (1 ∷ 200 ∷ 7 ∷ []), some 2))
list_uint64_round_trip_example =
    list_uint64_round_trip space 80 (omega arith) 5 0 big values (3 ∷ []) cells (omega arith)
      (omega arith, (omega arith, tt)) (omega arith) (omega arith) (omega arith)

list_uint128_round_trip_example :
    (out : List ℕ) × (serialize_list_uint128 little
        (some (object_bytes little 16 values ++ (3 ∷ [])))
        2
        (some space)
        (some 80)
      ≡ done (success, some out, some 32))
    × (deserialize_list_uint128 little (some out) 32 5 (some (replicate 70 9)) (some 0)
        ≡ done (success, some (object_bytes little 16 values ++ replicate 38 9), some 2))
list_uint128_round_trip_example =
    list_uint128_round_trip space 80 (omega arith) 5 0 little values (3 ∷ []) (replicate 70 9)
      (omega arith) (omega arith) (omega arith) (omega arith)

list_uint256_round_trip_example :
    (out : List ℕ) × (serialize_list_uint256 big
        (some (object_bytes big 32 values ++ (3 ∷ [])))
        2
        (some space)
        (some 80)
      ≡ done (success, some out, some 64))
    × (deserialize_list_uint256 big (some out) 64 5 (some (replicate 70 9)) (some 0)
        ≡ done (success, some (object_bytes big 32 values ++ replicate 6 9), some 2))
list_uint256_round_trip_example =
    list_uint256_round_trip space 80 (omega arith) 5 0 big values (3 ∷ []) (replicate 70 9)
      (omega arith) (omega arith) (omega arith) (omega arith)
