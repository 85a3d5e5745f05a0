-- ===== src/Tests/Uints.antt =====
-- The round trips of unsigned integers and Booleans at concrete data.
use c_ssz.Common.{ℕ, ◌≡◌, arith, List, [], ◌∷◌, ◌++◌, some, true, false, done, replicate}
use c_ssz.Types.{success}
use c_ssz.Host.{big, host_bytes}
use c_ssz.Serialize.Uints.{serialize_uint32}
use c_ssz.Deserialize.Uints.{deserialize_uint32}
use c_ssz.RoundTrip.Uints.{uint32_round_trip}
use c_ssz.Serialize.Uints.{serialize_uint64}
use c_ssz.Deserialize.Uints.{deserialize_uint64}
use c_ssz.RoundTrip.Uints.{uint64_round_trip}
use c_ssz.Serialize.Uints.{serialize_uint128}
use c_ssz.Deserialize.Uints.{deserialize_uint128}
use c_ssz.RoundTrip.Uints.{uint128_round_trip}
use c_ssz.Serialize.Uints.{serialize_uint256}
use c_ssz.Deserialize.Uints.{deserialize_uint256}
use c_ssz.RoundTrip.Uints.{uint256_round_trip}
use c_ssz.Serialize.Uints.{serialize_boolean}
use c_ssz.Deserialize.Uints.{deserialize_boolean}
use c_ssz.RoundTrip.Uints.{boolean_round_trip}

-- A buffer of 40 bytes.
abbrev space : List ℕ
space = replicate 40 0

uint32_round_trip_example :
    (out : List ℕ) × (serialize_uint32 (some 40000) (some space) (some 40)
      ≡ done (success, some out, some 4))
    × (deserialize_uint32 (some out) 4 (some 5) ≡ done (success, some 40000))
uint32_round_trip_example =
    uint32_round_trip 40000 5 space 40 (omega arith) (omega arith) (omega arith)

uint64_round_trip_example :
    (out : List ℕ) × (serialize_uint64 (some 40000) (some space) (some 40)
      ≡ done (success, some out, some 8))
    × (deserialize_uint64 (some out) 8 (some 5) ≡ done (success, some 40000))
uint64_round_trip_example =
    uint64_round_trip 40000 5 space 40 (omega arith) (omega arith) (omega arith)

uint128_round_trip_example :
    (out : List ℕ) × (serialize_uint128 big
        (some (host_bytes big 16 40000 ++ 3 ∷ []))
        (some space)
        (some 40)
      ≡ done (success, some out, some 16))
    × (deserialize_uint128 big (some out) 16 (some (replicate 33 9))
        ≡ done (success, some (host_bytes big 16 40000 ++ replicate 17 9)))
uint128_round_trip_example =
    uint128_round_trip big 40000 (3 ∷ []) (replicate 33 9) space 40 (omega arith) (omega arith)
      (omega arith)

uint256_round_trip_example :
    (out : List ℕ) × (serialize_uint256 big
        (some (host_bytes big 32 40000 ++ 3 ∷ []))
        (some space)
        (some 40)
      ≡ done (success, some out, some 32))
    × (deserialize_uint256 big (some out) 32 (some (replicate 33 9))
        ≡ done (success, some (host_bytes big 32 40000 ++ replicate 1 9)))
uint256_round_trip_example =
    uint256_round_trip big 40000 (3 ∷ []) (replicate 33 9) space 40 (omega arith) (omega arith)
      (omega arith)

boolean_round_trip_example :
    (out : List ℕ) × (serialize_boolean (some true) (some space) (some 40)
      ≡ done (success, some out, some 1))
    × (deserialize_boolean (some out) 3 (some false) ≡ done (success, some true))
boolean_round_trip_example =
    boolean_round_trip true false space 40 3 (omega arith) (omega arith) (omega arith)
