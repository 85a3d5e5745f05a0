-- ===== src/Tests/Unions.antt =====
-- The round trip of a union at concrete data.
use c_ssz.Common.{ℕ, ◌≡◌, refl, arith, List, [], ◌∷◌, Option, some, none, done, Run}
use c_ssz.Types.{SszError, success, SszUnion}
use c_ssz.Serialize.Unions.{serialize_union}
use c_ssz.Deserialize.Unions.{deserialize_union}
use c_ssz.RoundTrip.Unions.{union_round_trip}

-- A payload of one byte.
put_byte : ℕ → List ℕ → ℕ → Run (SszError × List ℕ × ℕ)
put_byte d buf size = done (success, d ∷ [], 1)

abbrev first : List ℕ → Option ℕ
first [] = none
first (b ∷ bs) = some b

get_byte : List ℕ → ℕ → Option ℕ → Run (SszError × Option ℕ)
get_byte bytes size old = done (success, first bytes)

abbrev byte_union : SszUnion ℕ
byte_union = record {
  selector = 5;
  payload = some 42;
  serialize_fn = some put_byte;
  deserialize_fn = none;
}

abbrev empty_union : SszUnion ℕ
empty_union = record {
  selector = 0;
  payload = none;
  serialize_fn = none;
  deserialize_fn = some get_byte;
}

union_round_trip_example :
    (bytes : List ℕ) × (serialize_union (some byte_union) (some (9 ∷ 9 ∷ [])) (some 2)
      ≡ done (success, some bytes, some 2))
    × (deserialize_union (some bytes) 2 (some empty_union)
        ≡ done (success, some (record empty_union { selector = 5; payload = some 42 })))
unfolding put_byte get_byte
union_round_trip_example =
    union_round_trip put_byte get_byte byte_union empty_union 42 9 (9 ∷ []) (42 ∷ []) 2 1
      (omega arith) (omega arith) refl refl refl (omega arith) (omega arith) refl refl
