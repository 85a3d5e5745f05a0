-- ===== src/Tests/Attestation.antt =====
-- The Attestation's serializer and deserializer at concrete data.
use c_ssz.Common.{
  ℕ, ◌-◌, ◌≡◌, refl, arith, List, [], ◌∷◌, ◌++◌, Option, some, Bool, true, false, done, replicate,
  drop, length, length-append, length-replicate, take-append,
}
use c_ssz.Host.{le_bytes}
use c_ssz.Bitfield.{bitlist_bytes}
use c_ssz.Common.{inr, none}
use c_ssz.Types.{error_deserialization}
use c_ssz.Attestation.Refusal.{deserialize_attestation-refuses}
use c_ssz.Types.{success}
use c_ssz.Attestation.{AttestationData}
use c_ssz.Attestation.Buffer.{DynamicBuffer, db_append, Reallocates, IsWellFormed, contents}
use c_ssz.Attestation.Growth.{db_append_lem}
use c_ssz.Attestation.Write.{serialize_attestation}
use c_ssz.Attestation.Read.{deserialize_attestation}
use c_ssz.Attestation.Layout.{IsData, attestation_bytes}
use c_ssz.Attestation.Written.{with_bits, serialize_attestation_lem}
use c_ssz.Merkle.Tree.{merkle_root}
use c_ssz.Merkle.Leaves.{padded_leaves}
use c_ssz.Attestation.Root.{hash_tree_root_attestation_data}
use c_ssz.Attestation.Hashed.{data_roots, hash_tree_root_attestation_data_lem}
use c_ssz.Attestation.RoundTrip.{attestation_round_trip}

abbrev grown : List ℕ → ℕ → Option (List ℕ)
grown old n = some (old ++ replicate (n - length old) 0)

abbrev none_yet : ℕ
none_yet = 0

memory : Reallocates grown
memory old n h = (
  old ++ replicate (n - length old) 0,
  refl,
  omega (
    arith,
    length-append old (replicate (n - length old) 0),
    length-replicate (n - length old) none_yet,
  ),
  take-append old (replicate (n - length old) 0),
)

abbrev stack : ℕ → List ℕ
stack n = replicate n 170

abbrev root : ℕ → List ℕ
root b = replicate 32 b

abbrev body : AttestationData
body = record {
  slot = 12345;
  index = 3;
  beacon_block_root = root 1;
  source = record { epoch = 400; root = root 2 };
  target = record { epoch = 401; root = root 3 };
}

abbrev signature : List ℕ
signature = replicate 96 5

abbrev bits : List Bool
bits = true ∷ false ∷ true ∷ []

good : IsData body
good = (omega arith, omega arith, refl, (omega arith, refl), (omega arith, refl))

abbrev space : List ℕ
space = replicate 240 0

abbrev small_buffer : DynamicBuffer
small_buffer = record { bytes = 7 ∷ 8 ∷ 0 ∷ []; size = 2; capacity = 3 }

db_append_lem_example :
    (db : DynamicBuffer) × (db_append grown small_buffer (1 ∷ 2 ∷ 3 ∷ 4 ∷ []) 3
      ≡ done (success, db))
    × IsWellFormed db
    × (contents db ≡ 7 ∷ 8 ∷ 1 ∷ 2 ∷ 3 ∷ [])
    × (db.size ≡ 5)
db_append_lem_example =
    db_append_lem grown memory small_buffer (1 ∷ 2 ∷ 3 ∷ []) (4 ∷ []) (refl, omega arith)
      (omega arith)

serialize_attestation_lem_example :
    serialize_attestation grown stack (with_bits body signature bits (true ∷ [])) space 240 0
    ≡ done (
      success,
      attestation_bytes body signature bits
          ++ drop (length (attestation_bytes body signature bits)) space,
      length (attestation_bytes body signature bits),
    )
unfolding le_bytes bitlist_bytes
serialize_attestation_lem_example =
    serialize_attestation_lem grown stack memory (λ n. length-replicate n 170) body signature bits
      (true ∷ []) space 240 0 good refl (omega arith) (omega arith)

attestation_round_trip_example :
    (written : List ℕ) × (serialize_attestation grown stack
        (with_bits body signature bits (true ∷ []))
        space
        240
        0
      ≡ done (success, written, 229))
    × (deserialize_attestation
          (λ n. some (replicate 2048 true))
          written
          229
          (with_bits body signature [] [])
        ≡ done (success, with_bits body signature bits (replicate 2045 false)))
attestation_round_trip_example =
    attestation_round_trip body signature bits grown stack memory (λ n. length-replicate n 170)
      (true ∷ []) (replicate 2048 true) (λ n. some (replicate 2048 true)) space 240 0
      (with_bits body signature [] []) good refl (omega arith) refl (length-replicate 2048 true)
      (omega arith) (omega arith)

abbrev toy_hash : List ℕ → List ℕ
toy_hash input = replicate 32 (length input)

abbrev heap : ℕ → Option (List ℕ)
heap n = some (replicate n 170)

hash_tree_root_attestation_data_lem_example :
    hash_tree_root_attestation_data toy_hash heap stack body (replicate 33 9)
    ≡ done (
      success,
      merkle_root toy_hash 3 (
            padded_leaves 3 (
              data_roots toy_hash
                (λ input. refl)
                heap
                (λ n. (replicate n 170, refl, length-replicate n 170))
                stack
                (λ n. length-replicate n 170)
                body))
          ++ (9 ∷ []),
    )
hash_tree_root_attestation_data_lem_example =
    hash_tree_root_attestation_data_lem toy_hash (λ input. refl) heap
      (λ n. (replicate n 170, refl, length-replicate n 170)) stack (λ n. length-replicate n 170)
      body (replicate 33 9) good (omega arith)

deserialize_attestation-refuses_example :
    deserialize_attestation
      (λ n. none)
      (le_bytes 4 300 ++ replicate 300 0)
      304
      (with_bits body signature [] [])
    ≡ done (error_deserialization, with_bits body signature [] [])
deserialize_attestation-refuses_example =
    deserialize_attestation-refuses (λ n. none) 300 (replicate 300 0) 304
      (with_bits body signature [] []) (omega arith) (inr (λ e. omega arith))
