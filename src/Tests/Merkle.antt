-- ===== src/Tests/Merkle.antt =====
-- The Merkle functions at concrete data. Any function to 32 bytes serves as the hash.
use c_ssz.Common.{
  ℕ, ◌≤◌, ◌^◌, ◌≡◌, refl, arith, List, [], ◌∷◌, ◌++◌, Option, some, done, replicate,
  length-replicate,
}
use c_ssz.Types.{success}
use c_ssz.Common.{true, false}
use c_ssz.Bitfield.{bitvector_bytes}
use c_ssz.Merkle.{ssz_pack_bits}
use c_ssz.Merkle.PackBits.{ssz_pack_bits_lem}
use c_ssz.Host.{le_bytes}
use c_ssz.Merkle.{ssz_merkleize, ssz_pack, ssz_mix_in_length, ssz_mix_in_selector}
use c_ssz.Merkle.Tree.{merkle_root, flat}
use c_ssz.Merkle.Leaves.{padded_leaves}
use c_ssz.Merkle.Root.{ssz_merkleize-Computes}
use c_ssz.Merkle.Mix.{ssz_mix_in_length_lem, ssz_mix_in_selector_lem}
use c_ssz.Merkle.Pack.{ssz_pack_lem}

abbrev first : List ℕ → ℕ
first [] = 3
first (b ∷ bs) = b

abbrev toy_hash : List ℕ → List ℕ
toy_hash input = replicate 32 (first input)

abbrev heap : ℕ → Option (List ℕ)
heap n = some (replicate n 170)

abbrev chunk : ℕ → List ℕ
chunk b = replicate 32 b

ssz_merkleize-Computes_example :
    (k : ℕ) × (5 ≤ 2 ^ k)
    × ((j : ℕ) → 5 ≤ 2 ^ j → 2 ^ k ≤ 2 ^ j)
    × (ssz_merkleize toy_hash heap
          (flat (chunk 1 ∷ chunk 2 ∷ chunk 3 ∷ []) ++ [])
          3
          5
          (replicate 33 9)
        ≡ done (
          success,
          merkle_root toy_hash k (padded_leaves k (chunk 1 ∷ chunk 2 ∷ chunk 3 ∷ [])) ++ (9 ∷ []),
        ))
ssz_merkleize-Computes_example =
    ssz_merkleize-Computes toy_hash (λ input. refl) heap
      (λ n. (replicate n 170, refl, length-replicate n 170)) (chunk 1 ∷ chunk 2 ∷ chunk 3 ∷ []) []
      (replicate 33 9) (refl, (refl, (refl, tt))) (omega arith) 5 (λ _. omega arith) (omega arith)

ssz_pack_lem_example :
    ssz_pack (1 ∷ 2 ∷ 3 ∷ 4 ∷ []) 2 2 (replicate 33 9) 7
    ≡ done (success, (1 ∷ 2 ∷ 3 ∷ 4 ∷ []) ++ (replicate 28 0 ++ 9 ∷ []), 1)
ssz_pack_lem_example =
    ssz_pack_lem (1 ∷ 2 ∷ 3 ∷ 4 ∷ []) [] (replicate 33 9) (omega arith) 2 2 7 (omega arith)
      (omega arith)

ssz_mix_in_length_lem_example :
    ssz_mix_in_length toy_hash (replicate 64 7) (chunk 1 ++ []) 300 (chunk 9)
    ≡ done (success, toy_hash (chunk 1 ++ le_bytes 32 300) ++ [])
ssz_mix_in_length_lem_example =
    ssz_mix_in_length_lem toy_hash (λ input. refl) (replicate 64 7) (chunk 1) [] (chunk 9) 300 refl
      refl (omega arith) (omega arith)

ssz_mix_in_selector_lem_example :
    ssz_mix_in_selector toy_hash (chunk 1 ++ []) 5 (chunk 9)
    ≡ done (success, toy_hash (chunk 1 ++ le_bytes 32 5) ++ [])
ssz_mix_in_selector_lem_example =
    ssz_mix_in_selector_lem toy_hash (λ input. refl) (chunk 1) [] (chunk 9) 5 refl (omega arith)
      (omega arith)

ssz_pack_bits_lem_example :
    ssz_pack_bits heap (replicate 256 170) (true ∷ false ∷ true ∷ []) 3 (replicate 33 9) 0
    ≡ done (success, bitvector_bytes (true ∷ false ∷ true ∷ []) ++ (replicate 31 0 ++ (9 ∷ [])), 1)
ssz_pack_bits_lem_example =
    ssz_pack_bits_lem heap (λ n. (replicate n 170, refl, length-replicate n 170))
      (replicate 256 170) (length-replicate {A = ℕ} 256 170) (true ∷ false ∷ true ∷ []) []
      (omega arith) (replicate 33 9) 0 (omega arith) (omega arith)
