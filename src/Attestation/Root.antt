-- ===== src/Attestation/Root.antt =====
-- bench/bench_ssz_attestation.c, the hash tree roots. A local array of `n` bytes has the cells `stack n`
-- before anything is written to it; an output array that a call leaves alone keeps its cells.
use c_ssz.Common.{
  ℕ, ◌+◌, ◌-◌, ◌*◌, ◌/◌, List, [], ◌∷◌, Option, some, none, Bool, Run, done, ◌>>=◌, stores, memcpy,
  memset, if◌then◌else◌, sz,
}
use c_ssz.Types.{error_serialization, is_success, bytes_per_chunk}
use c_ssz.Serialize.Uints.{bytes64}
use c_ssz.Merkle.{Rooted, ssz_pack, ssz_pack_bits, ssz_merkleize, ssz_mix_in_length}
use c_ssz.Attestation.{
  Checkpoint, AttestationData, AggregationBits, Attestation, max_validators_per_committee,
}

-- `if (err != SSZ_SUCCESS) return err;`, where `out_root` is as it was.
unfoldable pub or_return : List ℕ → Run Rooted → (List ℕ → Run Rooted) → Run Rooted
or_return out_root step next = do
  (err, root) ← step
  if is_success err then next root else done (err, out_root)

-- `memcpy(nodes[i], root, 32);` for one root after the other.
unfoldable pub copy_roots : ℕ → List (List ℕ) → List ℕ → Run (List ℕ)
copy_roots i [] nodes = done nodes
copy_roots i (root ∷ roots) nodes = do
  nodes' ← memcpy nodes (i * 32) root 32
  copy_roots (i + 1) roots nodes'

module _ (sha : List ℕ → List ℕ) (malloc : ℕ → Option (List ℕ)) (stack : ℕ → List ℕ) where
  -- `ssz_pack`, its `return`, and `ssz_merkleize` without a limit. The local `chunk_count` is read only
  -- after `ssz_pack` sets it.
  unfoldable pub pack_and_merkleize : List ℕ → ℕ → List ℕ → List ℕ → Run Rooted
  pack_and_merkleize bytes count packed out_root = do
    (err, packed', chunk_count) ← ssz_pack bytes 1 count packed 0
    if is_success err
        then ssz_merkleize sha malloc packed' chunk_count 0 out_root
        else done (err, out_root)

  unfoldable pub hash_tree_root_uint64 : ℕ → List ℕ → Run Rooted
  hash_tree_root_uint64 value out_root = do
    buf ← stores (stack 8) 0 (bytes64 value)
    pack_and_merkleize buf 8 (stack bytes_per_chunk) out_root

  -- What the two functions for bytes do with the memory that they ask for.
  unfoldable pub in_memory : Option (List ℕ) → List ℕ → ℕ → List ℕ → Run Rooted
  in_memory none bytes count out_root = done (error_serialization, out_root)
  in_memory (some packed) bytes count out_root = pack_and_merkleize bytes count packed out_root

  unfoldable pub hash_tree_root_bytes : List ℕ → ℕ → List ℕ → Run Rooted
  hash_tree_root_bytes bytes count out_root =
      in_memory (malloc (sz (sz (count + bytes_per_chunk - 1) / bytes_per_chunk * bytes_per_chunk)))
        bytes count out_root

  unfoldable pub hash_tree_root_signature : List ℕ → List ℕ → Run Rooted
  hash_tree_root_signature signature out_root =
      in_memory (malloc ((96 + bytes_per_chunk - 1) / bytes_per_chunk * bytes_per_chunk)) signature
        96 out_root

  unfoldable pub hash_tree_root_checkpoint : Checkpoint → List ℕ → Run Rooted
  hash_tree_root_checkpoint cp out_root =
      or_return out_root (hash_tree_root_uint64 (cp.epoch) (stack 32)) λ root_epoch.
        or_return out_root (hash_tree_root_bytes (cp.root) 32 (stack 32)) λ root_root. do
          nodes ← copy_roots 0 (root_epoch ∷ root_root ∷ []) (stack 64)
          ssz_merkleize sha malloc nodes 2 0 out_root

  unfoldable pub hash_tree_root_attestation_data : AttestationData → List ℕ → Run Rooted
  hash_tree_root_attestation_data ad out_root =
      or_return out_root (hash_tree_root_uint64 (ad.slot) (stack 32)) λ root_slot.
        or_return out_root (hash_tree_root_uint64 (ad.index) (stack 32)) λ root_index.
          or_return out_root (hash_tree_root_bytes (ad.beacon_block_root) 32 (stack 32))
            λ root_beacon.
              or_return out_root (hash_tree_root_checkpoint (ad.source) (stack 32)) λ root_source.
                or_return out_root (hash_tree_root_checkpoint (ad.target) (stack 32)) λ root_target.
                  do
                    nodes ←
                        copy_roots 0
                          (root_slot ∷ root_index ∷ root_beacon ∷ root_source ∷ root_target ∷ [])
                          (stack 160)
                    ssz_merkleize sha malloc nodes 5 0 out_root

  -- The cells behind a pointer that may be null.
  unfoldable pub cells_of : Option (List Bool) → List Bool
  cells_of none = []
  cells_of (some bits) = bits

  -- `(MAX_VALIDATORS_PER_COMMITTEE + 255) / 256`
  abbrev pub chunk_limit : ℕ
  chunk_limit = (max_validators_per_committee + 255) / 256

  -- From the `memset` on.
  unfoldable pub root_of_bits : AggregationBits → List ℕ → List ℕ → Run Rooted
  root_of_bits bits packed out_root = do
    cleared ← memset packed 0 0 (chunk_limit * bytes_per_chunk)
    (err, packed', chunk_count) ←
        ssz_pack_bits malloc (stack 256) (cells_of (bits.bits)) (bits.count) cleared 0
    if is_success err
        then (do
          (err', root) ← ssz_merkleize sha malloc packed' chunk_count chunk_limit out_root
          if is_success err'
              then ssz_mix_in_length sha (stack 64) root (bits.count) root
              else done (err', root))
        else done (err, out_root)

  unfoldable pub hash_tree_root_aggregation_bits : AggregationBits → List ℕ → Run Rooted
  hash_tree_root_aggregation_bits bits out_root = elim (malloc (chunk_limit * bytes_per_chunk)) [
    | none ↦ done (error_serialization, out_root)
    | some packed ↦ root_of_bits bits packed out_root
  ]

  unfoldable pub hash_tree_root_attestation : Attestation → List ℕ → Run Rooted
  hash_tree_root_attestation att out_root =
      or_return out_root (hash_tree_root_aggregation_bits (att.aggregation_bits) (stack 32))
        λ root_agg.
          or_return out_root (hash_tree_root_attestation_data (att.body) (stack 32)) λ root_data.
            or_return out_root (hash_tree_root_signature (att.signature) (stack 32))
              λ root_signature. do
                nodes ← copy_roots 0 (root_agg ∷ root_data ∷ root_signature ∷ []) (stack 96)
                ssz_merkleize sha malloc nodes 3 0 out_root
