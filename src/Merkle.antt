-- ===== src/Merkle.antt =====
-- src/ssz_merkle.c. `SHA256_hash` and `malloc` are parameters: `sha` gives the digest of the bytes it
-- is shown, and `malloc` gives an object of the size asked for, with any content, or none.
-- `SHA256_hash` reads its input before it writes the digest, so they may overlap.
pub mod Tree
pub mod Loops
pub mod Leaves
pub mod Root
pub mod Mix
pub mod Pack
pub mod PackBits
use c_ssz.Common.{
  ℕ, zero, suc, ◌+◌, ◌-◌, ◌*◌, ◌/◌, Bool, not, ◌&&◌, List, [], ◌∷◌, Option, none, some,
}
use c_ssz.Common.{
  Run, done, hang, ◌>>=◌, loads, store, stores, memcpy, memset, ltb, leb, ◌==◌, if◌then◌else◌,
}
use c_ssz.Common.{sz, u8, ◌>>>◌, replicate}
use c_ssz.Types.{
  SszError, success, error_serialization, error_merkleization, bytes_per_chunk, small_buffer_size,
}
use c_ssz.Utils.{next_pow_of_two}
use c_ssz.Serialize.Bitfields.{pack_bitvector}

-- What these functions leave: the code and the memory at `out_root`, or that at `out_chunks` with the
-- value of `*out_chunk_count`.
abbrev pub Rooted : Type 0
Rooted = SszError × List ℕ

abbrev pub Packed : Type 0
Packed = SszError × List ℕ × ℕ

unfoldable pub ssz_pack : List ℕ → ℕ → ℕ → List ℕ → ℕ → Run Packed
ssz_pack values value_size value_count out_chunks out_chunk_count =
    let total_bytes = sz (value_size * value_count) in
    if not (value_count == 0) && not (total_bytes / value_count == value_size)
    then done (error_serialization, out_chunks, out_chunk_count)
    else if total_bytes == 0
    then done (success, out_chunks, 0)
    else let chunk_count = sz (total_bytes + bytes_per_chunk - 1) / bytes_per_chunk in
      let padded_size = chunk_count * bytes_per_chunk in
      do
        copied ← memcpy out_chunks 0 values total_bytes
        filled ←
            (if ltb total_bytes padded_size
              then memset copied total_bytes 0 (padded_size - total_bytes)
              else done copied)
        done (success, filled, chunk_count)

module _ (malloc : ℕ → Option (List ℕ)) where
  -- `small_buf` is the array on the stack, with whatever it holds.
  unfoldable pub bitfield_object : List ℕ → ℕ → Option (List ℕ)
  bitfield_object small_buf bitfield_len =
      if leb bitfield_len small_buffer_size then some small_buf else malloc bitfield_len

  -- The packing loops are those of `ssz_serialize_bitvector`, over indices.
  unfoldable pub fill_bitfield : List Bool → ℕ → ℕ → List ℕ → Run (List ℕ)
  fill_bitfield bits bit_count bitfield_len bitfield_bytes =
      if bit_count == 0 then store bitfield_bytes 0 1 else do
        cleared ← memset bitfield_bytes 0 0 bitfield_len
        pack_bitvector bits bit_count cleared

  unfoldable pub ssz_pack_bits : List ℕ → List Bool → ℕ → List ℕ → ℕ → Run Packed
  ssz_pack_bits small_buf bits bit_count out_chunks out_chunk_count =
      let bitfield_len = if bit_count == 0 then 1 else sz (bit_count + 7) >>> 3 in
      elim (bitfield_object small_buf bitfield_len) [
        | none ↦ done (error_merkleization, out_chunks, out_chunk_count)
        | some bitfield_bytes ↦ do
          filled ← fill_bitfield bits bit_count bitfield_len bitfield_bytes
          ssz_pack filled 1 bitfield_len out_chunks out_chunk_count
      ]

-- A number of 64 bits is halved at most 63 times before it is 1.
abbrev pub levels_fuel : ℕ
levels_fuel = 65

module _ (sha : List ℕ → List ℕ) where
  -- The inner loop of `ssz_merkleize`, with `left` parents to go.
  unfoldable pub parents_loop : ℕ → ℕ → List ℕ → Run (List ℕ)
  parents_loop zero i nodes = done nodes
  parents_loop (suc left) i nodes = do
    pair ← loads nodes (2 * i * bytes_per_chunk) (2 * bytes_per_chunk)
    nodes' ← stores nodes (i * bytes_per_chunk) (sha pair)
    parents_loop left (i + 1) nodes'

  -- `while (num > 1)`: it halves a number of 64 bits.
  unfoldable pub levels_loop : ℕ → ℕ → List ℕ → Run (List ℕ)
  levels_loop zero num nodes = hang
  levels_loop (suc fuel) num nodes =
      let deeper = (do
        nodes' ← parents_loop (num >>> 1) 0 nodes
        levels_loop fuel (num >>> 1) nodes') in
      if ltb 1 num then deeper else done nodes

  -- From the copy into the leaves to the copy of the root.
  unfoldable pub hash_tree : List ℕ → ℕ → ℕ → List ℕ → List ℕ → Run (List ℕ)
  hash_tree chunks chunk_count padded nodes out_root = do
    leaves ←
        (if chunk_count == 0
          then done nodes
          else memcpy nodes 0 chunks (sz (chunk_count * bytes_per_chunk)))
    padded_leaves ←
        (if ltb chunk_count padded
          then memset leaves (sz (chunk_count * bytes_per_chunk)) 0
              (sz ((padded - chunk_count) * bytes_per_chunk))
          else done leaves)
    hashed ← levels_loop levels_fuel padded padded_leaves
    memcpy out_root 0 hashed bytes_per_chunk

  -- A tree of one leaf.
  unfoldable pub single_chunk : List ℕ → ℕ → List ℕ → Run Rooted
  single_chunk chunks chunk_count out_root = do
    root ←
        (if leb 1 chunk_count
          then memcpy out_root 0 chunks bytes_per_chunk
          else memset out_root 0 0 bytes_per_chunk)
    done (success, root)

  -- From the call of `next_pow_of_two` on.
  unfoldable pub root_of : (ℕ → Option (List ℕ)) → List ℕ → ℕ → ℕ → List ℕ → Run Rooted
  root_of malloc chunks chunk_count effective out_root = do
    padded ← next_pow_of_two effective
    let tree : Run Rooted = elim (malloc (sz (padded * bytes_per_chunk))) [
      | none ↦ done (error_merkleization, out_root)
      | some nodes ↦ do
        root ← hash_tree chunks chunk_count padded nodes out_root
        done (success, root)
    ]
    if padded == 1 then single_chunk chunks chunk_count out_root else tree

  unfoldable pub ssz_merkleize : (ℕ → Option (List ℕ)) → List ℕ → ℕ → ℕ → List ℕ → Run Rooted
  ssz_merkleize malloc chunks chunk_count limit out_root =
      if not (limit == 0) && ltb limit chunk_count
      then done (error_serialization, out_root)
      else let effective = if limit == 0 then chunk_count else limit in
        if effective == 0
        then (do root ← memset out_root 0 0 bytes_per_chunk; done (success, root))
        else root_of malloc chunks chunk_count effective out_root

  -- `buf` is the array on the stack, with whatever it holds.
  unfoldable pub ssz_mix_in_length : List ℕ → List ℕ → ℕ → List ℕ → Run Rooted
  ssz_mix_in_length buf root length out_root = do
    buf₁ ← memcpy buf 0 root 32
    buf₂ ← stores buf₁ 32 (
        u8 length
        ∷ u8 (length >>> 8)
        ∷ u8 (length >>> 16)
        ∷ u8 (length >>> 24)
        ∷ u8 (length >>> 32)
        ∷ u8 (length >>> 40)
        ∷ u8 (length >>> 48)
        ∷ u8 (length >>> 56)
        ∷ [])
    buf₃ ← memset buf₂ 40 0 24
    input ← loads buf₃ 0 64
    mixed ← stores out_root 0 (sha input)
    done (success, mixed)

  unfoldable pub ssz_mix_in_selector : List ℕ → ℕ → List ℕ → Run Rooted
  ssz_mix_in_selector root selector out_root = do
    buf₁ ← memcpy (replicate 64 0) 0 root 32
    buf₂ ← store buf₁ 32 selector
    input ← loads buf₂ 0 64
    mixed ← stores out_root 0 (sha input)
    done (success, mixed)
