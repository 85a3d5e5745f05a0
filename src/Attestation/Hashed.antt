-- ===== src/Attestation/Hashed.antt =====
-- The hash tree roots that the benchmark computes are those of the tree over the fields' roots.
use c_ssz.Common.{
  ℕ, suc, ◌+◌, ◌-◌, ◌*◌, ◌/◌, ◌^◌, ◌≤◌, ◌<◌, ◌≡◌, refl, sym, ap, ap₂, ◌∙◌, arith, List, [], ◌∷◌,
  ◌++◌, append_assoc, append-nil, Option, some, Run, done, ◌>>=◌,
}
use c_ssz.Common.{
  length, take, drop, replicate, All, length-append, length-drop, length-replicate,
  eq-nil_of_length, stores-front, stores_lem, loads, loads_lem, memcpy, length-take_of_le, ltb,
  Bool-cases, inl, inr,
}
use native.Mathlib.Nat.{pow-le-pow_right, pow-suc, one-le-pow}
use c_ssz.Types.{success}
use c_ssz.Host.{le_bytes, length-le_bytes}
use c_ssz.Serialize.Uints.Encode.{bytes64_lem}
use c_ssz.Merkle.{Rooted, ssz_pack, ssz_merkleize}
use c_ssz.Merkle.Tree.{IsChunk, flat, merkle_root}
use c_ssz.Merkle.Leaves.{padded_leaves}
use c_ssz.Merkle.Root.{ssz_merkleize-Computes}
use c_ssz.Merkle.Pack.{ssz_pack_lem}
use c_ssz.Attestation.{Checkpoint, AttestationData}
use c_ssz.Attestation.Root.{
  or_return, copy_roots, pack_and_merkleize, hash_tree_root_uint64, in_memory, hash_tree_root_bytes,
  hash_tree_root_checkpoint, hash_tree_root_attestation_data,
}
use c_ssz.Generator.Offsets.{table_split_at}
use c_ssz.Attestation.Layout.{IsData}

abbrev zeros : ℕ → List ℕ
zeros n = replicate n 0

-- The depth of the least tree with so many leaves.
exact_depth :
    (n k d : ℕ)
    → n ≤ 2 ^ k
    → ((j : ℕ) → n ≤ 2 ^ j → 2 ^ k ≤ 2 ^ j)
    → n ≤ 2 ^ d
    → 2 ^ d < 2 * n
    → k ≡ d
exact_depth n k d enough least fits tight = elim (Bool-cases (ltb k d)) [
  | inl below ↦
      let less : suc k ≤ d = ground arith in
      let twice : 2 ^ suc k ≤ 2 ^ d = pow-le-pow_right (omega arith) less in
      absurd (omega (arith, twice, pow-suc 2 k))
  | inr reached ↦ elim (Bool-cases (ltb d k)) [
    | inl above ↦
        let more : suc d ≤ k = ground arith in
        let twice : 2 ^ suc d ≤ 2 ^ k = pow-le-pow_right (omega arith) more in
        absurd (omega (arith, twice, least d fits, pow-suc 2 d, one-le-pow d 2 (omega arith)))
    | inr within ↦ ground arith
  ]
]

-- One root over the cells of one.
memcpy-root :
    (i : ℕ) (root pre old post : List ℕ)
    → length root ≡ 32
    → length old ≡ 32
    → i * 32 ≡ length pre
    → memcpy (pre ++ (old ++ post)) (i * 32) root 32 ≡ done (pre ++ (root ++ post))
unfolding memcpy
memcpy-root i root pre old post e eo place =
    rw
      (ap₂ (λ t (n : ℕ). loads t 0 n) (sym (append-nil root)) (sym e) ∙ loads_lem [] root [] 0 refl)
      (stores_lem pre old post (i * 32) root place (e ∙ sym eo))

copy_roots_lem :
    (roots : List (List ℕ)) (i : ℕ) (pre old post : List ℕ)
    → All IsChunk roots
    → i * 32 ≡ length pre
    → length old ≡ length roots * 32
    → copy_roots i roots (pre ++ (old ++ post)) ≡ done (pre ++ (flat roots ++ post))
unfolding copy_roots
copy_roots_lem [] i pre [] post h place e = refl
copy_roots_lem [] i pre (o ∷ old) post h place e = absurd (omega arith)
copy_roots_lem (root ∷ roots) i pre old post (hr, h) place e =
    rw
      (
        table_split_at 32 pre old post,
        memcpy-root i root pre (take 32 old) (drop 32 old ++ post) hr
            (length-take_of_le 32 old (omega (arith, e))) place,
      )
      (ap (λ t. copy_roots (i + 1) roots t) (sym (append_assoc pre root (drop 32 old ++ post)))
        ∙ copy_roots_lem roots (i + 1) (pre ++ root) (drop 32 old) post h
            (omega (arith, place, hr, length-append pre root))
            (omega (arith, e, length-drop 32 old))
        ∙ ap done (
            append_assoc pre root (flat roots ++ post)
            ∙ ap (λ t. pre ++ t) (sym (append_assoc root (flat roots) post))))

module _ (sha : List ℕ → List ℕ) (digest : (input : List ℕ) → IsChunk (sha input))
    (malloc : ℕ → Option (List ℕ))
    (gives : (n : ℕ) → (o : List ℕ) × (malloc n ≡ some o) × (length o ≡ n)) (stack : ℕ → List ℕ)
    (sized : (n : ℕ) → length (stack n) ≡ n) where
  merkleize_lem :
      (cs : List (List ℕ)) (rest out_root : List ℕ) (n d : ℕ)
      → All IsChunk cs
      → 32 ≤ length out_root
      → n ≡ length cs
      → 0 < n
      → n ≤ 2 ^ d
      → 2 ^ d < 2 * n
      → n ≤ 2 ^ 58
      → ssz_merkleize sha malloc (flat cs ++ rest) n 0 out_root
        ≡ done (success, merkle_root sha d (padded_leaves d cs) ++ drop 32 out_root)
  merkleize_lem cs rest out_root n d chunks room en pos fits tight small =
      let (k, enough, least, run) =
        ssz_merkleize-Computes sha digest malloc gives cs rest out_root chunks room 0
          (λ no. absurd (no refl)) (omega arith) in
      let depth : k ≡ d =
        exact_depth n k d (omega arith) (λ j fit. least j (omega arith)) fits tight in
      ap (λ (c : ℕ). ssz_merkleize sha malloc (flat cs ++ rest) c 0 out_root) en
      ∙ run
      ∙ ap (λ (j : ℕ). done (success, merkle_root sha j (padded_leaves j cs) ++ drop 32 out_root))
          depth

  -- At most 32 bytes, at least one, are the leaf of a tree of depth 0.
  abbrev leaf : List ℕ → List ℕ
  leaf bs = bs ++ zeros (32 - length bs)

  leaf-IsChunk : (bs : List ℕ) → length bs ≤ 32 → IsChunk (leaf bs)
  leaf-IsChunk bs h = omega (
    arith,
    length-append bs (zeros (32 - length bs)),
    length-replicate {A = ℕ} (32 - length bs) 0,
  )

  whole_leaf : (bs : List ℕ) → length bs ≡ 32 → leaf bs ≡ bs
  whole_leaf bs e = ap (λ (n : ℕ). bs ++ zeros n) none_left ∙ append-nil bs
    where
      none_left : 32 - length bs ≡ 0
      none_left = omega (arith, e)

  pack_and_merkleize_lem :
      (bs rest packed out_root : List ℕ) (n : ℕ)
      → n ≡ length bs
      → 0 < n
      → n ≤ 32
      → length packed ≡ 32
      → 32 ≤ length out_root
      → pack_and_merkleize sha malloc stack (bs ++ rest) n packed out_root
        ≡ done (success, leaf bs ++ drop 32 out_root)
  unfolding pack_and_merkleize merkle_root
  pack_and_merkleize_lem bs rest packed out_root n en pos most size room = rw packed_once (
      ap (λ t. ssz_merkleize sha malloc t 1 0 out_root)
        (sym (append-nil (leaf bs ++ []) ∙ append-nil (leaf bs)))
      ∙ merkleize_lem (leaf bs ∷ []) [] out_root 1 0 (leaf-IsChunk bs (omega (arith, en)), tt) room
          refl (omega arith) (omega arith) (omega arith) (omega arith))
    where
      one : (length bs + 31) / 32 ≡ 1
      one = omega (arith, en)

      last : (length bs + 31) / 32 * 32 ≡ 32
      last = omega (arith, one)

      packed_once : ssz_pack (bs ++ rest) 1 n packed 0 ≡ done (success, leaf bs, 1)
      packed_once =
          ssz_pack_lem bs rest packed (omega (arith, last, size)) 1 n 0 (omega (arith, en))
            (omega (arith, en))
          ∙ rw (last, one)
              (ap (λ t. done (success, bs ++ t, 1))
                (ap (λ t. zeros (32 - length bs) ++ t)
                    (eq-nil_of_length (drop 32 packed) (omega (arith, size, length-drop 32 packed)))
                  ∙ append-nil (zeros (32 - length bs))))

  hash_tree_root_uint64_lem :
      (v : ℕ) (out_root : List ℕ)
      → 32 ≤ length out_root
      → hash_tree_root_uint64 sha malloc stack v out_root
        ≡ done (success, leaf (le_bytes 8 v) ++ drop 32 out_root)
  unfolding hash_tree_root_uint64
  hash_tree_root_uint64_lem v out_root room =
      rw
        (
          bytes64_lem v,
          stores-front (stack 8) (le_bytes 8 v) (omega (arith, sized 8, length-le_bytes 8 v)),
        )
        (pack_and_merkleize_lem (le_bytes 8 v) (drop (length (le_bytes 8 v)) (stack 8)) (stack 32)
          out_root 8 (sym (length-le_bytes 8 v)) (omega arith) (omega arith) (sized 32) room)

  hash_tree_root_bytes_lem :
      (root out_root : List ℕ)
      → length root ≡ 32
      → 32 ≤ length out_root
      → hash_tree_root_bytes sha malloc stack root 32 out_root
        ≡ done (success, root ++ drop 32 out_root)
  unfolding hash_tree_root_bytes in_memory
  hash_tree_root_bytes_lem root out_root e room =
      let (packed, given, size) = gives 32 in
      rw given (
        ap (λ t. pack_and_merkleize sha malloc stack t 32 packed out_root) (sym (append-nil root))
        ∙ pack_and_merkleize_lem root [] packed out_root 32 (sym e) (omega arith) (omega arith) size
            room
        ∙ ap (λ t. done (success, t ++ drop 32 out_root)) (whole_leaf root e))

  -- The roots of fields, in an array of their own size, and the tree over them.
  roots_lem :
      (roots : List (List ℕ)) (out_root : List ℕ) (n d : ℕ)
      → All IsChunk roots
      → 32 ≤ length out_root
      → n ≡ length roots
      → 0 < n
      → n ≤ 2 ^ d
      → 2 ^ d < 2 * n
      → n ≤ 2 ^ 58
      → (copy_roots 0 roots (stack (n * 32)) >>= λ nodes.
          ssz_merkleize sha malloc nodes n 0 out_root)
        ≡ done (success, merkle_root sha d (padded_leaves d roots) ++ drop 32 out_root)
  roots_lem roots out_root n d h room en pos fits tight small =
      rw (copied) (merkleize_lem roots [] out_root n d h room en pos fits tight small)
    where
      copied : copy_roots 0 roots (stack (n * 32)) ≡ done (flat roots ++ [])
      copied =
          ap (λ t. copy_roots 0 roots t) (sym (append-nil (stack (n * 32))))
          ∙ copy_roots_lem roots 0 [] (stack (n * 32)) [] h refl (omega (arith, sized (n * 32), en))

  -- The roots that the encoding of the types prescribes.
  abbrev checkpoint_roots : Checkpoint → List (List ℕ)
  checkpoint_roots cp = leaf (le_bytes 8 (cp.epoch)) ∷ cp.root ∷ []

  unfoldable pub checkpoint_root : Checkpoint → List ℕ
  checkpoint_root cp = merkle_root sha 1 (padded_leaves 1 (checkpoint_roots cp))

  abbrev pub data_roots : AttestationData → List (List ℕ)
  data_roots ad =
      leaf (le_bytes 8 (ad.slot))
      ∷ leaf (le_bytes 8 (ad.index))
      ∷ ad.beacon_block_root
      ∷ checkpoint_root (ad.source)
      ∷ checkpoint_root (ad.target)
      ∷ []

  number-IsChunk : (v : ℕ) → IsChunk (leaf (le_bytes 8 v))
  number-IsChunk v = leaf-IsChunk (le_bytes 8 v) (omega (arith, length-le_bytes 8 v))

  or_return-done :
      (root out_root : List ℕ) (step : Run Rooted) (next : List ℕ → Run Rooted) (m : Run Rooted)
      → length root ≡ 32
      → step ≡ done (success, root ++ drop 32 (stack 32))
      → next root ≡ m
      → or_return out_root step next ≡ m
  unfolding or_return
  or_return-done root out_root step next m e run after = rw run (
      ap next (
        ap (λ t. root ++ t)
          (eq-nil_of_length (drop 32 (stack 32))
            (omega (arith, sized 32, length-drop 32 (stack 32))))
        ∙ append-nil root)
      ∙ after)

  hash_tree_root_checkpoint_lem :
      (cp : Checkpoint) (out_root : List ℕ)
      → length (cp.root) ≡ 32
      → 32 ≤ length out_root
      → hash_tree_root_checkpoint sha malloc stack cp out_root
        ≡ done (success, checkpoint_root cp ++ drop 32 out_root)
  unfolding hash_tree_root_checkpoint checkpoint_root
  hash_tree_root_checkpoint_lem cp out_root e room =
      or_return-done (leaf (le_bytes 8 (cp.epoch))) out_root _ _ _ (number-IsChunk (cp.epoch))
        (hash_tree_root_uint64_lem (cp.epoch) (stack 32) (omega (arith, sized 32)))
        (or_return-done (cp.root) out_root _ _ _ e
          (hash_tree_root_bytes_lem (cp.root) (stack 32) e (omega (arith, sized 32)))
          (roots_lem (checkpoint_roots cp) out_root 2 1 (number-IsChunk (cp.epoch), (e, tt)) room
            refl (omega arith) (omega arith) (omega arith) (omega arith)))

  checkpoint_root-IsChunk : (cp : Checkpoint) → IsChunk (checkpoint_root cp)
  unfolding checkpoint_root merkle_root
  checkpoint_root-IsChunk cp = digest _

  -- With a hash of 32 bytes, memory for the nodes, and a local array of `n` bytes of `n` cells: for data
  -- whose numbers have 64 bits and whose roots have 32 bytes, `hash_tree_root_attestation_data` succeeds and
  -- puts at the front of `out_root`, which has 32 bytes or more, the root of the tree of depth 3 over the
  -- slot and the index as chunks, the block's root and the roots of the two checkpoints, each that of the
  -- tree of depth 1 over the epoch as a chunk and the checkpoint's root; the memory behind the root keeps
  -- its content.
  pub hash_tree_root_attestation_data_lem :
      (ad : AttestationData) (out_root : List ℕ)
      → IsData ad
      → 32 ≤ length out_root
      → hash_tree_root_attestation_data sha malloc stack ad out_root
        ≡ done (success, merkle_root sha 3 (padded_leaves 3 (data_roots ad)) ++ drop 32 out_root)
  unfolding hash_tree_root_attestation_data
  hash_tree_root_attestation_data_lem ad out_root (hs, hi, hb, (he, hr), (he', hr')) room =
      or_return-done (leaf (le_bytes 8 (ad.slot))) out_root _ _ _ (number-IsChunk (ad.slot))
        (hash_tree_root_uint64_lem (ad.slot) (stack 32) own)
        (or_return-done (leaf (le_bytes 8 (ad.index))) out_root _ _ _ (number-IsChunk (ad.index))
          (hash_tree_root_uint64_lem (ad.index) (stack 32) own)
          (or_return-done (ad.beacon_block_root) out_root _ _ _ hb
            (hash_tree_root_bytes_lem (ad.beacon_block_root) (stack 32) hb own)
            (or_return-done (checkpoint_root (ad.source)) out_root _ _ _
              (checkpoint_root-IsChunk (ad.source))
              (hash_tree_root_checkpoint_lem (ad.source) (stack 32) hr own)
              (or_return-done (checkpoint_root (ad.target)) out_root _ _ _
                (checkpoint_root-IsChunk (ad.target))
                (hash_tree_root_checkpoint_lem (ad.target) (stack 32) hr' own)
                (roots_lem (data_roots ad) out_root 5 3
                  (
                    number-IsChunk (ad.slot),
                    (
                      number-IsChunk (ad.index),
                      (
                        hb,
                        (
                          checkpoint_root-IsChunk (ad.source),
                          (checkpoint_root-IsChunk (ad.target), tt),
                        ),
                      ),
                    ),
                  )
                  room refl (omega arith) (omega arith) (omega arith) (omega arith))))))
    where
      own : 32 ≤ length (stack 32)
      own = omega (arith, sized 32)
