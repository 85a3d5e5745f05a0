-- ===== src/Merkle/Root.antt =====
-- `ssz_merkleize` computes the root of the tree.
use c_ssz.Common.{
  ℕ, zero, suc, ◌*◌, ◌^◌, ◌≤◌, ◌≡◌, ◌≢◌, refl, sym, ap, arith, List, [], ◌∷◌, ◌++◌, append-nil,
}
use c_ssz.Common.{length, drop, eq-nil_of_length, All, Option, some, none}
use c_ssz.Common.{
  Run, done, ◌>>=◌, memcpy-front, memset, stores-front, ltb, ◌==◌, if◌then◌else◌, sz, Bool-cases,
  inl, inr, ne→==, not-lt→ltb,
}
use native.Mathlib.Nat.{pow-suc, one-le-pow, mod-eq_of_lt, pow-le-pow_right}
use c_ssz.Types.{SszError, success, error_merkleization}
use c_ssz.Utils.PowerOfTwo.{next_pow_of_two_least}
use c_ssz.Merkle.{hash_tree, single_chunk, root_of, ssz_merkleize}
use c_ssz.Merkle.Tree.{zero_chunk, IsChunk, flat, merkle_root}
use c_ssz.Merkle.Leaves.{padded_leaves, hash_tree_lem}

module _ (sha : List ℕ → List ℕ) (digest : (input : List ℕ) → IsChunk (sha input)) where
  single_chunk_lem :
      (cs : List (List ℕ)) (rest out_root : List ℕ)
      → All IsChunk cs
      → length cs ≤ 1
      → 32 ≤ length out_root
      → single_chunk sha (flat cs ++ rest) (length cs) out_root
        ≡ done (success, merkle_root sha 0 (padded_leaves 0 cs) ++ drop 32 out_root)
  unfolding single_chunk merkle_root memset
  single_chunk_lem [] rest out_root chunks one h = rw (stores-front out_root zero_chunk h) refl
  single_chunk_lem (c ∷ []) rest out_root (hc, hcs) one h =
      rw (append-nil c, memcpy-front out_root c rest 32 (sym hc) h) refl
  single_chunk_lem (c ∷ d ∷ cs) rest out_root chunks one h = absurd (omega arith)

  module _ (malloc : ℕ → Option (List ℕ))
      (gives : (n : ℕ) → (o : List ℕ) × (malloc n ≡ some o) × (length o ≡ n)) (cs : List (List ℕ))
      (rest out_root : List ℕ) (chunks : All IsChunk cs) (room : 32 ≤ length out_root) where
    -- The run leaves the root of the smallest tree with so many leaves, over the chunks and zero chunks
    -- behind them.
    abbrev pub Computes : Run (SszError × List ℕ) → ℕ → Type 0
    Computes m leaves =
        (k : ℕ) × (leaves ≤ 2 ^ k)
        × ((j : ℕ) → leaves ≤ 2 ^ j → 2 ^ k ≤ 2 ^ j)
        × (m ≡ done (success, merkle_root sha k (padded_leaves k cs) ++ drop 32 out_root))

    root_of_lem :
        (effective : ℕ)
        → length cs ≤ effective
        → effective ≤ 2 ^ 58
        → Computes (root_of sha malloc (flat cs ++ rest) (length cs) effective out_root) effective
    unfolding root_of
    root_of_lem effective within small =
        let (k, run, enough, least) = next_pow_of_two_least effective (omega arith) in
        (k, enough, least, rw run (by_depth k enough (least 58 small)))
      where
        by_depth :
            (k : ℕ)
            → effective ≤ 2 ^ k
            → 2 ^ k ≤ 2 ^ 58
            → (if 2 ^ k == 1
                then single_chunk sha (flat cs ++ rest) (length cs) out_root
                else elim (malloc (sz (2 ^ k * 32))) [
                  | none ↦ done (error_merkleization, out_root)
                  | some nodes ↦
                      hash_tree sha (flat cs ++ rest) (length cs) (2 ^ k) nodes out_root >>= λ root.
                      done (success, root)
                ])
              ≡ done (success, merkle_root sha k (padded_leaves k cs) ++ drop 32 out_root)
        by_depth zero enough top = single_chunk_lem cs rest out_root chunks (omega arith) room
        by_depth (suc k) enough top =
            let (nodes, given, size) = gives (2 ^ suc k * 32) in
            rw
              (
                ne→== (2 ^ suc k) 1 (omega (arith, pow-suc 2 k, one-le-pow k 2 (omega arith))),
                mod-eq_of_lt {n = 2 ^ suc k * 32} {m = 2 ^ 64} (omega arith),
              )
              (rw given (
                rw
                  (hash_tree_lem sha digest cs rest chunks (suc k) (shallow (suc k) top)
                    (omega arith) nodes size out_root room)
                  refl))
          where
            shallow : (k : ℕ) → 2 ^ k ≤ 2 ^ 58 → k ≤ 58
            shallow k h = elim (Bool-cases (ltb 58 k)) [
              | inl deep ↦
                  let more : 59 ≤ k = ground arith in
                  let much : 2 ^ 59 ≤ 2 ^ k = pow-le-pow_right (omega arith) more in
                  absurd (omega (arith, much, h))
              | inr fine ↦ ground arith
            ]

    -- For chunks within the limit, if there is one, and at most 2 ^ 58 leaves: with a hash of 32 bytes
    -- and memory for the nodes, `ssz_merkleize` succeeds and puts at the front of `out_root`, which has
    -- 32 bytes or more, the root of
    -- the tree of least depth `k` whose 2 ^ k leaves hold the limit, or the chunks where there is no
    -- limit, zero chunks standing behind the chunks; the memory behind the root keeps its content.
    pub ssz_merkleize-Computes :
        (limit : ℕ)
        → (limit ≢ 0 → length cs ≤ limit)
        → (if limit == 0 then length cs else limit) ≤ 2 ^ 58
        → Computes
            (ssz_merkleize sha malloc (flat cs ++ rest) (length cs) limit out_root)
            (if limit == 0 then length cs else limit)
    unfolding ssz_merkleize merkle_root memset
    ssz_merkleize-Computes zero within small = elim (Bool-cases (length cs == 0)) [
      | inl empty ↦
          let e : length cs ≡ 0 = ground arith in
          (
            0,
            omega (arith, e),
            (λ j _. one-le-pow j 2 (omega arith)),
            rw empty (
                rw (stores-front out_root zero_chunk room) (
                  ap
                    (λ t. done (success, merkle_root sha 0 (padded_leaves 0 t) ++ drop 32 out_root))
                    (sym (eq-nil_of_length cs e)))),
          )
      | inr more ↦ rw more (root_of_lem (length cs) (omega arith) small)
    ]
    ssz_merkleize-Computes (suc limit) within small = rw (ne→== (suc limit) 0 (omega arith)) (
        rw
          (
            not-lt→ltb (suc limit) (length cs) (within (ground arith)),
            ne→== (suc limit) 0 (omega arith),
          )
          (root_of_lem (suc limit) (within (ground arith))
            (rw (ne→== (suc limit) 0 (omega arith)) at small)))
