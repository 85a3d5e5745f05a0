-- ===== src/Merkle/Leaves.antt =====
-- The array of nodes of `ssz_merkleize`, from the copied chunks to the root.
use c_ssz.Common.{
  ℕ, zero, suc, ◌+◌, ◌-◌, ◌*◌, ◌^◌, ◌≤◌, ◌<◌, ◌≡◌, refl, sym, ap, ap₂, ◌∙◌, arith, List, [], ◌∷◌,
  ◌++◌, append_assoc, append-nil,
}
use c_ssz.Common.{
  length, drop, replicate, length-append, length-drop, length-replicate, eq-nil_of_length, All,
  All-append,
}
use c_ssz.Common.{
  done, memcpy, memcpy-front, memset, stores, stores_lem, ltb, ◌==◌, if◌then◌else◌, sz, Bool-cases,
  inl, inr,
}
use native.Mathlib.Nat.{one-le-pow, mod-eq_of_lt, pow-le-pow_right}
use c_ssz.Merkle.{levels_fuel, hash_tree}
use c_ssz.Merkle.Tree.{zero_chunk, IsChunk, flat, length-flat, flat-append, merkle_root}
use c_ssz.Merkle.Loops.{levels_loop_lem}

-- The leaves of a tree of depth `k`: the chunks, and zero chunks behind them.
abbrev pub padded_leaves : ℕ → List (List ℕ) → List (List ℕ)
padded_leaves k cs = cs ++ replicate (2 ^ k - length cs) zero_chunk

abbrev blank : ℕ → List ℕ
blank n = replicate n 0

replicate-add : (m n : ℕ) → blank (m + n) ≡ blank m ++ blank n
replicate-add zero n = ap (λ (k : ℕ). blank k) (the_same n)
  where
    the_same : (n : ℕ) → 0 + n ≡ n
    the_same n = omega arith
replicate-add (suc m) n =
    ap (λ (k : ℕ). blank k) (the_same m n) ∙ ap (λ (t : List ℕ). 0 ∷ t) (replicate-add m n)
  where
    the_same : (m n : ℕ) → suc m + n ≡ suc (m + n)
    the_same m n = omega arith

flat-replicate : (m : ℕ) → flat (replicate m zero_chunk) ≡ blank (m * 32)
flat-replicate zero = refl
flat-replicate (suc m) =
    ap (λ t. zero_chunk ++ t) (flat-replicate m)
    ∙ sym (replicate-add 32 (m * 32))
    ∙ ap (λ (k : ℕ). blank k) (omega arith)

zeros-IsChunk : (m : ℕ) → All IsChunk (replicate m zero_chunk)
zeros-IsChunk zero = tt
zeros-IsChunk (suc m) = (refl, zeros-IsChunk m)

module _ (sha : List ℕ → List ℕ) (digest : (input : List ℕ) → IsChunk (sha input)) where
  merkle_root-IsChunk :
      (k : ℕ) (cs : List (List ℕ)) → 0 < length cs → All IsChunk cs → IsChunk (merkle_root sha k cs)
  unfolding merkle_root
  merkle_root-IsChunk zero [] pos h = refl
  merkle_root-IsChunk zero (c ∷ cs) pos (hc, hcs) = hc
  merkle_root-IsChunk (suc k) cs pos h = digest _

  module _ (cs : List (List ℕ)) (rest : List ℕ) (chunks : All IsChunk cs) (k : ℕ) (small : k ≤ 58)
      (holds : length cs ≤ 2 ^ k) where
    bytes : 2 ^ k * 32 < 2 ^ 64
    bytes = let most : 2 ^ k ≤ 2 ^ 58 = pow-le-pow_right (omega arith) small in omega (arith, most)

    padded-IsChunk : All IsChunk (padded_leaves k cs)
    padded-IsChunk =
        All-append IsChunk cs (replicate (2 ^ k - length cs) zero_chunk) chunks (zeros-IsChunk _)

    length-padded : length (padded_leaves k cs) ≡ 2 ^ k
    length-padded = omega (
      arith,
      length-append cs (replicate (2 ^ k - length cs) zero_chunk),
      length-replicate (2 ^ k - length cs) zero_chunk,
    )

    module _ (nodes : List ℕ) (room : length nodes ≡ 2 ^ k * 32) where
      abbrev copied : List ℕ
      copied = flat cs ++ drop (length cs * 32) nodes

      copied_lem :
          (if length cs == 0
            then done nodes
            else memcpy nodes 0 (flat cs ++ rest) (sz (length cs * 32)))
          ≡ done copied
      copied_lem = elim (Bool-cases (length cs == 0)) [
        | inl empty ↦
            let e : length cs ≡ 0 = ground arith in
            let start : 0 ≡ length cs * 32 = omega (arith, e) in
            rw empty
              (ap₂ (λ t (n : ℕ). done (flat t ++ drop n nodes)) (sym (eq-nil_of_length cs e)) start)
        | inr more ↦
            rw (more, mod-eq_of_lt small_copy)
              (memcpy-front nodes (flat cs) rest (length cs * 32) (sym (length-flat cs chunks))
                (omega (arith, room, holds)))
      ]
        where
          small_copy : length cs * 32 < 2 ^ 64
          small_copy = omega (arith, bytes, holds)

      leaves_lem :
          (if ltb (length cs) (2 ^ k)
            then memset copied (sz (length cs * 32)) 0 (sz ((2 ^ k - length cs) * 32))
            else done copied)
          ≡ done (flat (padded_leaves k cs) ++ [])
      unfolding memset
      leaves_lem = elim (Bool-cases (ltb (length cs) (2 ^ k))) [
        | inl more ↦
            rw (more, mod-eq_of_lt small_at, mod-eq_of_lt small_gap)
              (ap (λ t. stores (flat cs ++ t) (length cs * 32) (blank ((2 ^ k - length cs) * 32)))
                  (sym (append-nil left))
                ∙ stores_lem (flat cs) left [] (length cs * 32) (blank ((2 ^ k - length cs) * 32))
                    (sym (length-flat cs chunks))
                    (omega
                      (arith, length-replicate {A = ℕ} ((2 ^ k - length cs) * 32) 0, length_left))
                ∙ ap (λ t. done (flat cs ++ (t ++ []))) (sym (flat-replicate (2 ^ k - length cs)))
                ∙ ap done (
                    sym
                      (append_assoc (flat cs) (flat (replicate (2 ^ k - length cs) zero_chunk)) []))
                ∙ ap (λ t. done (t ++ []))
                    (sym (flat-append cs (replicate (2 ^ k - length cs) zero_chunk))))
        | inr full ↦
            let none_left : 2 ^ k - length cs ≡ 0 = ground arith in
            rw (full, none_left)
              (ap done (
                ap (λ t. flat cs ++ t) (eq-nil_of_length left (ground (arith, length_left)))
                ∙ ap (λ t. flat t ++ []) (sym (append-nil cs))))
      ]
        where
          left : List ℕ
          left = drop (length cs * 32) nodes

          length_left : length left ≡ (2 ^ k - length cs) * 32
          length_left = omega (arith, length-drop (length cs * 32) nodes, room, holds)

          small_at : length cs * 32 < 2 ^ 64
          small_at = omega (arith, bytes, holds)

          small_gap : (2 ^ k - length cs) * 32 < 2 ^ 64
          small_gap = omega (arith, bytes)

      pub hash_tree_lem :
          (out_root : List ℕ)
          → 32 ≤ length out_root
          → hash_tree sha (flat cs ++ rest) (length cs) (2 ^ k) nodes out_root
            ≡ done (merkle_root sha k (padded_leaves k cs) ++ drop 32 out_root)
      unfolding hash_tree
      hash_tree_lem out_root h =
          let (junk, run) =
            levels_loop_lem sha digest levels_fuel k (padded_leaves k cs) [] (omega arith)
              length-padded padded-IsChunk in
          rw copied_lem (
            rw leaves_lem (
              rw run (
                memcpy-front out_root (merkle_root sha k (padded_leaves k cs)) junk 32
                  (sym (
                    merkle_root-IsChunk k (padded_leaves k cs)
                      (omega (arith, length-padded, one-le-pow k 2 (omega arith))) padded-IsChunk))
                  h)))
