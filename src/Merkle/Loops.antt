-- ===== src/Merkle/Loops.antt =====
-- The loops of `ssz_merkleize` over the array of nodes, as rows of the tree.
use c_ssz.Common.{
  ℕ, zero, suc, ◌+◌, ◌*◌, ◌/◌, ◌^◌, ◌<◌, ◌≡◌, refl, sym, ap, ap₂, ◌∙◌, arith, List, [], ◌∷◌, ◌++◌,
  append_assoc, append-nil,
}
use c_ssz.Common.{
  length, take, drop, length-append, take-append-drop, length-take_of_le, length-drop, All,
}
use c_ssz.Common.{done, loads, loads_lem, stores, stores_lem, lt→ltb}
use native.Mathlib.Nat.{pow-suc, one-le-pow}
use c_ssz.Merkle.{parents_loop, levels_loop}
use c_ssz.Merkle.Tree.{
  IsChunk, flat, merkle_root, parents, length-parents, merkle_root-parents, parents-IsChunk,
}

module _ (sha : List ℕ → List ℕ) (digest : (input : List ℕ) → IsChunk (sha input)) where
  -- The loop turns a row of nodes into the row above, in place: `pre` holds the parents that are done,
  -- and `mid` the nodes that they come from.
  parents_loop_lem :
      (left i : ℕ) (pre mid post : List ℕ) (cs : List (List ℕ))
      → length pre ≡ i * 32
      → length mid ≡ i * 32
      → length cs ≡ 2 * left
      → All IsChunk cs
      → (junk : List ℕ) × (parents_loop sha left i (pre ++ (mid ++ (flat cs ++ post)))
          ≡ done (pre ++ (flat (parents sha cs) ++ junk)))
  unfolding parents_loop
  parents_loop_lem zero i pre mid post [] ep em ec chunks = (mid ++ post, refl)
  parents_loop_lem zero i pre mid post (a ∷ cs) ep em ec chunks = absurd (omega arith)
  parents_loop_lem (suc left) i pre mid post [] ep em ec chunks = absurd (omega arith)
  parents_loop_lem (suc left) i pre mid post (a ∷ []) ep em ec chunks = absurd (omega arith)
  parents_loop_lem (suc left) i pre mid post (a ∷ b ∷ cs) ep em ec (ha, (hb, hcs)) =
      let (junk, run) =
        parents_loop_lem left (i + 1) (pre ++ sha (a ++ b)) (drop 32 window) post cs
          (omega (arith, length-append pre (sha (a ++ b)), digest (a ++ b)))
          (omega (arith, length-drop 32 window, length_window)) (omega arith) hcs in
      (
        junk,
        rw loaded (
            rw stored (
              ap (parents_loop sha left (i + 1)) regroup
              ∙ run
              ∙ ap done (append_assoc pre (sha (a ++ b)) (flat (parents sha cs) ++ junk))
              ∙ ap (λ t. done (pre ++ t))
                  (sym (append_assoc (sha (a ++ b)) (flat (parents sha cs)) junk)))),
      )
    where
      -- The nodes from the place of the new parent to the end of the pair.
      window : List ℕ
      window = mid ++ (a ++ b)

      nodes : List ℕ
      nodes = pre ++ (mid ++ (flat (a ∷ b ∷ cs) ++ post))

      length_pair : length (a ++ b) ≡ 64
      length_pair = omega (arith, length-append a b, ha, hb)

      length_window : length window ≡ i * 32 + 64
      length_window = omega (arith, length-append mid (a ++ b), length_pair)

      pair_out : flat (a ∷ b ∷ cs) ++ post ≡ (a ++ b) ++ (flat cs ++ post)
      pair_out =
          append_assoc a (b ++ flat cs) post
          ∙ ap (λ t. a ++ t) (append_assoc b (flat cs) post)
          ∙ sym (append_assoc a b (flat cs ++ post))

      loaded : loads nodes (2 * i * 32) 64 ≡ done (a ++ b)
      loaded =
          ap₂ (λ t (n : ℕ). loads t (2 * i * 32) n)
            (ap (λ t. pre ++ (mid ++ t)) pair_out
              ∙ sym (append_assoc pre mid ((a ++ b) ++ (flat cs ++ post))))
            (sym length_pair)
          ∙ loads_lem (pre ++ mid) (a ++ b) (flat cs ++ post) (2 * i * 32)
              (omega (arith, length-append pre mid))

      in_window : nodes ≡ pre ++ (take 32 window ++ (drop 32 window ++ (flat cs ++ post)))
      in_window =
          ap (λ t. pre ++ t)
            (ap (λ t. mid ++ t) pair_out
              ∙ sym (append_assoc mid (a ++ b) (flat cs ++ post))
              ∙ ap (λ t. t ++ (flat cs ++ post)) (sym (take-append-drop 32 window))
              ∙ append_assoc (take 32 window) (drop 32 window) (flat cs ++ post))

      stored :
          stores nodes (i * 32) (sha (a ++ b))
          ≡ done (pre ++ (sha (a ++ b) ++ (drop 32 window ++ (flat cs ++ post))))
      stored =
          ap (λ t. stores t (i * 32) (sha (a ++ b))) in_window
          ∙ stores_lem pre (take 32 window) (drop 32 window ++ (flat cs ++ post)) (i * 32)
              (sha (a ++ b)) (sym ep)
              (digest (a ++ b) ∙ sym (length-take_of_le 32 window (omega (arith, length_window))))

      regroup :
          pre ++ (sha (a ++ b) ++ (drop 32 window ++ (flat cs ++ post)))
          ≡ (pre ++ sha (a ++ b)) ++ (drop 32 window ++ (flat cs ++ post))
      regroup = sym (append_assoc pre (sha (a ++ b)) (drop 32 window ++ (flat cs ++ post)))

  -- From a row of 2 ^ d nodes the loop over the rows leaves the root at the front.
  pub levels_loop_lem :
      (fuel d : ℕ) (cs : List (List ℕ)) (post : List ℕ)
      → d < fuel
      → length cs ≡ 2 ^ d
      → All IsChunk cs
      → (junk : List ℕ) × (levels_loop sha fuel (2 ^ d) (flat cs ++ post)
          ≡ done (merkle_root sha d cs ++ junk))
  unfolding levels_loop merkle_root
  levels_loop_lem zero d cs post hd ec chunks = absurd (omega arith)
  levels_loop_lem (suc fuel) zero [] post hd ec chunks = absurd (omega arith)
  levels_loop_lem (suc fuel) zero (c ∷ []) post hd ec chunks =
      (post, ap (λ t. done (t ++ post)) (append-nil c))
  levels_loop_lem (suc fuel) zero (c ∷ e ∷ cs) post hd ec chunks = absurd (omega arith)
  levels_loop_lem (suc fuel) (suc d) cs post hd ec chunks =
      let (rest, row) =
        parents_loop_lem (2 ^ d) 0 [] [] post cs refl refl (omega (arith, pow-suc 2 d)) chunks in
      let (junk, run) =
        levels_loop_lem fuel d (parents sha cs) rest (omega arith)
          (length-parents sha (2 ^ d) cs (omega (arith, pow-suc 2 d)))
          (parents-IsChunk sha digest cs) in
      (
        junk,
        rw (lt→ltb 1 (2 ^ suc d) (omega (arith, pow-suc 2 d, one-le-pow d 2 (omega arith))), half)
            (rw row run ∙ ap (λ t. done (t ++ junk)) (sym (merkle_root-parents sha d cs ec))),
      )
    where
      half : 2 ^ suc d / 2 ≡ 2 ^ d
      half = omega (arith, pow-suc 2 d)
