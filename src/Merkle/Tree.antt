-- ===== src/Merkle/Tree.antt =====
-- The Merkle root by recursion on the tree, apart from the arrays of src/ssz_merkle.c.
use c_ssz.Common.{
  ℕ, zero, suc, ◌*◌, ◌^◌, ◌≡◌, refl, sym, ap, ap₂, ◌∙◌, arith, List, [], ◌∷◌, ◌++◌, append_assoc,
}
use c_ssz.Common.{length, take, drop, replicate, length-append, length-take_of_le, length-drop, All}
use native.Mathlib.Nat.{pow-suc}

abbrev pub zero_chunk : List ℕ
zero_chunk = replicate 32 0

abbrev pub IsChunk : List ℕ → Type 0
IsChunk c = length c ≡ 32

-- The bytes of chunks that stand one after the other.
abbrev pub flat : List (List ℕ) → List ℕ
flat [] = []
flat (c ∷ cs) = c ++ flat cs

pub length-flat : (cs : List (List ℕ)) → All IsChunk cs → length (flat cs) ≡ length cs * 32
length-flat [] h = refl
length-flat (c ∷ cs) (hc, hcs) = omega (arith, length-append c (flat cs), hc, length-flat cs hcs)

pub flat-append : (cs ds : List (List ℕ)) → flat (cs ++ ds) ≡ flat cs ++ flat ds
flat-append [] ds = refl
flat-append (c ∷ cs) ds =
    ap (λ t. c ++ t) (flat-append cs ds) ∙ sym (append_assoc c (flat cs) (flat ds))

module _ (sha : List ℕ → List ℕ) where
  -- The root of the tree of depth `d` over 2 ^ d chunks.
  unfoldable pub merkle_root : ℕ → List (List ℕ) → List ℕ
  merkle_root zero [] = zero_chunk
  merkle_root zero (c ∷ cs) = c
  merkle_root (suc d) cs = sha (merkle_root d (take (2 ^ d) cs) ++ merkle_root d (drop (2 ^ d) cs))

  -- The row above a row of nodes.
  abbrev pub parents : List (List ℕ) → List (List ℕ)
  parents [] = []
  parents (a ∷ []) = []
  parents (a ∷ b ∷ cs) = sha (a ++ b) ∷ parents cs

  pub length-parents : (n : ℕ) (cs : List (List ℕ)) → length cs ≡ 2 * n → length (parents cs) ≡ n
  length-parents zero [] e = refl
  length-parents (suc n) [] e = absurd (omega arith)
  length-parents zero (a ∷ []) e = absurd (omega arith)
  length-parents (suc n) (a ∷ []) e = absurd (omega arith)
  length-parents zero (a ∷ b ∷ cs) e = absurd (omega arith)
  length-parents (suc n) (a ∷ b ∷ cs) e = ap suc (length-parents n cs (omega arith))

  twice_suc : (m : ℕ) → suc (suc (2 * m)) ≡ 2 * suc m
  twice_suc m = omega arith

  take-parents : (m : ℕ) (cs : List (List ℕ)) → take m (parents cs) ≡ parents (take (2 * m) cs)
  take-parents zero cs = refl
  take-parents (suc m) [] = ap (λ (n : ℕ). parents (take n [])) (twice_suc m)
  take-parents (suc m) (a ∷ []) = ap (λ (n : ℕ). parents (take n (a ∷ []))) (twice_suc m)
  take-parents (suc m) (a ∷ b ∷ cs) =
      ap (λ t. sha (a ++ b) ∷ t) (take-parents m cs)
      ∙ ap (λ (n : ℕ). parents (take n (a ∷ b ∷ cs))) (twice_suc m)

  drop-parents : (m : ℕ) (cs : List (List ℕ)) → drop m (parents cs) ≡ parents (drop (2 * m) cs)
  drop-parents zero cs = refl
  drop-parents (suc m) [] = ap (λ (n : ℕ). parents (drop n [])) (twice_suc m)
  drop-parents (suc m) (a ∷ []) = ap (λ (n : ℕ). parents (drop n (a ∷ []))) (twice_suc m)
  drop-parents (suc m) (a ∷ b ∷ cs) =
      drop-parents m cs ∙ ap (λ (n : ℕ). parents (drop n (a ∷ b ∷ cs))) (twice_suc m)

  -- Hashing the lowest row first does not change the root.
  pub merkle_root-parents :
      (d : ℕ) (cs : List (List ℕ))
      → length cs ≡ 2 ^ suc d
      → merkle_root (suc d) cs ≡ merkle_root d (parents cs)
  unfolding merkle_root
  merkle_root-parents zero [] e = absurd (omega arith)
  merkle_root-parents zero (a ∷ []) e = absurd (omega arith)
  merkle_root-parents zero (a ∷ b ∷ cs) e = refl
  merkle_root-parents (suc d) cs e =
      ap₂ (λ l r. sha (l ++ r))
        (merkle_root-parents d (take (2 ^ suc d) cs)
            (length-take_of_le (2 ^ suc d) cs (omega (arith, e, pow-suc 2 (suc d))))
          ∙ ap (merkle_root d) (left ∙ sym (take-parents (2 ^ d) cs)))
        (merkle_root-parents d (drop (2 ^ suc d) cs)
            (omega (arith, length-drop (2 ^ suc d) cs, e, pow-suc 2 (suc d)))
          ∙ ap (merkle_root d) (right ∙ sym (drop-parents (2 ^ d) cs)))
    where
      left : parents (take (2 ^ suc d) cs) ≡ parents (take (2 * 2 ^ d) cs)
      left = ap (λ (n : ℕ). parents (take n cs)) (omega (arith, pow-suc 2 d))

      right : parents (drop (2 ^ suc d) cs) ≡ parents (drop (2 * 2 ^ d) cs)
      right = ap (λ (n : ℕ). parents (drop n cs)) (omega (arith, pow-suc 2 d))

  -- A digest of 32 bytes is a chunk.
  pub parents-IsChunk :
      ((input : List ℕ) → IsChunk (sha input)) → (cs : List (List ℕ)) → All IsChunk (parents cs)
  parents-IsChunk digest [] = tt
  parents-IsChunk digest (a ∷ []) = tt
  parents-IsChunk digest (a ∷ b ∷ cs) = (digest (a ++ b), parents-IsChunk digest cs)
