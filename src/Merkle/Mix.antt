-- ===== src/Merkle/Mix.antt =====
-- `ssz_mix_in_length` and `ssz_mix_in_selector` hash a root with a number behind it.
use c_ssz.Common.{
  ℕ, ◌/◌, ◌%◌, ◌^◌, ◌≤◌, ◌<◌, ◌≡◌, refl, sym, ap, ap₂, ◌∙◌, arith, List, [], ◌∷◌, ◌++◌,
  append_assoc, append-nil,
}
use c_ssz.Common.{
  length, take, drop, replicate, length-append, length-drop, length-take_of_le, take-append-drop,
  done, memcpy-front, stores, store, stores-one, stores_lem, stores-front, memset, loads, loads_lem,
}
use c_ssz.Types.{success}
use c_ssz.Serialize.Uints.{bytes64}
use c_ssz.Serialize.Uints.Encode.{bytes64_lem}
use c_ssz.Host.{le_bytes, length-le_bytes}
use c_ssz.Merkle.{ssz_mix_in_length, ssz_mix_in_selector}
use c_ssz.Merkle.Tree.{IsChunk}

abbrev zeros24 : List ℕ
zeros24 = replicate 24 0

-- Assignments that fill the array from a place to its end.
fill_end :
    (pre old vs : List ℕ) (i : ℕ)
    → i ≡ length pre
    → length vs ≡ length old
    → stores (pre ++ old) i vs ≡ done (pre ++ vs)
fill_end pre old vs i e h =
    ap (λ t. stores (pre ++ t) i vs) (sym (append-nil old))
    ∙ stores_lem pre old [] i vs e h
    ∙ ap (λ t. done (pre ++ t)) (append-nil vs)

loads_all : (xs : List ℕ) (n : ℕ) → n ≡ length xs → loads xs 0 n ≡ done xs
loads_all xs n e =
    ap₂ (λ t (k : ℕ). loads t 0 k) (sym (append-nil xs)) e ∙ loads_lem [] xs [] 0 refl

selector_bytes : (s : ℕ) → s < 256 → s ∷ replicate 31 0 ≡ le_bytes 32 s
unfolding le_bytes
selector_bytes s h =
    let low : s ≡ s % 256 = omega arith in
    let high : 0 ≡ s / 256 = omega arith in ap₂ (λ (b r : ℕ). b ∷ le_bytes 31 r) low high

-- A number of 64 bits has 24 zero bytes behind its eight.
length_bytes : (n : ℕ) → n < 2 ^ 64 → le_bytes 8 n ++ zeros24 ≡ le_bytes 32 n
unfolding le_bytes
length_bytes n h =
    let high : 0 ≡ n / 256 / 256 / 256 / 256 / 256 / 256 / 256 / 256 = omega arith in
    ap
      (λ (r : ℕ).
        (n % 256)
        ∷ (n / 256 % 256)
        ∷ (n / 256 / 256 % 256)
        ∷ (n / 256 / 256 / 256 % 256)
        ∷ (n / 256 / 256 / 256 / 256 % 256)
        ∷ (n / 256 / 256 / 256 / 256 / 256 % 256)
        ∷ (n / 256 / 256 / 256 / 256 / 256 / 256 % 256)
        ∷ (n / 256 / 256 / 256 / 256 / 256 / 256 / 256 % 256)
        ∷ le_bytes 24 r)
      high

module _ (sha : List ℕ → List ℕ) (digest : (input : List ℕ) → IsChunk (sha input)) where
  -- For a root of 32 bytes, a hash of 32 bytes and an output of at least 32 bytes:
  -- `ssz_mix_in_length` succeeds and leaves at the front of `out_root` the hash of the root followed
  -- by the 32 bytes of the number, lowest first, whatever stood in its buffer of 64 bytes.
  pub ssz_mix_in_length_lem :
      (buf root rest out_root : List ℕ) (n : ℕ)
      → length buf ≡ 64
      → IsChunk root
      → n < 2 ^ 64
      → 32 ≤ length out_root
      → ssz_mix_in_length sha buf (root ++ rest) n out_root
        ≡ done (success, sha (root ++ le_bytes 32 n) ++ drop 32 out_root)
  unfolding ssz_mix_in_length memset
  ssz_mix_in_length_lem buf root rest out_root n hb hr hn room =
      rw (memcpy-front buf root rest 32 (sym hr) (omega arith)) (
        rw eight (
          rw filled (
            rw
              (loads_all (root ++ le_bytes 32 n) 64
                (omega (arith, length-append root (le_bytes 32 n), hr, length-le_bytes 32 n)))
              (rw
                (stores-front out_root (sha (root ++ le_bytes 32 n))
                  (omega (arith, digest (root ++ le_bytes 32 n))))
                (ap (λ (k : ℕ). done (success, sha (root ++ le_bytes 32 n) ++ drop k out_root))
                  (digest (root ++ le_bytes 32 n)))))))
    where
      tail : List ℕ
      tail = drop 32 buf

      length_tail : length tail ≡ 32
      length_tail = omega (arith, length-drop 32 buf, hb)

      eight : stores (root ++ tail) 32 (bytes64 n) ≡ done (root ++ (le_bytes 8 n ++ drop 8 tail))
      eight =
          ap₂ (λ t vs. stores (root ++ t) 32 vs) (sym (take-append-drop 8 tail)) (bytes64_lem n)
          ∙ stores_lem root (take 8 tail) (drop 8 tail) 32 (le_bytes 8 n) (sym hr)
              (length-le_bytes 8 n ∙ sym (length-take_of_le 8 tail (omega (arith, length_tail))))

      filled : memset (root ++ (le_bytes 8 n ++ drop 8 tail)) 40 0 24 ≡ done (root ++ le_bytes 32 n)
      filled =
          ap (λ t. stores t 40 zeros24) (sym (append_assoc root (le_bytes 8 n) (drop 8 tail)))
          ∙ fill_end (root ++ le_bytes 8 n) (drop 8 tail) zeros24 40
              (omega (arith, length-append root (le_bytes 8 n), hr, length-le_bytes 8 n))
              (omega (arith, length-drop 8 tail, length_tail))
          ∙ ap done (append_assoc root (le_bytes 8 n) zeros24)
          ∙ ap (λ t. done (root ++ t)) (length_bytes n hn)

  -- For a root of 32 bytes, a hash of 32 bytes and an output of at least 32 bytes:
  -- `ssz_mix_in_selector` succeeds and leaves at the front of `out_root` the hash of the root followed
  -- by the 32 bytes of the selector, lowest first.
  pub ssz_mix_in_selector_lem :
      (root rest out_root : List ℕ) (selector : ℕ)
      → IsChunk root
      → selector < 256
      → 32 ≤ length out_root
      → ssz_mix_in_selector sha (root ++ rest) selector out_root
        ≡ done (success, sha (root ++ le_bytes 32 selector) ++ drop 32 out_root)
  unfolding ssz_mix_in_selector
  ssz_mix_in_selector_lem root rest out_root selector hr hs room =
      rw (memcpy-front (replicate 64 0) root rest 32 (sym hr) (omega arith)) (
        rw placed (
          rw
            (loads_all (root ++ le_bytes 32 selector) 64 (
              omega (
                arith,
                length-append root (le_bytes 32 selector),
                hr,
                length-le_bytes 32 selector,
              )))
            (rw
              (stores-front out_root (sha (root ++ le_bytes 32 selector))
                (omega (arith, digest (root ++ le_bytes 32 selector))))
              (ap (λ (k : ℕ). done (success, sha (root ++ le_bytes 32 selector) ++ drop k out_root))
                (digest (root ++ le_bytes 32 selector))))))
    where
      placed : store (root ++ replicate 32 0) 32 selector ≡ done (root ++ le_bytes 32 selector)
      placed =
          sym (stores-one (root ++ replicate 32 0) 32 selector)
          ∙ stores_lem root (0 ∷ []) (replicate 31 0) 32 (selector ∷ []) (sym hr) refl
          ∙ ap (λ t. done (root ++ t)) (selector_bytes selector hs)
