-- ===== src/Generator/Elements.antt =====
-- The statements that DEFINE_SERIALIZE_LIST and DEFINE_DESERIALIZE_LIST repeat for the elements of a list.
use c_ssz.Common.{
  ℕ, zero, suc, ◌+◌, ◌*◌, ◌≡◌, refl, sym, ap, ap₂, ◌∙◌, arith, List, [], ◌∷◌, ◌++◌, append_assoc,
}
use c_ssz.Common.{length, length-append, drop-append, concat_map, All}
use c_ssz.Common.{done, load-append, store-append}
use native.Mathlib.Nat.{mod-eq_of_lt}
use c_ssz.Types.{success}
use c_ssz.Generator.{SerializeFn, write_with, DeserializeFn, Reading, and_read, skip_read}
use c_ssz.Generator.Lists.{read_element, read_groups, read_rest}
use c_ssz.Generator.Codec.{
  Serializes, Writes, Deserializes, Reads, write_with-Writes, and_then-Writes, skip-Writes,
  and_read-Reads,
}
use c_ssz.Generator.Unrolled.{write_all}

module _ {A : Type 0} (ser_func : A → SerializeFn) (deserialize_func : DeserializeFn A)
    (encode : A → List ℕ) (IsGood : A → Type 0) (w : ℕ)
    (sized : (x : A) → IsGood x → length (encode x) ≡ w)
    (writes : (x : A) → IsGood x → Serializes (ser_func x) 0 (encode x))
    (reads : (x old : A) → IsGood x → Deserializes deserialize_func (encode x) old x) where
  pub length-encoded : (xs : List A) → All IsGood xs → length (concat_map encode xs) ≡ length xs * w
  length-encoded [] good = omega arith
  length-encoded (x ∷ xs) (hx, good) =
      omega
        (arith, length-append (encode x) (concat_map encode xs), sized x hx, length-encoded xs good)

  pub write_all-Writes :
      (xs : List A) → All IsGood xs → Writes (write_all ser_func xs) (concat_map encode xs)
  unfolding write_all
  write_all-Writes [] good = skip-Writes
  write_all-Writes (x ∷ xs) (hx, good) =
      and_then-Writes (write_with 0 (ser_func x)) (write_all ser_func xs) (encode x)
        (concat_map encode xs) (write_with-Writes 0 (ser_func x) (encode x) (writes x hx))
        (write_all-Writes xs good)

  abbrev element : Reading (ℕ × List A)
  element = read_element w deserialize_func

  read_element-Reads :
      (x old : A) (pre post : List A) (k : ℕ)
      → IsGood x
      → k ≡ length pre
      → Reads element (encode x) (k, pre ++ old ∷ post) (k + 1, pre ++ x ∷ post)
  unfolding read_element
  read_element-Reads x old pre post k good e front behind small =
      rw (load-append pre old post k e) (
        rw (drop-append front (encode x ++ behind), ← (sized x good))
          (rw (reads x old good behind)
            (rw (store-append pre old post k x e, mod-eq_of_lt small) refl)))

  -- The state between two elements, with one element more in front.
  shift_Reads :
      (statement : Reading (ℕ × List A)) (bs : List ℕ) (x : A) (olds xs pre post : List A) (k n : ℕ)
      → Reads statement bs
          (k + 1, (pre ++ x ∷ []) ++ (olds ++ post))
          (k + 1 + n, (pre ++ x ∷ []) ++ (xs ++ post))
      → Reads statement bs (k + 1, pre ++ x ∷ (olds ++ post)) (k + suc n, pre ++ x ∷ (xs ++ post))
  shift_Reads statement bs x olds xs pre post k n reading front behind small =
      ap (λ t. statement (front ++ (bs ++ behind)) (length front) (k + 1, t))
        (sym (append_assoc pre (x ∷ []) (olds ++ post)))
      ∙ reading front behind small
      ∙ ap₂ (λ (m : ℕ) t. done (success, length front + length bs, (m, t))) (omega arith)
          (append_assoc pre (x ∷ []) (xs ++ post))

  none_left :
      (pre post : List A) (k : ℕ)
      → Reads {A = ℕ × List A} skip_read [] (k, pre ++ post) (k + 0, pre ++ post)
  none_left pre post k front behind small =
      ap₂ (λ (p m : ℕ). done (success, p, (m, pre ++ post))) (omega arith) (omega arith)

  -- One element, and then what reads the others.
  next_Reads :
      (after : Reading (ℕ × List A)) (x o : A) (xs olds pre post : List A) (k : ℕ)
      → IsGood x
      → k ≡ length pre
      → Reads after
          (concat_map encode xs)
          (k + 1, (pre ++ x ∷ []) ++ (olds ++ post))
          (k + 1 + length xs, (pre ++ x ∷ []) ++ (xs ++ post))
      → Reads
          (and_read element after)
          (concat_map encode (x ∷ xs))
          (k, pre ++ o ∷ (olds ++ post))
          (k + suc (length xs), pre ++ x ∷ (xs ++ post))
  next_Reads after x o xs olds pre post k good e more =
      and_read-Reads element after (encode x) (concat_map encode xs) (k, pre ++ o ∷ (olds ++ post))
        (k + 1, pre ++ x ∷ (olds ++ post)) (k + suc (length xs), pre ++ x ∷ (xs ++ post))
        (read_element-Reads x o pre (olds ++ post) k good e)
        (shift_Reads after (concat_map encode xs) x olds xs pre post k (length xs) more)

  next_place : (pre : List A) (x : A) (k : ℕ) → k ≡ length pre → k + 1 ≡ length (pre ++ x ∷ [])
  next_place pre x k e = omega (arith, e, length-append pre (x ∷ []))

  pub read_rest-Reads :
      (xs olds pre post : List A) (k : ℕ)
      → All IsGood xs
      → length olds ≡ length xs
      → k ≡ length pre
      → Reads
          (read_rest w deserialize_func (length xs))
          (concat_map encode xs)
          (k, pre ++ (olds ++ post))
          (k + length xs, pre ++ (xs ++ post))
  unfolding read_rest
  read_rest-Reads [] [] pre post k good e ek = none_left pre post k
  read_rest-Reads [] (o ∷ olds) pre post k good e ek = absurd (omega arith)
  read_rest-Reads (x ∷ xs) [] pre post k good e ek = absurd (omega arith)
  read_rest-Reads (x ∷ xs) (o ∷ olds) pre post k (hx, good) e ek =
      next_Reads (read_rest w deserialize_func (length xs)) x o xs olds pre post k hx ek (
        read_rest-Reads xs olds (pre ++ x ∷ []) post (k + 1) good (omega arith)
          (next_place pre x k ek))

  pub read_groups-Reads :
      (left : ℕ) (xs olds pre post : List A) (k : ℕ)
      → All IsGood xs
      → length xs ≡ 4 * left
      → length olds ≡ length xs
      → k ≡ length pre
      → Reads
          (read_groups w deserialize_func left)
          (concat_map encode xs)
          (k, pre ++ (olds ++ post))
          (k + length xs, pre ++ (xs ++ post))
  unfolding read_groups
  read_groups-Reads zero [] [] pre post k good el e ek = none_left pre post k
  read_groups-Reads (suc left) (a ∷ b ∷ c ∷ d ∷ xs) (o ∷ p ∷ q ∷ r ∷ olds) pre post k
        (ha, (hb, (hc, (hd, good)))) el e ek =
      let place_b = next_place pre a k ek in
      let place_c = next_place (pre ++ a ∷ []) b (k + 1) place_b in
      let place_d = next_place ((pre ++ a ∷ []) ++ b ∷ []) c (k + 1 + 1) place_c in
      let place = next_place (((pre ++ a ∷ []) ++ b ∷ []) ++ c ∷ []) d (k + 1 + 1 + 1) place_d in
      next_Reads _ a o (b ∷ c ∷ d ∷ xs) (p ∷ q ∷ r ∷ olds) pre post k ha ek (
        next_Reads _ b p (c ∷ d ∷ xs) (q ∷ r ∷ olds) (pre ++ a ∷ []) post (k + 1) hb place_b (
          next_Reads _ c q (d ∷ xs) (r ∷ olds) ((pre ++ a ∷ []) ++ b ∷ []) post (k + 1 + 1) hc
            place_c
            (next_Reads _ d r xs olds (((pre ++ a ∷ []) ++ b ∷ []) ++ c ∷ []) post (k + 1 + 1 + 1)
              hd place_d
              (read_groups-Reads left xs olds ((((pre ++ a ∷ []) ++ b ∷ []) ++ c ∷ []) ++ d ∷ [])
                post (k + 1 + 1 + 1 + 1) good (omega arith) (omega arith) place))))
  read_groups-Reads zero (a ∷ xs) olds pre post k good el e ek = absurd (omega arith)
  read_groups-Reads zero [] (o ∷ olds) pre post k good el e ek = absurd (omega arith)
  read_groups-Reads (suc left) [] olds pre post k good el e ek = absurd (omega arith)
  read_groups-Reads (suc left) (a ∷ []) olds pre post k good el e ek = absurd (omega arith)
  read_groups-Reads (suc left) (a ∷ b ∷ []) olds pre post k good el e ek = absurd (omega arith)
  read_groups-Reads (suc left) (a ∷ b ∷ c ∷ []) olds pre post k good el e ek = absurd (omega arith)
  read_groups-Reads (suc left) (a ∷ b ∷ c ∷ d ∷ xs) [] pre post k good el e ek =
      absurd (omega arith)
  read_groups-Reads (suc left) (a ∷ b ∷ c ∷ d ∷ xs) (o ∷ []) pre post k good el e ek =
      absurd (omega arith)
  read_groups-Reads (suc left) (a ∷ b ∷ c ∷ d ∷ xs) (o ∷ p ∷ []) pre post k good el e ek =
      absurd (omega arith)
  read_groups-Reads (suc left) (a ∷ b ∷ c ∷ d ∷ xs) (o ∷ p ∷ q ∷ []) pre post k good el e ek =
      absurd (omega arith)
