-- ===== src/Generator/Reading.antt =====
-- DESERIALIZE_LIST_VARIABLE_CONTAINER_FIELD reads back, on a little-endian host, what
-- SERIALIZE_LIST_VARIABLE_CONTAINER_FIELD writes.
use c_ssz.Common.{
  ℕ, ◌+◌, ◌-◌, ◌*◌, ◌/◌, ◌^◌, ◌≤◌, ◌<◌, ◌≡◌, refl, sym, ap, ap₂, ◌∙◌, arith, List, [], ◌∷◌, ◌++◌,
  append_assoc,
}
use c_ssz.Common.{length, drop, length-append, drop-append, All, map, length-map, Option, some}
use c_ssz.Common.{done, load-append, store-append, loads, loads_lem, u32, lt→ltb, not-lt→ltb}
use c_ssz.Types.{success}
use c_ssz.Host.{little, host_order, le_bytes, length-le_bytes, le_value-le_bytes}
use c_ssz.Generator.{SerializeFn, DeserializeFn}
use c_ssz.Generator.Input.{Sequence}
use c_ssz.Generator.Variable.{
  serialize_list_variable_container_field, host_offset, next_offset, read_objects,
  read_variable_list, deserialize_list_variable_container_field,
}
use c_ssz.Generator.Codec.{Serializes, Deserializes, joined}
use c_ssz.Generator.Offsets.{offsets_from, variable_bytes, length-offsets_from}
use c_ssz.Generator.Objects.{serialize_list_variable_container_field_lem}

host_offset_lem :
    (v i : ℕ) (front rest : List ℕ)
    → i * 4 ≡ length front
    → v < 2 ^ 32
    → host_offset little (front ++ (le_bytes 4 v ++ rest)) i ≡ done v
unfolding host_offset host_order
host_offset_lem v i front rest e small =
    rw
      (ap (λ (n : ℕ). loads (front ++ (le_bytes 4 v ++ rest)) (i * 4) n) (sym (length-le_bytes 4 v))
        ∙ loads_lem front (le_bytes 4 v) rest (i * 4) e)
      (rw (le_value-le_bytes 4 v (omega arith)) refl)

module _ {A : Type 0} (deserialize_func : DeserializeFn A) (encode : A → List ℕ)
    (IsGood : A → Type 0)
    (reads : (x old : A) → IsGood x → Deserializes deserialize_func (encode x) old x) where
  next_offset_lem :
      (x : A) (xs : List A) (i at last_index field_size : ℕ) (front behind : List ℕ)
      → i * 4 ≡ length front
      → last_index + 1 ≡ i + length (x ∷ xs)
      → field_size ≡ at + length (joined (map encode (x ∷ xs)))
      → field_size < 2 ^ 32
      → next_offset little deserialize_func
          (front ++ (offsets_from at (map encode (x ∷ xs)) ++ behind))
          field_size
          last_index
          i
        ≡ done (at + length (encode x))
  unfolding next_offset
  next_offset_lem x [] i at last_index field_size front behind ef el es small =
      rw (not-lt→ltb i last_index (omega arith))
        (ap (λ (n : ℕ). done n) (omega (arith, es, length-append (encode x) [])))
  next_offset_lem x (y ∷ xs) i at last_index field_size front behind ef el es small =
      rw (lt→ltb i last_index (omega arith)) (
        ap (λ t. host_offset little t (i + 1)) regroup
        ∙ host_offset_lem (at + length (encode x)) (i + 1) (front ++ le_bytes 4 at) _
            (omega (arith, ef, length-append front (le_bytes 4 at), length-le_bytes 4 at))
            (omega (arith, es, small, length-append (encode x) (joined (map encode (y ∷ xs))))))
    where
      others : List ℕ
      others = offsets_from (at + length (encode x) + length (encode y)) (map encode xs)

      regroup :
          front ++ (offsets_from at (map encode (x ∷ y ∷ xs)) ++ behind)
          ≡ (front ++ le_bytes 4 at) ++ (le_bytes 4 (at + length (encode x)) ++ (others ++ behind))
      regroup = simp append_assoc

  read_objects_lem :
      (xs before olds : List A) (i at last_index field_size : ℕ) (front placed post : List ℕ)
      → All IsGood xs
      → i ≡ length before
      → length olds ≡ length xs
      → i * 4 ≡ length front
      → at ≡ length front + length xs * 4 + length placed
      → last_index + 1 ≡ i + length xs
      → field_size ≡ at + length (joined (map encode xs))
      → field_size < 2 ^ 32
      → read_objects little deserialize_func
          (front
            ++ (offsets_from at (map encode xs) ++ (placed ++ (joined (map encode xs) ++ post))))
          field_size
          last_index
          (length xs)
          i
          (before ++ olds)
        ≡ done (success, before ++ xs)
  unfolding read_objects
  read_objects_lem [] before [] i at last_index field_size front placed post good ei eo ef ea el es
        small =
      refl
  read_objects_lem [] before (o ∷ olds) i at last_index field_size front placed post good ei eo ef
        ea el es small =
      absurd (omega arith)
  read_objects_lem (x ∷ xs) before [] i at last_index field_size front placed post good ei eo ef ea
        el es small =
      absurd (omega arith)
  read_objects_lem (x ∷ xs) before (o ∷ olds) i at last_index field_size front placed post
        (hx, good) ei eo ef ea el es small =
      rw (here) (
        rw (next_offset_lem x xs i at last_index field_size front behind ef el es small) (
          rw (load-append before o olds i ei) (
            rw (at_object, size)
              (rw (reads x o hx (joined (map encode xs) ++ post)) (
                rw (store-append before o olds i x ei) (
                  ap₂
                    (λ t c.
                      read_objects little deserialize_func t field_size last_index (length xs)
                        (i + 1) c)
                    regroup (sym (append_assoc before (x ∷ []) olds))
                  ∙ read_objects_lem xs (before ++ x ∷ []) olds (i + 1) (at + n) last_index
                      field_size (front ++ le_bytes 4 at) (placed ++ encode x) post good
                      (omega (arith, ei, length-append before (x ∷ []))) (omega (arith, eo))
                      (omega (arith, ef, length-append front (le_bytes 4 at), length-le_bytes 4 at))
                      (omega (
                        arith,
                        ea,
                        length-append front (le_bytes 4 at),
                        length-le_bytes 4 at,
                        length-append placed (encode x),
                      ))
                      (omega (arith, el)) (omega (arith, es, all)) small
                  ∙ ap (λ t. done (success, t)) (append_assoc before (x ∷ []) xs)))))))
    where
      n : ℕ
      n = length (encode x)

      behind : List ℕ
      behind = placed ++ (joined (map encode (x ∷ xs)) ++ post)

      all : length (joined (map encode (x ∷ xs))) ≡ n + length (joined (map encode xs))
      all = length-append (encode x) (joined (map encode xs))

      whole : List ℕ
      whole = front ++ (offsets_from at (map encode (x ∷ xs)) ++ behind)

      here : host_offset little whole i ≡ done at
      here =
          ap (λ t. host_offset little (front ++ t) i)
            (append_assoc (le_bytes 4 at) (offsets_from (at + n) (map encode xs)) behind)
          ∙ host_offset_lem at i front _ ef (omega (arith, es, small))

      before_object : List ℕ
      before_object = (front ++ offsets_from at (map encode (x ∷ xs))) ++ placed

      place : length before_object ≡ at
      place = omega (
        arith,
        ea,
        length-append (front ++ offsets_from at (map encode (x ∷ xs))) placed,
        length-append front (offsets_from at (map encode (x ∷ xs))),
        length-offsets_from at (map encode (x ∷ xs)),
        length-map (x ∷ xs) encode,
      )

      at_object : drop at whole ≡ encode x ++ (joined (map encode xs) ++ post)
      at_object =
          ap₂ (λ (k : ℕ) t. drop k t) (sym place) (simp append_assoc)
          ∙ drop-append before_object (encode x ++ (joined (map encode xs) ++ post))

      size : u32 (at + n + 2 ^ 32 - at) ≡ n
      size = omega (arith, es, small, all)

      regroup :
          whole
          ≡ (front ++ le_bytes 4 at)
            ++ (offsets_from (at + n) (map encode xs)
                ++ ((placed ++ encode x) ++ (joined (map encode xs) ++ post)))
      regroup = simp append_assoc

  read_back :
      (x : A) (xs cells : List A) (max_length : ℕ) (malloc : ℕ → Option (List A)) (seq : Sequence A)
      (pre post : List ℕ)
      → All IsGood (x ∷ xs)
      → length (x ∷ xs) ≤ max_length
      → malloc (length (x ∷ xs)) ≡ some cells
      → length cells ≡ length (x ∷ xs)
      → length (variable_bytes (map encode (x ∷ xs))) < 2 ^ 32
      → deserialize_list_variable_container_field little deserialize_func malloc
          (length pre)
          (length (variable_bytes (map encode (x ∷ xs))))
          max_length
          (pre ++ (variable_bytes (map encode (x ∷ xs)) ++ post))
          seq
        ≡ done (success, record { count = length (x ∷ xs); items = x ∷ xs })
  unfolding deserialize_list_variable_container_field read_variable_list
  read_back x xs cells max_length malloc seq pre post good few given room small =
      rw (drop-append pre (variable_bytes encodings ++ post)) (
        rw first (
          rw count (
            rw (not-lt→ltb max_length (length (x ∷ xs)) few, given)
              (rw
                (append_assoc (offsets_from (length encodings * 4) encodings) (joined encodings)
                  post)
                (rw
                  (read_objects_lem (x ∷ xs) [] cells 0 (length encodings * 4)
                    (u32 (length (x ∷ xs) + 2 ^ 32 - 1)) (length (variable_bytes encodings)) [] []
                    post good refl room refl (omega (arith, length-map (x ∷ xs) encode))
                    (omega (arith, small, total, length-map (x ∷ xs) encode)) total small)
                  refl)))))
    where
      encodings : List (List ℕ)
      encodings = map encode (x ∷ xs)

      total : length (variable_bytes encodings) ≡ length encodings * 4 + length (joined encodings)
      total = omega (
        arith,
        length-append (offsets_from (length encodings * 4) encodings) (joined encodings),
        length-offsets_from (length encodings * 4) encodings,
      )

      first : host_offset little (variable_bytes encodings ++ post) 0 ≡ done (length encodings * 4)
      first =
          ap (λ t. host_offset little t 0) regroup
          ∙ host_offset_lem (length encodings * 4) 0 [] (others ++ (joined encodings ++ post)) refl
              (omega (arith, small, total))
        where
          others : List ℕ
          others = offsets_from (length encodings * 4 + length (encode x)) (map encode xs)

          regroup :
              variable_bytes encodings ++ post
              ≡ le_bytes 4 (length encodings * 4) ++ (others ++ (joined encodings ++ post))
          regroup = simp append_assoc

      count : length encodings * 4 / 4 ≡ length (x ∷ xs)
      count = omega (arith, length-map (x ∷ xs) encode)

  -- For objects that the serializer writes as `encode x` and the deserializer reads from these bytes: a
  -- list of at least one and at most `max_length` of them, whose bytes end below 2 ^ 32, that
  -- SERIALIZE_LIST_VARIABLE_CONTAINER_FIELD writes at the offset `length pre` of a buffer with cells for
  -- them, comes back from DESERIALIZE_LIST_VARIABLE_CONTAINER_FIELD at this offset of what that leaves, on
  -- a little-endian host that has memory for the objects, if the field's size is the offset's advance.
  pub variable_list_round_trip :
      (container_ser_func : A → SerializeFn)
      → ((x : A) → IsGood x → Serializes (container_ser_func x) 0 (encode x))
      → (xs spare cells : List A) (max_length : ℕ) (malloc : ℕ → Option (List A)) (seq : Sequence A)
        (pre old post : List ℕ)
      → All IsGood xs
      → 0 < length xs
      → length xs ≤ max_length
      → malloc (length xs) ≡ some cells
      → length cells ≡ length xs
      → length old ≡ length (variable_bytes (map encode xs))
      → length pre + length old < 2 ^ 32
      → (out : List ℕ) × (field_size : ℕ) × (serialize_list_variable_container_field
            container_ser_func
            (length xs)
            (xs ++ spare)
            (pre ++ (old ++ post))
            (length pre)
          ≡ done (success, out, length pre + field_size))
        × (deserialize_list_variable_container_field little deserialize_func malloc
              (length pre)
              field_size
              max_length
              out
              seq
            ≡ done (success, record { count = length xs; items = xs }))
  variable_list_round_trip container_ser_func serializes [] spare cells max_length malloc seq pre
        old post good some_object few given room eo small =
      absurd (omega arith)
  variable_list_round_trip container_ser_func serializes (x ∷ xs) spare cells max_length malloc seq
        pre old post good some_object few given room eo small =
      (
        pre ++ (variable_bytes (map encode (x ∷ xs)) ++ post),
        length (variable_bytes (map encode (x ∷ xs))),
        serialize_list_variable_container_field_lem container_ser_func encode IsGood serializes
            (x ∷ xs) spare good pre old post eo small,
        read_back x xs cells max_length malloc seq pre post good few given room (omega arith),
      )
