-- ===== src/Generator/Objects.antt =====
-- SERIALIZE_LIST_VARIABLE_CONTAINER_FIELD writes a table of offsets and the objects behind it.
use c_ssz.Common.{
  ℕ, ◌+◌, ◌-◌, ◌*◌, ◌^◌, ◌≤◌, ◌<◌, ◌≡◌, refl, sym, ap, ap₂, ◌∙◌, arith, List, [], ◌∷◌, ◌++◌,
  append_assoc,
}
use c_ssz.Common.{
  length, take, drop, length-append, length-take_of_le, length-drop, All, map, length-map,
}
use c_ssz.Common.{done, load-append, sz, u32}
use c_ssz.Types.{success}
use c_ssz.Host.{le_bytes, length-le_bytes}
use c_ssz.Generator.{SerializeFn, write_with}
use c_ssz.Generator.Variable.{put_offset, write_objects, serialize_list_variable_container_field}
use c_ssz.Generator.Codec.{Serializes, joined, write_with-Writes}
use c_ssz.Generator.Offsets.{
  offsets_from, variable_bytes, length-offsets_from, put_offset_lem, table_split_at,
  clear_table_lem,
}

-- The parts of the buffer in two groupings: by the table, and by the objects that are written.
by_object :
    (front table placed rest : List ℕ)
    → front ++ (table ++ (placed ++ rest)) ≡ ((front ++ table) ++ placed) ++ rest
by_object front table placed rest =
    sym (append_assoc front table (placed ++ rest))
    ∙ sym (append_assoc (front ++ table) placed rest)

module _ {A : Type 0} (container_ser_func : A → SerializeFn) (encode : A → List ℕ)
    (IsGood : A → Type 0)
    (serializes : (x : A) → IsGood x → Serializes (container_ser_func x) 0 (encode x)) where
  -- One object behind the placed ones, and its offset at the front of the table that is left.
  write_object_lem :
      (x : A) (start i cur : ℕ) (front table placed old post : List ℕ)
      → IsGood x
      → start + i * 4 ≡ length front
      → 4 ≤ length table
      → cur ≡ length front + length table + length placed
      → length old ≡ length (encode x)
      → cur + length (encode x) < 2 ^ 32
      → (write_with 0 (container_ser_func x) (front ++ (table ++ (placed ++ (old ++ post)))) cur
          ≡ done (
            success,
            front ++ (table ++ (placed ++ (encode x ++ post))),
            cur + length (encode x),
          ))
        × (put_offset
              (u32 (cur + 2 ^ 64 - start))
              (sz (start + u32 (i * 4)))
              (front ++ (table ++ (placed ++ (encode x ++ post))))
            ≡ done (
              success,
              front
                  ++ (le_bytes 4 (cur - start) ++ (drop 4 table ++ (placed ++ (encode x ++ post)))),
            ))
  write_object_lem x start i cur front table placed old post good ef et ec eo small = (
    ap₂ (λ t (n : ℕ). write_with 0 (container_ser_func x) t n)
          (by_object front table placed (old ++ post)) here
        ∙ write_with-Writes 0 (container_ser_func x) (encode x) (serializes x good)
            ((front ++ table) ++ placed) old post eo (omega (arith, here))
        ∙ ap₂ (λ t (n : ℕ). done (success, t, n))
            (sym (by_object front table placed (encode x ++ post))) (omega (arith, here)),
    ap₂ (λ t (n : ℕ). put_offset n (sz (start + u32 (i * 4))) t) (table_split_at 4 front table _)
          distance
        ∙ put_offset_lem (cur - start) (sz (start + u32 (i * 4))) front (take 4 table) _
            (omega (arith, ef, ec)) (length-take_of_le 4 table et) (omega (arith, ef, ec)),
  )
    where
      here : cur ≡ length ((front ++ table) ++ placed)
      here = omega (arith, ec, length-append (front ++ table) placed, length-append front table)

      distance : u32 (cur + 2 ^ 64 - start) ≡ cur - start
      distance = omega (arith, ec, ef)

  write_objects_lem :
      (xs before spare : List A) (start i cur : ℕ) (front table placed old post : List ℕ)
      → All IsGood xs
      → i ≡ length before
      → start + i * 4 ≡ length front
      → length table ≡ length xs * 4
      → cur ≡ length front + length table + length placed
      → length old ≡ length (joined (map encode xs))
      → cur + length old < 2 ^ 32
      → write_objects container_ser_func
          (before ++ (xs ++ spare))
          start
          (length xs)
          i
          cur
          (front ++ (table ++ (placed ++ (old ++ post))))
        ≡ done (
          success,
          front
              ++ (offsets_from (cur - start) (map encode xs)
                  ++ (placed ++ (joined (map encode xs) ++ post))),
          cur + length (joined (map encode xs)),
        )
  unfolding write_objects
  write_objects_lem [] before spare start i cur front [] placed [] post good ei ef et ec eo small =
      ap (λ (n : ℕ). done (success, front ++ (placed ++ post), n)) (omega arith)
  write_objects_lem [] before spare start i cur front [] placed (o ∷ old) post good ei ef et ec eo
        small =
      absurd (omega arith)
  write_objects_lem [] before spare start i cur front (t ∷ table) placed old post good ei ef et ec
        eo small =
      absurd (omega arith)
  write_objects_lem (x ∷ xs) before spare start i cur front table placed old post (hx, good) ei ef
        et ec eo small =
      let (written, filled) =
        write_object_lem x start i cur front table placed (take n old) (drop n old ++ post) hx ef
          (omega (arith, et)) ec size (omega (arith, eo, all)) in
      rw (load-append before x (xs ++ spare) i ei) (
        rw split (
          rw written (
            rw filled (
              ap₂
                (λ its t.
                  write_objects container_ser_func its start (length xs) (i + 1) (cur + n) t)
                (sym (append_assoc before (x ∷ []) (xs ++ spare))) regroup
              ∙ write_objects_lem xs (before ++ x ∷ []) spare start (i + 1) (cur + n)
                  (front ++ le_bytes 4 (cur - start)) (drop 4 table) (placed ++ encode x)
                  (drop n old) post good (omega (arith, ei, length-append before (x ∷ [])))
                  (omega (
                    arith,
                    ef,
                    length-append front (le_bytes 4 (cur - start)),
                    length-le_bytes 4 (cur - start),
                  ))
                  (omega (arith, et, length-drop 4 table))
                  (omega (
                    arith,
                    ec,
                    et,
                    length-drop 4 table,
                    length-append front (le_bytes 4 (cur - start)),
                    length-le_bytes 4 (cur - start),
                    length-append placed (encode x),
                  ))
                  (omega (arith, eo, length-drop n old, all))
                  (omega (arith, eo, length-drop n old, all))
              ∙ ap₂ (λ t (k : ℕ). done (success, t, k)) finish (omega (arith, all))))))
    where
      n : ℕ
      n = length (encode x)

      all : length (joined (map encode (x ∷ xs))) ≡ n + length (joined (map encode xs))
      all = length-append (encode x) (joined (map encode xs))

      size : length (take n old) ≡ n
      size = length-take_of_le n old (omega (arith, eo, all))

      split :
          front ++ (table ++ (placed ++ (old ++ post)))
          ≡ front ++ (table ++ (placed ++ (take n old ++ (drop n old ++ post))))
      split = ap (λ t. front ++ (table ++ t)) (table_split_at n placed old post)

      regroup :
          front
            ++ (le_bytes 4 (cur - start)
                ++ (drop 4 table ++ (placed ++ (encode x ++ (drop n old ++ post)))))
          ≡ (front ++ le_bytes 4 (cur - start))
            ++ (drop 4 table ++ ((placed ++ encode x) ++ (drop n old ++ post)))
      regroup =
          sym (append_assoc front (le_bytes 4 (cur - start)) _)
          ∙ ap (λ t. (front ++ le_bytes 4 (cur - start)) ++ (drop 4 table ++ t))
              (sym (append_assoc placed (encode x) (drop n old ++ post)))

      further : cur + n - start ≡ cur - start + n
      further = omega (arith, ec, ef)

      finish :
          (front ++ le_bytes 4 (cur - start))
            ++ (offsets_from (cur + n - start) (map encode xs)
                ++ ((placed ++ encode x) ++ (joined (map encode xs) ++ post)))
          ≡ front
            ++ (offsets_from (cur - start) (map encode (x ∷ xs))
                ++ (placed ++ (joined (map encode (x ∷ xs)) ++ post)))
      finish =
          ap
            (λ (k : ℕ).
              (front ++ le_bytes 4 (cur - start))
              ++ (offsets_from k (map encode xs)
                  ++ ((placed ++ encode x) ++ (joined (map encode xs) ++ post))))
            further
          ∙ simp append_assoc

  -- If the serializer of the objects writes `encode x` for each object of the list: where the buffer has
  -- cells at the offset for the table and all of the objects, whose end lies below 2 ^ 32, the macro puts
  -- there a table with the offset of each object from the start of the table, and behind it the objects
  -- in their order, changes no other cell, and moves the offset behind the last object.
  pub serialize_list_variable_container_field_lem :
      (xs spare : List A)
      → All IsGood xs
      → (pre old post : List ℕ) → length old ≡ length (variable_bytes (map encode xs))
      → length pre + length old < 2 ^ 32
      → serialize_list_variable_container_field container_ser_func
          (length xs)
          (xs ++ spare)
          (pre ++ (old ++ post))
          (length pre)
        ≡ done (
          success,
          pre ++ (variable_bytes (map encode xs) ++ post),
          length pre + length (variable_bytes (map encode xs)),
        )
  unfolding serialize_list_variable_container_field
  serialize_list_variable_container_field_lem xs spare good pre old post eo small =
      let (table', et, cleared) =
        clear_table_lem (length xs) 0 (length pre) pre (take n old) (drop n old ++ post)
          (omega arith) (length-take_of_le n old (omega (arith, eo, all)))
          (omega (arith, eo, all)) in
      rw (few, table_split_at n pre old post)
        (rw cleared (
          rw first (
            write_objects_lem xs [] spare (length pre) 0 (length pre + n) pre table' [] (drop n old)
              post good refl (omega arith) et (omega (arith, et))
              (omega (arith, eo, all, length-drop n old))
              (omega (arith, eo, all, length-drop n old))
            ∙ ap₂ (λ t (k : ℕ). done (success, t, k)) finish (omega (arith, all)))))
    where
      n : ℕ
      n = length xs * 4

      all : length (variable_bytes (map encode xs)) ≡ n + length (joined (map encode xs))
      all = omega (
        arith,
        length-append (offsets_from (length (map encode xs) * 4) (map encode xs))
            (joined (map encode xs)),
        length-offsets_from (length (map encode xs) * 4) (map encode xs),
        length-map xs encode,
      )

      few : u32 (length xs) ≡ length xs
      few = omega (arith, eo, all)

      first : sz (length pre + u32 (length xs * 4)) ≡ length pre + n
      first = omega (arith, eo, all)

      start : length pre + n - length pre ≡ length (map encode xs) * 4
      start = omega (arith, length-map xs encode)

      finish :
          pre
            ++ (offsets_from (length pre + n - length pre) (map encode xs)
                ++ (joined (map encode xs) ++ post))
          ≡ pre ++ (variable_bytes (map encode xs) ++ post)
      finish =
          ap
            (λ (k : ℕ). pre ++ (offsets_from k (map encode xs) ++ (joined (map encode xs) ++ post)))
            start
          ∙ ap (λ t. pre ++ t)
              (sym (
                append_assoc (offsets_from (length (map encode xs) * 4) (map encode xs))
                  (joined (map encode xs)) post))
