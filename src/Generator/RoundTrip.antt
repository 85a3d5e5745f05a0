-- ===== src/Generator/RoundTrip.antt =====
-- Containers, and lists of objects of a fixed size, that the macros serialize and deserialize again come
-- back if their parts do.
use c_ssz.Common.{
  ℕ, ◌+◌, ◌-◌, ◌*◌, ◌/◌, ◌%◌, ◌^◌, ◌<◌, ◌≡◌, refl, sym, ap, ap₂, ◌∙◌, arith, List, [], ◌++◌,
  append-nil,
}
use c_ssz.Common.{
  length, take, drop, take-append-drop, length-take_of_le, length-drop, concat_map,
  concat_map-append, All, Option, some,
}
use c_ssz.Common.{done, ◌==◌, not-lt→ltb}
use native.Mathlib.Nat.{mul-div_cancel, mul-mod_left}
use c_ssz.Common.{All-take, All-drop, Bool-cases, inl, inr, eq-nil_of_length}
use c_ssz.Types.{success}
use c_ssz.Generator.{SerializeFn, Writer, DeserializeFn, Reading, and_read}
use c_ssz.Generator.Output.{serialize_container}
use c_ssz.Generator.Input.{Sequence, deserialize_container}
use c_ssz.Generator.Lists.{serialize_list, read_groups, read_rest, read_list, deserialize_list}
use c_ssz.Generator.Codec.{
  Serializes, Deserializes, Reads, AllWrites, AllReads, joined, and_read-Reads,
  serialize_container-Serializes, deserialize_container-Deserializes,
}
use c_ssz.Generator.Unrolled.{serialize_list-write_all}
use c_ssz.Generator.Elements.{length-encoded, write_all-Writes, read_rest-Reads, read_groups-Reads}

-- If each statement of a container's serializer writes its field's bytes, and the statements of its
-- deserializer read these bytes one after the other and so take the object from `old` to `new`: in a
-- buffer with cells for all of the bytes, fewer than 2 ^ 64, the container's serializer succeeds,
-- whatever size it is told, and reports the number of bytes, and its deserializer succeeds on what it
-- leaves and gives `new`.
pub container_round_trip :
    {O : Type 0} (writers : List Writer) (readers : List (Reading O)) (encodings : List (List ℕ))
    (old new : O) (cells rest : List ℕ) (told : ℕ)
    → AllWrites writers encodings
    → AllReads readers encodings old new
    → length (joined encodings) < 2 ^ 64
    → length cells ≡ length (joined encodings)
    → (out : List ℕ) × (serialize_container writers (cells ++ rest) told
        ≡ done (success, out, length (joined encodings)))
      × (deserialize_container readers out (length (joined encodings)) old ≡ done (success, new))
container_round_trip writers readers encodings old new cells rest told writes reads small room = (
  joined encodings ++ rest,
  serialize_container-Serializes writers encodings told writes small cells rest room,
  deserialize_container-Deserializes readers encodings old new reads small rest,
)

module _ {A : Type 0} (ser_func : A → SerializeFn) (deserialize_func : DeserializeFn A)
    (encode : A → List ℕ) (IsGood : A → Type 0) (w : ℕ)
    (sized : (x : A) → IsGood x → length (encode x) ≡ w)
    (writes : (x : A) → IsGood x → Serializes (ser_func x) 0 (encode x))
    (reads : (x old : A) → IsGood x → Deserializes deserialize_func (encode x) old x) where
  module _ (xs cells : List A) (good : All IsGood xs) (room : length cells ≡ length xs) where
    abbrev n : ℕ
    n = length xs / 4 * 4

    length-whole : length (take n xs) ≡ n
    length-whole = length-take_of_le n xs (omega arith)

    -- The two loops together.
    loops-Reads :
        Reads
          (and_read
            (read_groups w deserialize_func (length xs / 4))
            (read_rest w deserialize_func (length xs % 4)))
          (concat_map encode xs)
          (0, cells)
          (length xs, xs)
    loops-Reads front behind small =
        ap₂ (λ t c. both (front ++ (t ++ behind)) (length front) (0, c)) encoded
          (sym (take-append-drop n cells))
        ∙ and_read-Reads (read_groups w deserialize_func (length xs / 4))
            (read_rest w deserialize_func (length xs % 4)) (concat_map encode (take n xs))
            (concat_map encode (drop n xs)) (0, take n cells ++ drop n cells)
            (n, take n xs ++ drop n cells) (length xs, xs) groups others front behind
            (rw encoded at small)
        ∙ ap (λ t. done (success, length front + length t, (length xs, xs))) (sym encoded)
      where
        both : Reading (ℕ × List A)
        both =
            and_read (read_groups w deserialize_func (length xs / 4))
              (read_rest w deserialize_func (length xs % 4))

        encoded :
            concat_map encode xs ≡ concat_map encode (take n xs) ++ concat_map encode (drop n xs)
        encoded =
            ap (concat_map encode) (sym (take-append-drop n xs))
            ∙ concat_map-append encode (take n xs) (drop n xs)

        groups :
            Reads
              (read_groups w deserialize_func (length xs / 4))
              (concat_map encode (take n xs))
              (0, take n cells ++ drop n cells)
              (n, take n xs ++ drop n cells)
        groups f b sm =
            read_groups-Reads ser_func deserialize_func encode IsGood w sized writes reads
              (length xs / 4) (take n xs) (take n cells) [] (drop n cells) 0
              (All-take IsGood n xs good) (omega (arith, length-whole))
              (length-take_of_le n cells (omega (arith, room)) ∙ sym length-whole) refl f b sm
            ∙ ap
                (λ (m : ℕ). done (
                  success,
                  length f + length (concat_map encode (take n xs)),
                  (m, take n xs ++ drop n cells),
                ))
                (omega (arith, length-whole))

        count : length xs % 4 ≡ length (drop n xs)
        count = omega (arith, length-drop n xs)

        total : n + length (drop n xs) ≡ length xs
        total = omega (arith, length-drop n xs)

        others :
            Reads
              (read_rest w deserialize_func (length xs % 4))
              (concat_map encode (drop n xs))
              (n, take n xs ++ drop n cells)
              (length xs, xs)
        others f b sm =
            ap₂
              (λ (m : ℕ) c.
                read_rest w deserialize_func m (f ++ (concat_map encode (drop n xs) ++ b))
                  (length f) (n, take n xs ++ c))
              count (sym (append-nil (drop n cells)))
            ∙ read_rest-Reads ser_func deserialize_func encode IsGood w sized writes reads
                (drop n xs) (drop n cells) (take n xs) [] n (All-drop IsGood n xs good)
                (omega (arith, length-drop n xs, length-drop n cells, room)) (sym length-whole) f b
                sm
            ∙ ap₂
                (λ (m : ℕ) c.
                  done (success, length f + length (concat_map encode (drop n xs)), (m, c)))
                total (ap (λ t. take n xs ++ t) (append-nil (drop n xs)) ∙ take-append-drop n xs)

    -- For elements that the serializer writes as `w` bytes each, `w` not zero, and that the deserializer
    -- reads from these, in a buffer with cells for the `length xs * w` bytes, fewer than 2 ^ 64, and with
    -- memory for the elements: the list's serializer succeeds, whatever size it is told, and reports the
    -- number of bytes, and the list's deserializer, told that number, gives the list from what it leaves.
    pub list_round_trip :
        (spare : List A) (old rest : List ℕ) (told : ℕ) (malloc : ℕ → Option (List A))
        (seq : Sequence A)
        → 0 < w
        → length xs * w < 2 ^ 64
        → length old ≡ length xs * w
        → malloc (length xs) ≡ some cells
        → (out : List ℕ) × (serialize_list ser_func
              (length xs)
              (some (xs ++ spare))
              (old ++ rest)
              told
            ≡ done (success, out, length xs * w))
          × (deserialize_list w deserialize_func malloc out (length xs * w) seq
              ≡ done (success, record { count = length xs; items = xs }))
    unfolding deserialize_list
    list_round_trip spare old rest told malloc seq pos small fits given = (
      concat_map encode xs ++ rest,
      serialize_list-write_all ser_func xs spare (old ++ rest) told
          ∙ rw
              (write_all-Writes ser_func deserialize_func encode IsGood w sized writes reads xs good
                [] old rest (omega (arith, fits, bytes)) (omega (arith, bytes)))
              (rw (bytes, not-lt→ltb (2 ^ 64 - 1) (0 + length xs * w) (omega arith))
                (ap (λ (m : ℕ). done (success, concat_map encode xs ++ rest, m)) (omega arith))),
      rw (mul-mod_left (length xs) w, mul-div_cancel (length xs) pos)
          (elim (Bool-cases (length xs == 0)) [
            | inl none_left ↦
                let empty : xs ≡ [] = eq-nil_of_length xs (ground arith) in
                rw none_left (ap (λ t. done (success, listed t)) (sym empty))
            | inr more ↦
                rw (more, given)
                  (unfold read_list in rw (loops-Reads [] rest (omega (arith, bytes))) refl)
          ]),
    )
      where
        listed : List A → Sequence A
        listed t = record { count = length t; items = t }

        bytes : length (concat_map encode xs) ≡ length xs * w
        bytes = length-encoded ser_func deserialize_func encode IsGood w sized writes reads xs good
