-- ===== src/Generator/Codec.antt =====
-- What statements of a container write and read, and that this carries over from one statement to
-- their sequence, and to the container.
use c_ssz.Common.{
  ℕ, ◌+◌, ◌-◌, ◌^◌, ◌<◌, ◌≡◌, refl, sym, ap, ap₂, ◌∙◌, arith, List, [], ◌∷◌, ◌++◌, append_assoc,
}
use c_ssz.Common.{
  length, take, drop, length-append, take-append, drop-append, take-append-drop, length-take_of_le,
  length-drop, concat_map,
}
use c_ssz.Common.{done, not-lt→ltb}
use native.Mathlib.Nat.{mod-eq_of_lt}
use c_ssz.Types.{success}
use c_ssz.Generator.{
  SerializeFn, Writer, write_with, and_then, skip, DeserializeFn, Reading, read_with, and_read,
}
use c_ssz.Generator.Output.{serialize_fields, serialize_container}
use c_ssz.Generator.Input.{deserialize_fields, deserialize_container, on_field}

-- The serializer, told the size `told`, puts the bytes over as many cells at the front of the buffer.
abbrev pub Serializes : SerializeFn → ℕ → List ℕ → Type 0
Serializes ser_func told bs =
    (old post : List ℕ)
    → length old ≡ length bs
    → ser_func (old ++ post) told ≡ done (success, bs ++ post, length bs)

-- The statement puts the bytes at the offset, and moves the offset behind them.
abbrev pub Writes : Writer → List ℕ → Type 0
Writes statement bs =
    (pre old post : List ℕ)
    → length old ≡ length bs
    → length pre + length bs < 2 ^ 64
    → statement (pre ++ (old ++ post)) (length pre)
      ≡ done (success, pre ++ (bs ++ post), length pre + length bs)

-- The deserializer, told the length of the bytes, reads an object from them, whatever stands behind.
abbrev pub Deserializes : {A : Type 0} → DeserializeFn A → List ℕ → A → A → Type 0
Deserializes deserialize_func bs old new =
    (post : List ℕ) → deserialize_func (bs ++ post) (length bs) old ≡ done (success, new)

abbrev pub Reads : {A : Type 0} → Reading A → List ℕ → A → A → Type 0
Reads statement bs old new =
    (pre post : List ℕ)
    → length pre + length bs < 2 ^ 64
    → statement (pre ++ (bs ++ post)) (length pre) old ≡ done (success, length pre + length bs, new)

pub write_with-Writes :
    (told : ℕ) (ser_func : SerializeFn) (bs : List ℕ)
    → Serializes ser_func told bs
    → Writes (write_with told ser_func) bs
unfolding write_with
write_with-Writes told ser_func bs serializes pre old post e small =
    rw (drop-append pre (old ++ post), serializes old post e)
      (rw (take-append pre (old ++ post), mod-eq_of_lt small) refl)

pub and_then-Writes :
    (first second : Writer) (bs cs : List ℕ)
    → Writes first bs
    → Writes second cs
    → Writes (and_then first second) (bs ++ cs)
unfolding and_then
and_then-Writes first second bs cs writes writes' pre old post e small = rw split (
    rw
      (writes pre (take (length bs) old) (drop (length bs) old ++ post)
        (length-take_of_le (length bs) old (omega (arith, e, length-append bs cs)))
        (omega (arith, length-append bs cs)))
      (ap₂ (λ t (n : ℕ). second t n) (sym (append_assoc pre bs (drop (length bs) old ++ post)))
          (sym (length-append pre bs))
        ∙ writes' (pre ++ bs) (drop (length bs) old) post
            (omega (arith, length-drop (length bs) old, e, length-append bs cs))
            (omega (arith, length-append pre bs, length-append bs cs))
        ∙ ap₂ (λ t (n : ℕ). done (success, t, n))
            (append_assoc pre bs (cs ++ post) ∙ ap (λ t. pre ++ t) (sym (append_assoc bs cs post)))
            (omega (arith, length-append pre bs, length-append bs cs))))
  where
    split : pre ++ (old ++ post) ≡ pre ++ (take (length bs) old ++ (drop (length bs) old ++ post))
    split =
        ap (λ t. pre ++ t)
          (ap (λ t. t ++ post) (sym (take-append-drop (length bs) old))
            ∙ append_assoc (take (length bs) old) (drop (length bs) old) post)

pub read_with-Reads :
    {A : Type 0} (deserialize_func : DeserializeFn A) (bs : List ℕ) (old new : A)
    → Deserializes deserialize_func bs old new
    → Reads (read_with (length bs) deserialize_func) bs old new
unfolding read_with
read_with-Reads deserialize_func bs old new deserializes pre post small =
    rw (drop-append pre (bs ++ post), deserializes post) (rw (mod-eq_of_lt small) refl)

pub and_read-Reads :
    {A : Type 0} (first second : Reading A) (bs cs : List ℕ) (old mid new : A)
    → Reads first bs old mid
    → Reads second cs mid new
    → Reads (and_read first second) (bs ++ cs) old new
unfolding and_read
and_read-Reads first second bs cs old mid new reads reads' pre post small =
    rw (append_assoc bs cs post) (
      rw (reads pre (cs ++ post) (omega (arith, length-append bs cs))) (
        ap₂ (λ t (n : ℕ). second t n mid) (sym (append_assoc pre bs (cs ++ post)))
          (sym (length-append pre bs))
        ∙ reads' (pre ++ bs) post (omega (arith, length-append pre bs, length-append bs cs))
        ∙ ap (λ (n : ℕ). done (success, n, new))
            (omega (arith, length-append pre bs, length-append bs cs))))

pub on_field-Reads :
    {O A : Type 0} (get : O → A) (set : A → O → O) (statement : Reading A) (bs : List ℕ) (obj : O)
    (new : A)
    → Reads statement bs (get obj) new
    → Reads (on_field get set statement) bs obj (set new obj)
unfolding on_field
on_field-Reads get set statement bs obj new reads pre post small = rw (reads pre post small)

pub skip-Writes : Writes skip []
skip-Writes pre [] post e small = ap (λ (n : ℕ). done (success, pre ++ post, n)) (omega arith)
skip-Writes pre (x ∷ old) post e small = absurd (omega arith)

-- Each statement writes its bytes.
abbrev pub AllWrites : List Writer → List (List ℕ) → Type 0
AllWrites [] [] = Unit {0}
AllWrites (field ∷ fields) (bs ∷ rest) = Writes field bs × AllWrites fields rest
AllWrites [] (bs ∷ rest) = ⊥
AllWrites (field ∷ fields) [] = ⊥

-- The statements read the bytes one after the other, and take the object from `old` to `new`.
abbrev pub AllReads : {O : Type 0} → List (Reading O) → List (List ℕ) → O → O → Type 0
AllReads [] [] old new = old ≡ new
AllReads {O} (field ∷ fields) (bs ∷ rest) old new =
    (mid : O) × Reads field bs old mid × AllReads fields rest mid new
AllReads [] (bs ∷ rest) old new = ⊥
AllReads (field ∷ fields) [] old new = ⊥

abbrev pub joined : List (List ℕ) → List ℕ
joined = concat_map (λ bs. bs)

pub serialize_fields-Writes :
    (fields : List Writer) (encodings : List (List ℕ))
    → AllWrites fields encodings
    → Writes (serialize_fields fields) (joined encodings)
unfolding serialize_fields
serialize_fields-Writes [] [] h = skip-Writes
serialize_fields-Writes (field ∷ fields) (bs ∷ rest) (writes, more) =
    and_then-Writes field (serialize_fields fields) bs (joined rest) writes
      (serialize_fields-Writes fields rest more)
serialize_fields-Writes [] (bs ∷ rest) h = absurd h
serialize_fields-Writes (field ∷ fields) [] h = absurd h

pub deserialize_fields-Reads :
    {O : Type 0} (fields : List (Reading O)) (encodings : List (List ℕ)) (old new : O)
    → AllReads fields encodings old new
    → Reads (deserialize_fields fields) (joined encodings) old new
unfolding deserialize_fields
deserialize_fields-Reads [] [] old new e =
    λ pre post small. ap₂ (λ (n : ℕ) o. done (success, n, o)) (omega arith) e
deserialize_fields-Reads (field ∷ fields) (bs ∷ rest) old new (mid, reads, more) =
    and_read-Reads field (deserialize_fields fields) bs (joined rest) old mid new reads
      (deserialize_fields-Reads fields rest mid new more)
deserialize_fields-Reads [] (bs ∷ rest) old new h = absurd h
deserialize_fields-Reads (field ∷ fields) [] old new h = absurd h

-- A container is written as its fields are, whatever size it is told.
pub serialize_container-Serializes :
    (fields : List Writer) (encodings : List (List ℕ)) (told : ℕ)
    → AllWrites fields encodings
    → length (joined encodings) < 2 ^ 64
    → Serializes (serialize_container fields) told (joined encodings)
unfolding serialize_container
serialize_container-Serializes fields encodings told h small old post e =
    rw (serialize_fields-Writes fields encodings h [] old post e (omega arith)) (
      rw (not-lt→ltb (2 ^ 64 - 1) (0 + length (joined encodings)) (omega arith))
        (ap (λ (n : ℕ). done (success, joined encodings ++ post, n)) (omega arith)))

pub deserialize_container-Deserializes :
    {O : Type 0} (fields : List (Reading O)) (encodings : List (List ℕ)) (old new : O)
    → AllReads fields encodings old new
    → length (joined encodings) < 2 ^ 64
    → Deserializes (deserialize_container fields) (joined encodings) old new
unfolding deserialize_container
deserialize_container-Deserializes fields encodings old new h small post =
    rw (deserialize_fields-Reads fields encodings old new h [] post (omega arith))
