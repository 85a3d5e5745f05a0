-- ===== src/Generator/Input.antt =====
-- include/ssz_generator.h, the macros that deserialize a field of a container, and a container. `malloc`
-- is a parameter: it is told a size in bytes and gives cells of the type that they are used as.
use c_ssz.Common.{ℕ, ◌+◌, ◌*◌, ◌/◌, List, [], ◌∷◌, Option, some, none, Bool, Run, done, ◌>>=◌, drop}
use c_ssz.Common.{if◌then◌else◌, sz, u64}
use c_ssz.Types.{SszError, success, error_deserialization, is_success, bits_per_byte}
use c_ssz.Deserialize.Uints.{deserialize_uint32}
use c_ssz.Deserialize.Bitfields.{deserialize_bitvector, deserialize_bitlist}
use c_ssz.Generator.{DeserializeFn, Reading, read_with, of_read, and_read}

-- DESERIALIZE_BASIC_FIELD, for a field of `size` bytes.
unfoldable pub deserialize_basic_field : {A : Type 0} → ℕ → DeserializeFn A → Reading A
deserialize_basic_field size deserialize_func = read_with size deserialize_func

-- DESERIALIZE_CONTAINER_FIELD.
unfoldable pub deserialize_container_field : {A : Type 0} → DeserializeFn A → ℕ → Reading A
deserialize_container_field container_deser_func field_size =
    read_with field_size container_deser_func

-- DESERIALIZE_VECTOR_FIELD, for an array of `count` elements and of `size` bytes.
unfoldable pub deserialize_vector_field : {A : Type 0} → ℕ → ℕ → (ℕ → DeserializeFn A) → Reading A
deserialize_vector_field size count deserialize_func = read_with size (deserialize_func count)

-- DESERIALIZE_VECTOR_ARRAY_FIELD: the rows are read as one array.
unfoldable pub deserialize_vector_array_field :
    {A : Type 0} → ℕ → ℕ → (ℕ → DeserializeFn A) → Reading A
deserialize_vector_array_field element_size count deserialize_func =
    read_with (sz (element_size * count)) (deserialize_func (sz (element_size * count)))

-- DESERIALIZE_BITVECTOR_FIELD.
unfoldable pub deserialize_bitvector_field : ℕ → Reading (List Bool)
deserialize_bitvector_field bits =
    read_with (sz (bits + 7) / bits_per_byte)
      (λ bytes size old. deserialize_bitvector (some bytes) size bits (some old) >>= of_read)

-- DESERIALIZE_OFFSET_FIELD.
unfoldable pub deserialize_offset_field : Reading ℕ
deserialize_offset_field =
    read_with 4 (λ bytes size old. deserialize_uint32 (some bytes) size (some old) >>= of_read)

-- A field with its `length` and its `data`: the cells behind the pointer, none behind a null or a freed one.
pub record Sequence (A : Type 0) : Type 0 where
  pub count : ℕ
  pub items : List A

-- `malloc` and the call, `free` where it fails, and the field's new length; `filled` is what the call leaves.
unfoldable pub fill :
    {A : Type 0} → Sequence A → SszError × Option (List A) × Option ℕ → SszError × Sequence A
fill seq (err, some items, some actual) =
    if is_success err
    then (success, record { count = actual; items = items })
    else (error_deserialization, record seq { items = [] })
fill seq (err, some items, none) = (error_deserialization, record seq { items = [] })
fill seq (err, none, actual) = (error_deserialization, record seq { items = [] })

-- DESERIALIZE_BITLIST_FIELD: `offset_start` moves behind the field where it succeeds.
unfoldable pub deserialize_bitlist_field :
    (ℕ → Option (List Bool)) → ℕ → ℕ → Reading (Sequence Bool)
deserialize_bitlist_field malloc field_size max_bits input offset_start seq =
    elim (malloc max_bits) [
      | none ↦ done (error_deserialization, offset_start, record seq { items = [] })
      | some cells ↦ do
        result ←
            deserialize_bitlist (some (drop offset_start input)) field_size max_bits (some cells)
              (some 0)
        let (err, new) = fill seq result
        done (err, (if is_success err then u64 (offset_start + field_size) else offset_start), new)
    ]

-- DESERIALIZE_LIST_FIELD, with a function of the library: it leaves the offset as it is.
unfoldable pub deserialize_list_field :
    {A : Type 0}
    → (ℕ → Option (List A))
    → ℕ
    → ℕ
    → (Option (List ℕ)
        → ℕ
        → ℕ
        → Option (List A)
        → Option ℕ
        → Run (SszError × Option (List A) × Option ℕ))
    → Reading (Sequence A)
deserialize_list_field malloc list_size max_length deserialize_func input offset_start seq =
    elim (malloc list_size) [
      | none ↦ done (error_deserialization, offset_start, record seq { items = [] })
      | some cells ↦ do
        result ←
            deserialize_func (some (drop offset_start input)) list_size max_length (some cells)
              (some 0)
        let (err, new) = fill seq result
        done (err, offset_start, new)
    ]

-- DESERIALIZE_LIST_CONTAINER_FIELD.
unfoldable pub deserialize_list_container_field : {A : Type 0} → ℕ → DeserializeFn A → Reading A
deserialize_list_container_field size deserialize_func input offset_start old = do
  (err, new) ← deserialize_func (drop offset_start input) size old
  if is_success err
      then done (success, offset_start, new)
      else done (error_deserialization, offset_start, new)

-- CONTAINER_FIELDS, the statements that a container's macro is given.
unfoldable pub deserialize_fields : {O : Type 0} → List (Reading O) → Reading O
deserialize_fields [] input offset obj = done (success, offset, obj)
deserialize_fields (field ∷ fields) input offset obj =
    and_read field (deserialize_fields fields) input offset obj

-- A statement on a field of the container.
unfoldable pub on_field : {O A : Type 0} → (O → A) → (A → O → O) → Reading A → Reading O
on_field get set statement input offset obj = do
  (err, offset', new) ← statement input offset (get obj)
  done (err, offset', set new obj)

-- DEFINE_DESERIALIZE_CONTAINER: `data_size` is not read.
unfoldable pub deserialize_container : {O : Type 0} → List (Reading O) → DeserializeFn O
deserialize_container fields input data_size obj = do
  (err, offset, obj') ← deserialize_fields fields input 0 obj
  done (err, obj')
