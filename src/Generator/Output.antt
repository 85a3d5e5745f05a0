-- ===== src/Generator/Output.antt =====
-- include/ssz_generator.h, the macros that serialize a field of a container, and a container. The arguments of a
-- macro that name a field are the field's value; `sizeof` of a field is a parameter where it is told.
use c_ssz.Common.{
  ℕ, zero, suc, ◌+◌, ◌*◌, ◌/◌, ◌^◌, List, [], ◌∷◌, ◌++◌, some, Bool, Run, done, ◌>>=◌, take, drop,
  length,
}
use c_ssz.Common.{load, memcpy, if◌then◌else◌, ltb, ◌-◌, sz, u32, u64}
use c_ssz.Types.{
  SszError, success, error_serialization, is_success, bits_per_byte, byte_size_of_uint32,
}
use c_ssz.Serialize.Uints.{serialize_uint32}
use c_ssz.Serialize.Bitfields.{serialize_bitvector, serialize_bitlist}
use c_ssz.Generator.{SerializeFn, Writer, write_with, and_then, of_written}

-- SERIALIZE_BASIC_FIELD and SERIALIZE_CONTAINER_FIELD: `ser_func` with the address of the field.
unfoldable pub serialize_basic_field : {A : Type 0} → A → ℕ → (A → SerializeFn) → Writer
serialize_basic_field field field_size ser_func = write_with field_size (ser_func field)

unfoldable pub serialize_container_field : {A : Type 0} → A → (A → SerializeFn) → ℕ → Writer
serialize_container_field field container_ser_func field_size =
    write_with field_size (container_ser_func field)

-- SERIALIZE_LIST_CONTAINER_FIELD.
unfoldable pub serialize_list_container_field : {A : Type 0} → ℕ → A → (A → SerializeFn) → Writer
serialize_list_container_field size field container_ser_func =
    write_with size (container_ser_func field)

-- SERIALIZE_VECTOR_FIELD: the quotient of the sizes is the length of the array.
unfoldable pub serialize_vector_field :
    {A : Type 0} → List A → ℕ → (List A → ℕ → SerializeFn) → Writer
serialize_vector_field field field_size ser_func =
    write_with field_size (ser_func field (length field))

-- SERIALIZE_VECTOR_ARRAY_FIELD, with `left` rows to go from row `i`; `cell_size` is the size of an element.
unfoldable pub serialize_vector_array_field :
    {A : Type 0} → List (List A) → ℕ → ℕ → (List A → ℕ → SerializeFn) → ℕ → ℕ → Writer
serialize_vector_array_field field element_size cell_size ser_func zero i out_buf offset =
    done (success, out_buf, offset)
serialize_vector_array_field field element_size cell_size ser_func (suc left) i out_buf offset = do
  row ← load field i
  and_then (write_with element_size (ser_func row (element_size / cell_size)))
      (serialize_vector_array_field field element_size cell_size ser_func left (i + 1)) out_buf
      offset

-- SERIALIZE_BITVECTOR_FIELD.
unfoldable pub serialize_bitvector_field : List Bool → ℕ → Writer
serialize_bitvector_field field bits =
    write_with (sz (bits + 7) / bits_per_byte)
      (λ buf size. serialize_bitvector (some field) bits (some buf) (some size) >>= of_written)

-- SERIALIZE_BITLIST_FIELD, for a field with its `length` and its `data`.
unfoldable pub serialize_bitlist_field : ℕ → List Bool → Writer
serialize_bitlist_field count bits =
    write_with (sz (count / bits_per_byte + 1))
      (λ buf size. serialize_bitlist (some bits) count (some buf) (some size) >>= of_written)

-- SERIALIZE_OFFSET_FIELD: `base` grows by the size of the field that the offset is for.
unfoldable pub serialize_offset_field : ℕ → ℕ → List ℕ → ℕ → Run (SszError × List ℕ × ℕ × ℕ)
serialize_offset_field base field_size out_buf offset = do
  (err, out_buf', offset') ←
      write_with byte_size_of_uint32
        (λ buf size. serialize_uint32 (some (u32 base)) (some buf) (some size) >>= of_written)
        out_buf offset
  if is_success err
      then done (success, out_buf', offset', u64 (base + field_size))
      else done (err, out_buf', offset', base)

-- SERIALIZE_LIST_FIELD: the elements as they stand in memory, `bytes`.
unfoldable pub serialize_list_field : List ℕ → ℕ → ℕ → Writer
serialize_list_field bytes count element_size out_buf offset = do
  let tmp_size = sz (count * element_size)
  rest ← memcpy (drop offset out_buf) 0 bytes tmp_size
  done (success, take offset out_buf ++ rest, u64 (offset + tmp_size))

-- CONTAINER_FIELDS, the statements that a container's macro is given.
unfoldable pub serialize_fields : List Writer → Writer
serialize_fields [] out_buf offset = done (success, out_buf, offset)
serialize_fields (field ∷ fields) out_buf offset =
    and_then field (serialize_fields fields) out_buf offset

-- DEFINE_SERIALIZE_CONTAINER: what `out_size` points to is not read.
unfoldable pub serialize_container : List Writer → SerializeFn
serialize_container fields out_buf out_size = do
  (err, out_buf', offset) ← serialize_fields fields out_buf 0
  if is_success err
      then (if ltb (2 ^ 64 - 1) offset
          then done (error_serialization, out_buf', out_size)
          else done (success, out_buf', offset))
      else done (err, out_buf', out_size)
