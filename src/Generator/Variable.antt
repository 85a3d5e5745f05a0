-- ===== src/Generator/Variable.antt =====
-- include/ssz_generator.h, the macros for a list of objects of variable size: a table with the offset of
-- each object from the start of the table, and then the objects.
use c_ssz.Common.{
  ℕ, zero, suc, ◌+◌, ◌-◌, ◌*◌, ◌/◌, ◌^◌, List, [], Option, some, none, Run, done, ◌>>=◌, drop,
}
use c_ssz.Common.{load, loads, store, if◌then◌else◌, ◌==◌, ltb, sz, u32, u64}
use c_ssz.Types.{SszError, success, error_serialization, error_deserialization, is_success}
use c_ssz.Types.{bytes_per_length_offset, byte_size_of_uint32}
use c_ssz.Host.{Endian, host_order, le_value}
use c_ssz.Serialize.Uints.{serialize_uint32}
use c_ssz.Generator.{SerializeFn, Writer, write_with, of_written, DeserializeFn}
use c_ssz.Generator.Input.{Sequence}

-- `ssz_serialize_uint32(&v, out_buf + at, &tmp_size)` and the `return` where it fails.
unfoldable pub put_offset : ℕ → ℕ → List ℕ → Run (SszError × List ℕ)
put_offset v at out_buf = do
  (err, out_buf', after) ←
      write_with byte_size_of_uint32
        (λ buf size. serialize_uint32 (some v) (some buf) (some size) >>= of_written) out_buf at
  done (err, out_buf')

-- Zeros in the places `i`, `i + 1`, … of the table.
unfoldable pub clear_table : ℕ → ℕ → ℕ → List ℕ → Run (SszError × List ℕ)
clear_table table_start zero i out_buf = done (success, out_buf)
clear_table table_start (suc left) i out_buf = do
  (err, out_buf') ← put_offset 0 (sz (table_start + u32 (i * byte_size_of_uint32))) out_buf
  let rest = clear_table table_start left (i + 1) out_buf'
  if is_success err then rest else done (err, out_buf')

-- The same from the place `current_pos` on.
unfoldable pub clear_from : ℕ → ℕ → List ℕ → Run (SszError × List ℕ)
clear_from zero current_pos out_buf = done (success, out_buf)
clear_from (suc left) current_pos out_buf = do
  (err, out_buf') ← put_offset 0 current_pos out_buf
  let rest = clear_from left (sz (current_pos + byte_size_of_uint32)) out_buf'
  if is_success err then rest else done (err, out_buf')

module _ {A : Type 0} (container_ser_func : A → SerializeFn) where
  -- The loop over the objects: each is written at `cur_offset`, and its place in the table is filled.
  unfoldable pub write_objects : List A → ℕ → ℕ → ℕ → ℕ → List ℕ → Run (SszError × List ℕ × ℕ)
  write_objects items table_start zero i cur_offset out_buf = done (success, out_buf, cur_offset)
  write_objects items table_start (suc left) i cur_offset out_buf = do
    x ← load items i
    (err, out_buf', after) ← write_with 0 (container_ser_func x) out_buf cur_offset
    let fill_place = (do
      (err', out_buf'') ←
          put_offset (u32 (cur_offset + 2 ^ 64 - table_start))
            (sz (table_start + u32 (i * byte_size_of_uint32))) out_buf'
      let rest = write_objects items table_start left (i + 1) after out_buf''
      if is_success err' then rest else done (err', out_buf'', after))
    if is_success err then fill_place else done (err, out_buf', cur_offset)

  -- SERIALIZE_LIST_VARIABLE_CONTAINER_FIELD: `var_offset` moves behind the objects.
  unfoldable pub serialize_list_variable_container_field : ℕ → List A → Writer
  serialize_list_variable_container_field count items out_buf var_offset = do
    let num_elements = u32 count
    (err, out_buf') ← clear_table var_offset num_elements 0 out_buf
    let objects =
        write_objects items var_offset num_elements 0
          (sz (var_offset + u32 (num_elements * byte_size_of_uint32))) out_buf'
    if is_success err then objects else done (err, out_buf', var_offset)

  -- The loop of SERIALIZE_VARIABLE_FIELD_OFFSET over the objects, which go to a buffer of their own.
  unfoldable pub measure_objects :
      List A → ℕ → ℕ → ℕ → ℕ → List ℕ → List ℕ → Run (SszError × List ℕ × ℕ)
  measure_objects items table_start zero i cur_offset temp_buf out_buf =
      done (success, out_buf, cur_offset)
  measure_objects items table_start (suc left) i cur_offset temp_buf out_buf = do
    (err, out_buf') ←
        put_offset (u32 (cur_offset + 2 ^ 64 - table_start))
          (sz (table_start + u32 (i * byte_size_of_uint32))) out_buf
    let measure = (do
      x ← load items i
      (err', temp_buf', elem_size) ← container_ser_func x temp_buf 0
      let rest =
          measure_objects items table_start left (i + 1) (sz (cur_offset + elem_size)) temp_buf'
            out_buf'
      if is_success err' then rest else done (error_serialization, out_buf', cur_offset))
    if is_success err then measure else done (err, out_buf', cur_offset)

  -- From `malloc` to the end of SERIALIZE_VARIABLE_FIELD_OFFSET; the result has the new `base`.
  unfoldable pub measure_list :
      Option (List ℕ) → List A → ℕ → ℕ → ℕ → List ℕ → Run (SszError × List ℕ × ℕ)
  measure_list none items num_elements base allocated_size out_buf =
      done (error_serialization, out_buf, base)
  measure_list (some temp_buf) items num_elements base allocated_size out_buf = do
    (err, out_buf', cur_offset) ←
        measure_objects items base num_elements 0
          (sz (base + u32 (num_elements * byte_size_of_uint32))) temp_buf out_buf
    if is_success err
        then (if ltb (sz (base + allocated_size)) cur_offset
            then done (error_serialization, out_buf', base)
            else done (success, out_buf', cur_offset))
        else done (err, out_buf', base)

  -- The part of SERIALIZE_VARIABLE_FIELD_OFFSET behind the offset of the field itself.
  unfoldable pub reserve_list :
      (ℕ → Option (List ℕ)) → List A → ℕ → ℕ → ℕ → List ℕ → Run (SszError × List ℕ × ℕ)
  reserve_list malloc items num_elements base allocated_size out_buf =
      if num_elements == 0
      then done (success, out_buf, base)
      else if ltb allocated_size num_elements
      then done (error_serialization, out_buf, base)
      else do
        (err, out_buf') ← put_offset (u32 (num_elements * byte_size_of_uint32)) base out_buf
        let table = (do
          (err', out_buf'') ←
              clear_from (num_elements - 1) (sz (base + byte_size_of_uint32)) out_buf'
          if is_success err'
              then measure_list (malloc allocated_size) items num_elements base allocated_size
                  out_buf''
              else done (err', out_buf'', base))
        if is_success err then table else done (err, out_buf', base)

  -- SERIALIZE_VARIABLE_FIELD_OFFSET: the buffer, `fixed_offset` and `base` afterwards.
  unfoldable pub serialize_variable_field_offset :
      (ℕ → Option (List ℕ)) → ℕ → List A → ℕ → ℕ → List ℕ → ℕ → Run (SszError × List ℕ × ℕ × ℕ)
  serialize_variable_field_offset malloc count items base allocated_size out_buf fixed_offset = do
    (err, out_buf') ← put_offset (u32 base) fixed_offset out_buf
    let list = (do
      (err', out_buf'', base') ← reserve_list malloc items (u32 count) base allocated_size out_buf'
      done (err', out_buf'', u64 (fixed_offset + byte_size_of_uint32), base'))
    if is_success err then list else done (err, out_buf', fixed_offset, base)

-- `_offsets[i]`: four bytes at any address, read as the host stores a number.
unfoldable pub host_offset : Endian → List ℕ → ℕ → Run ℕ
host_offset e bytes i = do four ← loads bytes (i * 4) 4; done (le_value (host_order e four))

module _ {A : Type 0} (e : Endian) (deserialize_func : DeserializeFn A) where
  -- `_next_rel_offset`: the next entry of the table, or the size of the field behind the last one.
  unfoldable pub next_offset : List ℕ → ℕ → ℕ → ℕ → Run ℕ
  next_offset bytes field_size last_index i =
      if ltb i last_index then host_offset e bytes (i + 1) else done (u32 field_size)

  unfoldable pub read_objects : List ℕ → ℕ → ℕ → ℕ → ℕ → List A → Run (SszError × List A)
  read_objects bytes field_size last_index zero i items = done (success, items)
  read_objects bytes field_size last_index (suc left) i items = do
    elem_offset ← host_offset e bytes i
    next ← next_offset bytes field_size last_index i
    old ← load items i
    (err, new) ← deserialize_func (drop elem_offset bytes) (u32 (next + 2 ^ 32 - elem_offset)) old
    items' ← store items i new
    let rest = read_objects bytes field_size last_index left (i + 1) items'
    if is_success err then rest else done (error_deserialization, items')

  unfoldable pub read_variable_list : Option (List A) → List ℕ → ℕ → ℕ → Run (SszError × Sequence A)
  read_variable_list none bytes field_size num_elements =
      done (error_deserialization, record { count = num_elements; items = [] })
  read_variable_list (some cells) bytes field_size num_elements = do
    (err, items) ←
        read_objects bytes field_size (u32 (num_elements + 2 ^ 32 - 1)) num_elements 0 cells
    if is_success err
        then done (success, record { count = num_elements; items = items })
        else done (error_deserialization, record { count = num_elements; items = [] })

  -- DESERIALIZE_LIST_VARIABLE_CONTAINER_FIELD.
  unfoldable pub deserialize_list_variable_container_field :
      (ℕ → Option (List A)) → ℕ → ℕ → ℕ → List ℕ → Sequence A → Run (SszError × Sequence A)
  deserialize_list_variable_container_field malloc field_offset field_size max_length input seq = do
    first ← host_offset e (drop field_offset input) 0
    let num_elements = first / bytes_per_length_offset
    if ltb max_length num_elements
        then done (error_deserialization, seq)
        else read_variable_list (malloc num_elements) (drop field_offset input) field_size
            num_elements
