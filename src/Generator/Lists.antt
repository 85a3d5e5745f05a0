-- ===== src/Generator/Lists.antt =====
-- include/ssz_generator.h, DEFINE_SERIALIZE_LIST and DEFINE_DESERIALIZE_LIST: lists of objects of a fixed
-- size, four at a time.
use c_ssz.Common.{
  ℕ, zero, suc, ◌+◌, ◌*◌, ◌/◌, ◌%◌, ◌^◌, List, [], Option, some, none, not, Run, done, ◌>>=◌, drop,
}
use c_ssz.Common.{load, store, if◌then◌else◌, ◌==◌, ltb, ◌-◌, sz}
use c_ssz.Types.{
  SszError, success, error_serialization, error_deserialization, is_success,
  bytes_per_length_offset,
}
use c_ssz.Generator.{SerializeFn, Writer, write_with, and_then, DeserializeFn, Reading, and_read}
use c_ssz.Generator.Input.{Sequence}

module _ {A : Type 0} (ser_func : A → SerializeFn) where
  -- `tmp_size = 0; err = ser_func(&src[k], …)` and what follows up to `offset += tmp_size`.
  unfoldable pub write_element : List A → ℕ → Writer
  write_element src k out_buf offset = do x ← load src k; write_with 0 (ser_func x) out_buf offset

  -- The loop over groups of four, with `left` groups to go from `src` on.
  unfoldable pub write_groups : ℕ → List A → Writer
  write_groups zero src out_buf offset = done (success, out_buf, offset)
  write_groups (suc left) src out_buf offset =
      and_then (write_element src 0)
        (and_then (write_element src 1) (
          and_then (write_element src 2) (
            and_then (write_element src 3) (write_groups left (drop bytes_per_length_offset src)))))
        out_buf offset

  -- The loop over the rest, from index `i` of where `src` stands then.
  unfoldable pub write_rest : ℕ → ℕ → List A → Writer
  write_rest zero i src out_buf offset = done (success, out_buf, offset)
  write_rest (suc left) i src out_buf offset =
      and_then (write_element src i) (write_rest left (i + 1) src) out_buf offset

  -- `none` is a null `list->data`.
  unfoldable pub serialize_list : ℕ → Option (List A) → SerializeFn
  serialize_list count none out_buf out_size = done (success, out_buf, 0)
  serialize_list count (some items) out_buf out_size =
      if count == 0 then done (success, out_buf, 0) else do
        (err, out_buf', offset) ←
            and_then (write_groups (count / bytes_per_length_offset) items)
              (write_rest (count % bytes_per_length_offset) 0
                (drop (count / bytes_per_length_offset * bytes_per_length_offset) items))
              out_buf 0
        if is_success err
            then (if ltb (2 ^ 64 - 1) offset
                then done (error_serialization, out_buf', out_size)
                else done (success, out_buf', offset))
            else done (err, out_buf', out_size)

module _ {A : Type 0} (element_size : ℕ) (deserialize_func : DeserializeFn A) where
  -- One call, `p += ElementSize` and `dest++`; the object is the index of `dest` with the cells.
  unfoldable pub read_element : Reading (ℕ × List A)
  read_element input p (dest, items) = do
    old ← load items dest
    (err, new) ← deserialize_func (drop p input) element_size old
    items' ← store items dest new
    if is_success err
        then done (success, sz (p + element_size), (dest + 1, items'))
        else done (error_deserialization, p, (dest, items'))

  unfoldable pub read_groups : ℕ → Reading (ℕ × List A)
  read_groups zero input p state = done (success, p, state)
  read_groups (suc left) input p state =
      and_read read_element
        (and_read read_element (and_read read_element (and_read read_element (read_groups left))))
        input p state

  unfoldable pub read_rest : ℕ → Reading (ℕ × List A)
  read_rest zero input p state = done (success, p, state)
  read_rest (suc left) input p state = and_read read_element (read_rest left) input p state

  -- From `list->data = malloc(…)` on. After a failure the cells are freed.
  unfoldable pub read_list : ℕ → Option (List A) → List ℕ → Run (SszError × Sequence A)
  read_list num none input = done (error_deserialization, record { count = num; items = [] })
  read_list num (some cells) input = do
    (err, p, (dest, items)) ←
        and_read (read_groups (num / bytes_per_length_offset))
          (read_rest (num % bytes_per_length_offset)) input 0 (0, cells)
    if is_success err
        then done (success, record { count = num; items = items })
        else done (error_deserialization, record { count = num; items = [] })

  unfoldable pub deserialize_list : (ℕ → Option (List A)) → DeserializeFn (Sequence A)
  deserialize_list malloc input data_size list =
      if not (data_size % element_size == 0)
      then done (error_deserialization, list)
      else let num = data_size / element_size in
        if num == 0
        then done (success, record { count = 0; items = [] })
        else read_list num (malloc num) input
