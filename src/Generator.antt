-- ===== src/Generator.antt =====
-- include/ssz_generator.h, what its macros share. A macro's statement works on the locals of the function
-- that it is pasted into: the output buffer `out_buf` or the input `data`, and the offset into it. It is a
-- function of these, which returns a code with what it leaves; after a code other than success the pasted
-- `return` ends the enclosing function. `ssz_offset_t` has 64 bits, as `size_t` has.
pub mod Output
pub mod Input
pub mod Lists
pub mod Variable
pub mod Codec
pub mod Basic
pub mod Unrolled
pub mod Offsets
pub mod Objects
pub mod Reading
pub mod Elements
pub mod RoundTrip
use c_ssz.Common.{
  ℕ, ◌+◌, List, ◌++◌, Option, some, none, Run, done, fault, ◌>>=◌, take, drop, if◌then◌else◌, u64,
}
use c_ssz.Types.{SszError, success, error_serialization, error_deserialization, is_success, Written}

-- A serializer of an object, `ser_func` of the macros: called with the buffer from the offset on and the
-- size that it is told.
abbrev pub SerializeFn : Type 0
SerializeFn = List ℕ → ℕ → Run (SszError × List ℕ × ℕ)

-- A function of the library as such a serializer: its pointers are not null.
unfoldable pub of_written : Written → Run (SszError × List ℕ × ℕ)
of_written (err, some buf, some size) = done (err, buf, size)
of_written (err, some buf, none) = fault
of_written (err, none, size) = fault

-- A statement that writes: from the buffer and the offset to these afterwards.
abbrev pub Writer : Type 0
Writer = List ℕ → ℕ → Run (SszError × List ℕ × ℕ)

-- `err_local = ser_func(…, out_buf + offset, &tmp_size)`, the `return` of the macro and `offset += tmp_size`.
unfoldable pub write_with : ℕ → SerializeFn → Writer
write_with tmp_size ser_func out_buf offset = do
  (err, rest, written) ← ser_func (drop offset out_buf) tmp_size
  if is_success err
      then done (success, take offset out_buf ++ rest, u64 (offset + written))
      else done (error_serialization, take offset out_buf ++ rest, offset)

-- One statement after the other.
unfoldable pub and_then : Writer → Writer → Writer
and_then first second out_buf offset = do
  (err, out_buf', offset') ← first out_buf offset
  let rest = second out_buf' offset'
  if is_success err then rest else done (err, out_buf', offset')

abbrev pub skip : Writer
skip out_buf offset = done (success, out_buf, offset)

-- A deserializer of an object, `deserialize_func`: called with the input from the offset on, a size, and
-- the object behind the pointer.
abbrev pub DeserializeFn : Type 0 → Type 0
DeserializeFn A = List ℕ → ℕ → A → Run (SszError × A)

unfoldable pub of_read : {A : Type 0} → SszError × Option A → Run (SszError × A)
of_read (err, some a) = done (err, a)
of_read (err, none) = fault

-- A statement that reads into an object: from the offset and the object to these afterwards.
abbrev pub Reading : Type 0 → Type 0
Reading A = List ℕ → ℕ → A → Run (SszError × ℕ × A)

-- `err_local = deserialize_func(data + offset, size, …)`, the `return` of the macro and `offset += size`.
unfoldable pub read_with : {A : Type 0} → ℕ → DeserializeFn A → Reading A
read_with size deserialize_func input offset old = do
  (err, new) ← deserialize_func (drop offset input) size old
  if is_success err
      then done (success, u64 (offset + size), new)
      else done (error_deserialization, offset, new)

unfoldable pub and_read : {A : Type 0} → Reading A → Reading A → Reading A
and_read first second input offset old = do
  (err, offset', new) ← first input offset old
  let rest = second input offset' new
  if is_success err then rest else done (err, offset', new)

abbrev pub skip_read : {A : Type 0} → Reading A
skip_read input offset old = done (success, offset, old)
