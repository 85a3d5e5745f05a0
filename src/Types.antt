-- ===== src/Types.antt =====
-- include/ssz_types.h and include/ssz_constants.h: the error codes, the union's record, the sizes.
-- What a function leaves behind is its code with the objects that its pointers name.
use c_ssz.Common.{ℕ, List, Option, Run, Bool, true, false}

pub data SszError : Type 0 where
  success error_invalid_offset error_out_of_range : SszError
  error_deserialization error_serialization error_merkleization : SszError

abbrev pub is_success : SszError → Bool
is_success success = true
is_success _ = false

-- A serializer returns its code, and leaves the buffer and the size that `out_buf` and `out_size`
-- point to; `none` is the null pointer.
abbrev pub Written : Type 0
Written = SszError × Option (List ℕ) × Option ℕ

-- `ssz_union_data_serialize_fn` over data of type `D`: called with the data, the rest of the buffer
-- and the space in it.
abbrev pub UnionSerializeFn : Type 0 → Type 0
UnionSerializeFn D = D → List ℕ → ℕ → Run (SszError × List ℕ × ℕ)

-- `ssz_union_data_deserialize_fn`: called with the rest of the input, its size and `&out_obj`.
abbrev pub UnionDeserializeFn : Type 0 → Type 0
UnionDeserializeFn D = List ℕ → ℕ → Option D → Run (SszError × Option D)

pub record SszUnion (D : Type 0) : Type 0 where
  pub selector : ℕ
  pub payload : Option D
  pub serialize_fn : Option (UnionSerializeFn D)
  pub deserialize_fn : Option (UnionDeserializeFn D)

abbrev pub bytes_per_chunk : ℕ
bytes_per_chunk = 32

abbrev pub bytes_per_length_offset : ℕ
bytes_per_length_offset = 4

abbrev pub bits_per_byte : ℕ
bits_per_byte = 8

abbrev pub byte_size_of_uint8 : ℕ
byte_size_of_uint8 = 1

abbrev pub byte_size_of_uint16 : ℕ
byte_size_of_uint16 = 2

abbrev pub byte_size_of_uint32 : ℕ
byte_size_of_uint32 = 4

abbrev pub byte_size_of_uint64 : ℕ
byte_size_of_uint64 = 8

abbrev pub byte_size_of_uint128 : ℕ
byte_size_of_uint128 = 16

abbrev pub byte_size_of_uint256 : ℕ
byte_size_of_uint256 = 32

abbrev pub byte_size_of_bool : ℕ
byte_size_of_bool = 1

abbrev pub small_buffer_size : ℕ
small_buffer_size = 256
