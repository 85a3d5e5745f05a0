-- ===== src/Deserialize/Lists.antt =====
-- src/ssz_deserialize.c, `ssz_deserialize_list_uint8` to `ssz_deserialize_list_bool`.
pub mod Decode
use c_ssz.Common.{ℕ, ◌/◌, ◌%◌, List, Option, some, Bool, not}
use c_ssz.Common.{Run, done, ◌>>=◌, memcpy, ltb, ◌==◌, if◌then◌else◌}
use c_ssz.Types.{SszError, success, error_deserialization, is_success}
use c_ssz.Host.{Endian}
use c_ssz.Deserialize.{unless_null_counted}
use c_ssz.Deserialize.Uints.{deserialize_uint16, deserialize_uint32, deserialize_uint64}
use c_ssz.Deserialize.Uints.{deserialize_uint128, deserialize_uint256}
use c_ssz.Deserialize.Vectors.{read_loop, read_wide_loop, read_bool_loop}

-- `if (ret != SSZ_SUCCESS) return ret;` inside the loop, else `*out_actual_count = element_count;`.
unfoldable pub count_on_success {ℓ} :
    {A : Type ℓ} → ℕ → ℕ → SszError × Option A → Run (SszError × Option A × Option ℕ)
count_on_success element_count actual (ret, out) =
    if is_success ret then done (success, out, some element_count) else done (ret, out, some actual)

unfoldable pub deserialize_list_uint8 :
    Option (List ℕ)
    → ℕ
    → ℕ
    → Option (List ℕ)
    → Option ℕ
    → Run (SszError × Option (List ℕ) × Option ℕ)
unfolding memcpy
deserialize_list_uint8 buffer buffer_size max_length out_elements out_actual_count =
    unless_null_counted buffer out_elements out_actual_count λ bytes old actual.
      let element_count = buffer_size in
      if ltb max_length element_count
      then done (error_deserialization, some old, some actual)
      else do out ← memcpy old 0 bytes element_count; done (success, some out, some element_count)

unfoldable pub deserialize_list_uint16 :
    Option (List ℕ)
    → ℕ
    → ℕ
    → Option (List ℕ)
    → Option ℕ
    → Run (SszError × Option (List ℕ) × Option ℕ)
unfolding read_loop deserialize_uint16 count_on_success
deserialize_list_uint16 buffer buffer_size max_length out_elements out_actual_count =
    unless_null_counted buffer out_elements out_actual_count λ bytes old actual.
      if not (buffer_size % 2 == 0)
      then done (error_deserialization, some old, some actual)
      else let element_count = buffer_size / 2 in
        if ltb max_length element_count
        then done (error_deserialization, some old, some actual)
        else do
          result ← read_loop 2 deserialize_uint16 bytes element_count 0 old
          count_on_success element_count actual result

unfoldable pub deserialize_list_uint32 :
    Option (List ℕ)
    → ℕ
    → ℕ
    → Option (List ℕ)
    → Option ℕ
    → Run (SszError × Option (List ℕ) × Option ℕ)
unfolding read_loop deserialize_uint32 count_on_success
deserialize_list_uint32 buffer buffer_size max_length out_elements out_actual_count =
    unless_null_counted buffer out_elements out_actual_count λ bytes old actual.
      if not (buffer_size % 4 == 0)
      then done (error_deserialization, some old, some actual)
      else let element_count = buffer_size / 4 in
        if ltb max_length element_count
        then done (error_deserialization, some old, some actual)
        else do
          result ← read_loop 4 deserialize_uint32 bytes element_count 0 old
          count_on_success element_count actual result

unfoldable pub deserialize_list_uint64 :
    Option (List ℕ)
    → ℕ
    → ℕ
    → Option (List ℕ)
    → Option ℕ
    → Run (SszError × Option (List ℕ) × Option ℕ)
unfolding read_loop deserialize_uint64 count_on_success
deserialize_list_uint64 buffer buffer_size max_length out_elements out_actual_count =
    unless_null_counted buffer out_elements out_actual_count λ bytes old actual.
      if not (buffer_size % 8 == 0)
      then done (error_deserialization, some old, some actual)
      else let element_count = buffer_size / 8 in
        if ltb max_length element_count
        then done (error_deserialization, some old, some actual)
        else do
          result ← read_loop 8 deserialize_uint64 bytes element_count 0 old
          count_on_success element_count actual result

unfoldable pub deserialize_list_uint128 :
    Endian
    → Option (List ℕ)
    → ℕ
    → ℕ
    → Option (List ℕ)
    → Option ℕ
    → Run (SszError × Option (List ℕ) × Option ℕ)
unfolding read_wide_loop deserialize_uint128 count_on_success
deserialize_list_uint128 e buffer buffer_size max_length out_elements out_actual_count =
    unless_null_counted buffer out_elements out_actual_count λ bytes old actual.
      if not (buffer_size % 16 == 0)
      then done (error_deserialization, some old, some actual)
      else let element_count = buffer_size / 16 in
        if ltb max_length element_count
        then done (error_deserialization, some old, some actual)
        else do
          result ← read_wide_loop 16 (deserialize_uint128 e) bytes element_count 0 old
          count_on_success element_count actual result

unfoldable pub deserialize_list_uint256 :
    Endian
    → Option (List ℕ)
    → ℕ
    → ℕ
    → Option (List ℕ)
    → Option ℕ
    → Run (SszError × Option (List ℕ) × Option ℕ)
unfolding read_wide_loop deserialize_uint256 count_on_success
deserialize_list_uint256 e buffer buffer_size max_length out_elements out_actual_count =
    unless_null_counted buffer out_elements out_actual_count λ bytes old actual.
      if not (buffer_size % 32 == 0)
      then done (error_deserialization, some old, some actual)
      else let element_count = buffer_size / 32 in
        if ltb max_length element_count
        then done (error_deserialization, some old, some actual)
        else do
          result ← read_wide_loop 32 (deserialize_uint256 e) bytes element_count 0 old
          count_on_success element_count actual result

unfoldable pub deserialize_list_bool :
    Option (List ℕ)
    → ℕ
    → ℕ
    → Option (List Bool)
    → Option ℕ
    → Run (SszError × Option (List Bool) × Option ℕ)
unfolding read_bool_loop count_on_success
deserialize_list_bool buffer buffer_size max_length out_elements out_actual_count =
    unless_null_counted buffer out_elements out_actual_count λ bytes old actual.
      let element_count = buffer_size in
      if ltb max_length element_count
      then done (error_deserialization, some old, some actual)
      else do
        result ← read_bool_loop bytes element_count 0 old
        count_on_success element_count actual result
