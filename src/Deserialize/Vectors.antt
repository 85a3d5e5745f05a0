-- ===== src/Deserialize/Vectors.antt =====
-- src/ssz_deserialize.c, `ssz_deserialize_vector_uint8` to `ssz_deserialize_vector_bool`, and the loops that
-- they share with the lists.
pub mod Loops
pub mod Decode
use c_ssz.Common.{ℕ, zero, suc, ◌+◌, ◌*◌, List, ◌++◌, Option, none, some, Bool, not}
use c_ssz.Common.{Run, done, ◌>>=◌, load, store, memcpy, take, drop, ◌==◌, if◌then◌else◌, sz}
use c_ssz.Types.{SszError, success, error_deserialization, is_success}
use c_ssz.Host.{Endian}
use c_ssz.Deserialize.{unless_null}
use c_ssz.Deserialize.Uints.{deserialize_uint16, deserialize_uint32, deserialize_uint64}
use c_ssz.Deserialize.Uints.{deserialize_uint128, deserialize_uint256, bool_of_byte}

-- What a call left in `out_elements[i]`.
unfoldable pub put_back : List ℕ → ℕ → Option ℕ → Run (List ℕ)
unfolding store
put_back out i none = done out
put_back out i (some v) = store out i v

-- `for (i …) { ret = read(buffer + (i * w), w, &out_elements[i]); if (ret != SSZ_SUCCESS) return ret; }`
unfoldable pub read_loop :
    ℕ
    → (Option (List ℕ) → ℕ → Option ℕ → Run (SszError × Option ℕ))
    → List ℕ
    → ℕ
    → ℕ
    → List ℕ
    → Run (SszError × Option (List ℕ))
unfolding load put_back
read_loop w read buffer zero i out = done (success, some out)
read_loop w read buffer (suc left) i out = do
  old ← load out i
  (ret, new) ← read (some (drop (sz (i * w)) buffer)) w (some old)
  out' ← put_back out i new
  let rest = read_loop w read buffer left (i + 1) out'
  if is_success ret then rest else done (ret, some out')

-- What a call left behind `out_elements + at`.
unfoldable pub rejoin : List ℕ → ℕ → Option (List ℕ) → List ℕ
rejoin out at none = out
rejoin out at (some new) = take at out ++ new

-- The same loop for the wide widths, whose elements are bytes in memory.
unfoldable pub read_wide_loop :
    ℕ
    → (Option (List ℕ) → ℕ → Option (List ℕ) → Run (SszError × Option (List ℕ)))
    → List ℕ
    → ℕ
    → ℕ
    → List ℕ
    → Run (SszError × Option (List ℕ))
unfolding rejoin
read_wide_loop w read buffer zero i out = done (success, some out)
read_wide_loop w read buffer (suc left) i out = do
  (ret, new) ← read (some (drop (sz (i * w)) buffer)) w (some (drop (sz (i * w)) out))
  let out' = rejoin out (sz (i * w)) new
  let rest = read_wide_loop w read buffer left (i + 1) out'
  if is_success ret then rest else done (ret, some out')

unfoldable pub read_bool_loop : List ℕ → ℕ → ℕ → List Bool → Run (SszError × Option (List Bool))
unfolding load store bool_of_byte
read_bool_loop buffer zero i out = done (success, some out)
read_bool_loop buffer (suc left) i out = do
  b ← load buffer i
  elim (bool_of_byte b) [
    | none ↦ done (error_deserialization, some out)
    | some v ↦ (do out' ← store out i v; read_bool_loop buffer left (i + 1) out')
  ]

unfoldable pub deserialize_vector_uint8 :
    Option (List ℕ) → ℕ → ℕ → Option (List ℕ) → Run (SszError × Option (List ℕ))
unfolding memcpy
deserialize_vector_uint8 buffer buffer_size element_count out_elements =
    unless_null buffer out_elements λ bytes old.
      if element_count == 0
      then done (error_deserialization, some old)
      else let needed = sz (element_count * 1) in
        if not (buffer_size == needed)
        then done (error_deserialization, some old)
        else (do out ← memcpy old 0 bytes needed; done (success, some out))

unfoldable pub deserialize_vector_uint16 :
    Option (List ℕ) → ℕ → ℕ → Option (List ℕ) → Run (SszError × Option (List ℕ))
unfolding read_loop deserialize_uint16
deserialize_vector_uint16 buffer buffer_size element_count out_elements =
    unless_null buffer out_elements λ bytes old.
      if element_count == 0
      then done (error_deserialization, some old)
      else let needed = sz (element_count * 2) in
        if not (buffer_size == needed)
        then done (error_deserialization, some old)
        else read_loop 2 deserialize_uint16 bytes element_count 0 old

unfoldable pub deserialize_vector_uint32 :
    Option (List ℕ) → ℕ → ℕ → Option (List ℕ) → Run (SszError × Option (List ℕ))
unfolding read_loop deserialize_uint32
deserialize_vector_uint32 buffer buffer_size element_count out_elements =
    unless_null buffer out_elements λ bytes old.
      if element_count == 0
      then done (error_deserialization, some old)
      else let needed = sz (element_count * 4) in
        if not (buffer_size == needed)
        then done (error_deserialization, some old)
        else read_loop 4 deserialize_uint32 bytes element_count 0 old

unfoldable pub deserialize_vector_uint64 :
    Option (List ℕ) → ℕ → ℕ → Option (List ℕ) → Run (SszError × Option (List ℕ))
unfolding read_loop deserialize_uint64
deserialize_vector_uint64 buffer buffer_size element_count out_elements =
    unless_null buffer out_elements λ bytes old.
      if element_count == 0
      then done (error_deserialization, some old)
      else let needed = sz (element_count * 8) in
        if not (buffer_size == needed)
        then done (error_deserialization, some old)
        else read_loop 8 deserialize_uint64 bytes element_count 0 old

unfoldable pub deserialize_vector_uint128 :
    Endian → Option (List ℕ) → ℕ → ℕ → Option (List ℕ) → Run (SszError × Option (List ℕ))
unfolding read_wide_loop deserialize_uint128
deserialize_vector_uint128 e buffer buffer_size element_count out_elements =
    unless_null buffer out_elements λ bytes old.
      if element_count == 0
      then done (error_deserialization, some old)
      else let needed = sz (element_count * 16) in
        if not (buffer_size == needed)
        then done (error_deserialization, some old)
        else read_wide_loop 16 (deserialize_uint128 e) bytes element_count 0 old

unfoldable pub deserialize_vector_uint256 :
    Endian → Option (List ℕ) → ℕ → ℕ → Option (List ℕ) → Run (SszError × Option (List ℕ))
unfolding read_wide_loop deserialize_uint256
deserialize_vector_uint256 e buffer buffer_size element_count out_elements =
    unless_null buffer out_elements λ bytes old.
      if element_count == 0
      then done (error_deserialization, some old)
      else let needed = sz (element_count * 32) in
        if not (buffer_size == needed)
        then done (error_deserialization, some old)
        else read_wide_loop 32 (deserialize_uint256 e) bytes element_count 0 old

unfoldable pub deserialize_vector_bool :
    Option (List ℕ) → ℕ → ℕ → Option (List Bool) → Run (SszError × Option (List Bool))
unfolding read_bool_loop
deserialize_vector_bool buffer buffer_size element_count out_elements =
    unless_null buffer out_elements λ bytes old.
      if element_count == 0
      then done (error_deserialization, some old)
      else let needed = element_count in
        if not (buffer_size == needed)
        then done (error_deserialization, some old)
        else read_bool_loop bytes element_count 0 old
