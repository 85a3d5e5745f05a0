-- ===== src/Serialize/Vectors.antt =====
-- src/ssz_serialize.c, `ssz_serialize_vector_uint8` to `ssz_serialize_vector_bool`, and the loops that they
-- share with the lists.
pub mod Loops
pub mod Encode
use c_ssz.Common.{ℕ, zero, suc, ◌+◌, ◌*◌, List, Option, Bool, not, ◌||◌}
use c_ssz.Common.{Run, done, ◌>>=◌, load, store, stores, memcpy, ltb, ◌==◌, if◌then◌else◌, sz}
use c_ssz.Types.{Written}
use c_ssz.Host.{Endian, endian_check, object_bytes}
use c_ssz.Utils.{check_max_offset}
use c_ssz.Serialize.{unless_null, rejected, finish}
use c_ssz.Serialize.Uints.{bytes16, bytes32, bytes64, bit, swap_loop}

-- `for (i …) { val = elements[i]; out_buf[i * w] = …; …; out_buf[i * w + w - 1] = …; }`
unfoldable pub put_loop : ℕ → (ℕ → List ℕ) → List ℕ → ℕ → ℕ → List ℕ → Run (List ℕ)
unfolding load stores
put_loop w bytes elements zero i buf = done buf
put_loop w bytes elements (suc left) i buf = do
  val ← load elements i
  buf' ← stores buf (sz (i * w)) (bytes val)
  put_loop w bytes elements left (i + 1) buf'

-- The copy of integers of `w` bytes, by the host's byte order.
unfoldable pub put_uints : Endian → ℕ → (ℕ → List ℕ) → List ℕ → ℕ → ℕ → List ℕ → Run (List ℕ)
unfolding endian_check object_bytes memcpy put_loop
put_uints e w bytes elements element_count total_bytes buf =
    if endian_check e
    then memcpy buf 0 (object_bytes e w elements) total_bytes
    else put_loop w bytes elements element_count 0 buf

-- The same for the wide widths, whose elements are bytes in memory.
unfoldable pub wide_loop : ℕ → List ℕ → ℕ → ℕ → List ℕ → Run (List ℕ)
unfolding swap_loop
wide_loop w elements zero i buf = done buf
wide_loop w elements (suc left) i buf = do
  buf' ← swap_loop w elements (sz (i * w)) w 0 buf
  wide_loop w elements left (i + 1) buf'

unfoldable pub put_wide : Endian → ℕ → List ℕ → ℕ → ℕ → List ℕ → Run (List ℕ)
unfolding endian_check memcpy wide_loop
put_wide e w elements element_count total_bytes buf =
    if endian_check e
    then memcpy buf 0 elements total_bytes
    else wide_loop w elements element_count 0 buf

-- `for (i …) out_buf[i] = (uint8_t)(elements[i]);`
unfoldable pub bool_loop : List Bool → ℕ → ℕ → List ℕ → Run (List ℕ)
unfolding load store
bool_loop elements zero i buf = done buf
bool_loop elements (suc left) i buf = do
  b ← load elements i
  buf' ← store buf i (bit b)
  bool_loop elements left (i + 1) buf'

unfoldable pub serialize_vector_uint8 :
    Option (List ℕ) → ℕ → Option (List ℕ) → Option ℕ → Run Written
unfolding memcpy check_max_offset
serialize_vector_uint8 elements element_count out_buf out_size =
    unless_null elements out_buf out_size λ xs buf size.
      if element_count == 0
      then rejected buf size
      else let total_bytes = element_count in
        if ltb size total_bytes || not (check_max_offset total_bytes)
        then rejected buf size
        else do buf' ← memcpy buf 0 xs total_bytes; finish buf' total_bytes

unfoldable pub serialize_vector_uint16 :
    Endian → Option (List ℕ) → ℕ → Option (List ℕ) → Option ℕ → Run Written
unfolding put_uints check_max_offset
serialize_vector_uint16 e elements element_count out_buf out_size =
    unless_null elements out_buf out_size λ xs buf size.
      if element_count == 0
      then rejected buf size
      else let total_bytes = sz (element_count * 2) in
        if ltb size total_bytes || not (check_max_offset total_bytes) then rejected buf size else do
          buf' ← put_uints e 2 (λ val. bytes16 val) xs element_count total_bytes buf
          finish buf' total_bytes

unfoldable pub serialize_vector_uint32 :
    Endian → Option (List ℕ) → ℕ → Option (List ℕ) → Option ℕ → Run Written
unfolding put_uints check_max_offset
serialize_vector_uint32 e elements element_count out_buf out_size =
    unless_null elements out_buf out_size λ xs buf size.
      if element_count == 0
      then rejected buf size
      else let total_bytes = sz (element_count * 4) in
        if ltb size total_bytes || not (check_max_offset total_bytes) then rejected buf size else do
          buf' ← put_uints e 4 (λ val. bytes32 val) xs element_count total_bytes buf
          finish buf' total_bytes

unfoldable pub serialize_vector_uint64 :
    Endian → Option (List ℕ) → ℕ → Option (List ℕ) → Option ℕ → Run Written
unfolding put_uints check_max_offset
serialize_vector_uint64 e elements element_count out_buf out_size =
    unless_null elements out_buf out_size λ xs buf size.
      if element_count == 0
      then rejected buf size
      else let total_bytes = sz (element_count * 8) in
        if ltb size total_bytes || not (check_max_offset total_bytes) then rejected buf size else do
          buf' ← put_uints e 8 (λ val. bytes64 val) xs element_count total_bytes buf
          finish buf' total_bytes

unfoldable pub serialize_vector_uint128 :
    Endian → Option (List ℕ) → ℕ → Option (List ℕ) → Option ℕ → Run Written
unfolding put_wide check_max_offset
serialize_vector_uint128 e elements element_count out_buf out_size =
    unless_null elements out_buf out_size λ xs buf size.
      if element_count == 0
      then rejected buf size
      else let total_bytes = sz (element_count * 16) in
        if ltb size total_bytes || not (check_max_offset total_bytes)
        then rejected buf size
        else do buf' ← put_wide e 16 xs element_count total_bytes buf; finish buf' total_bytes

unfoldable pub serialize_vector_uint256 :
    Endian → Option (List ℕ) → ℕ → Option (List ℕ) → Option ℕ → Run Written
unfolding put_wide check_max_offset
serialize_vector_uint256 e elements element_count out_buf out_size =
    unless_null elements out_buf out_size λ xs buf size.
      if element_count == 0
      then rejected buf size
      else let total_bytes = sz (element_count * 32) in
        if ltb size total_bytes || not (check_max_offset total_bytes)
        then rejected buf size
        else do buf' ← put_wide e 32 xs element_count total_bytes buf; finish buf' total_bytes

unfoldable pub serialize_vector_bool :
    Option (List Bool) → ℕ → Option (List ℕ) → Option ℕ → Run Written
unfolding bool_loop check_max_offset
serialize_vector_bool elements element_count out_buf out_size =
    unless_null elements out_buf out_size λ xs buf size.
      if element_count == 0
      then rejected buf size
      else let total_bytes = element_count in
        if ltb size total_bytes || not (check_max_offset total_bytes)
        then rejected buf size
        else do buf' ← bool_loop xs element_count 0 buf; finish buf' total_bytes
