-- ===== src/Serialize/Lists.antt =====
-- src/ssz_serialize.c, `ssz_serialize_list_uint8` to `ssz_serialize_list_bool`. An empty list takes no byte,
-- whatever the capacity.
pub mod Encode
use c_ssz.Common.{ℕ, ◌*◌, List, Option, Bool, not, ◌||◌}
use c_ssz.Common.{Run, ◌>>=◌, memcpy, ltb, ◌==◌, if◌then◌else◌, sz}
use c_ssz.Types.{Written}
use c_ssz.Host.{Endian}
use c_ssz.Utils.{check_max_offset}
use c_ssz.Serialize.{unless_null, rejected, finish}
use c_ssz.Serialize.Uints.{bytes16, bytes32, bytes64}
use c_ssz.Serialize.Vectors.{put_uints, put_wide, bool_loop}

unfoldable pub serialize_list_uint8 : Option (List ℕ) → ℕ → Option (List ℕ) → Option ℕ → Run Written
unfolding memcpy check_max_offset
serialize_list_uint8 elements element_count out_buf out_size =
    unless_null elements out_buf out_size λ xs buf size.
      if element_count == 0
      then finish buf 0
      else let total_bytes = element_count in
        if ltb size total_bytes || not (check_max_offset total_bytes)
        then rejected buf size
        else do buf' ← memcpy buf 0 xs total_bytes; finish buf' total_bytes

unfoldable pub serialize_list_uint16 :
    Endian → Option (List ℕ) → ℕ → Option (List ℕ) → Option ℕ → Run Written
unfolding put_uints check_max_offset
serialize_list_uint16 e elements element_count out_buf out_size =
    unless_null elements out_buf out_size λ xs buf size.
      if element_count == 0
      then finish buf 0
      else let total_bytes = sz (element_count * 2) in
        if ltb size total_bytes || not (check_max_offset total_bytes) then rejected buf size else do
          buf' ← put_uints e 2 (λ val. bytes16 val) xs element_count total_bytes buf
          finish buf' total_bytes

unfoldable pub serialize_list_uint32 :
    Endian → Option (List ℕ) → ℕ → Option (List ℕ) → Option ℕ → Run Written
unfolding put_uints check_max_offset
serialize_list_uint32 e elements element_count out_buf out_size =
    unless_null elements out_buf out_size λ xs buf size.
      if element_count == 0
      then finish buf 0
      else let total_bytes = sz (element_count * 4) in
        if ltb size total_bytes || not (check_max_offset total_bytes) then rejected buf size else do
          buf' ← put_uints e 4 (λ val. bytes32 val) xs element_count total_bytes buf
          finish buf' total_bytes

unfoldable pub serialize_list_uint64 :
    Endian → Option (List ℕ) → ℕ → Option (List ℕ) → Option ℕ → Run Written
unfolding put_uints check_max_offset
serialize_list_uint64 e elements element_count out_buf out_size =
    unless_null elements out_buf out_size λ xs buf size.
      if element_count == 0
      then finish buf 0
      else let total_bytes = sz (element_count * 8) in
        if ltb size total_bytes || not (check_max_offset total_bytes) then rejected buf size else do
          buf' ← put_uints e 8 (λ val. bytes64 val) xs element_count total_bytes buf
          finish buf' total_bytes

unfoldable pub serialize_list_uint128 :
    Endian → Option (List ℕ) → ℕ → Option (List ℕ) → Option ℕ → Run Written
unfolding put_wide check_max_offset
serialize_list_uint128 e elements element_count out_buf out_size =
    unless_null elements out_buf out_size λ xs buf size.
      if element_count == 0
      then finish buf 0
      else let total_bytes = sz (element_count * 16) in
        if ltb size total_bytes || not (check_max_offset total_bytes)
        then rejected buf size
        else do buf' ← put_wide e 16 xs element_count total_bytes buf; finish buf' total_bytes

unfoldable pub serialize_list_uint256 :
    Endian → Option (List ℕ) → ℕ → Option (List ℕ) → Option ℕ → Run Written
unfolding put_wide check_max_offset
serialize_list_uint256 e elements element_count out_buf out_size =
    unless_null elements out_buf out_size λ xs buf size.
      if element_count == 0
      then finish buf 0
      else let total_bytes = sz (element_count * 32) in
        if ltb size total_bytes || not (check_max_offset total_bytes)
        then rejected buf size
        else do buf' ← put_wide e 32 xs element_count total_bytes buf; finish buf' total_bytes

unfoldable pub serialize_list_bool :
    Option (List Bool) → ℕ → Option (List ℕ) → Option ℕ → Run Written
unfolding bool_loop check_max_offset
serialize_list_bool elements element_count out_buf out_size =
    unless_null elements out_buf out_size λ xs buf size.
      if element_count == 0
      then finish buf 0
      else let total_bytes = element_count in
        if ltb size total_bytes || not (check_max_offset total_bytes)
        then rejected buf size
        else do buf' ← bool_loop xs element_count 0 buf; finish buf' total_bytes
