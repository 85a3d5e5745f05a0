-- ===== src/Serialize/Uints.antt =====
-- src/ssz_serialize.c, `ssz_serialize_uint8` to `ssz_serialize_uint256` and `ssz_serialize_boolean`.
-- An integer of up to 64 bits is read through a typed pointer; those of 128 and 256 bits are bytes in
-- memory, in the host's order.
pub mod Encode
use c_ssz.Common.{
  ℕ, zero, suc, ◌+◌, ◌-◌, List, [], ◌∷◌, Option, none, some, Bool, true, false, ◌||◌,
}
use c_ssz.Common.{
  Run, done, fault, ◌>>=◌, load, store, stores, memcpy, ltb, if◌then◌else◌, u8, ◌>>>◌,
}
use c_ssz.Types.{error_serialization, Written, byte_size_of_uint8, byte_size_of_uint16}
use c_ssz.Types.{byte_size_of_uint32, byte_size_of_uint64, byte_size_of_uint128}
use c_ssz.Types.{byte_size_of_uint256, byte_size_of_bool}
use c_ssz.Host.{Endian, endian_check}
use c_ssz.Serialize.{unless_null, rejected, finish}

-- The bytes that a value of each width is taken apart into, in the order of the assignments.
abbrev pub bytes16 : ℕ → List ℕ
bytes16 val = u8 val ∷ u8 (val >>> 8) ∷ []

abbrev pub bytes32 : ℕ → List ℕ
bytes32 val = u8 val ∷ u8 (val >>> 8) ∷ u8 (val >>> 16) ∷ u8 (val >>> 24) ∷ []

abbrev pub bytes64 : ℕ → List ℕ
bytes64 val =
    u8 val
    ∷ u8 (val >>> 8)
    ∷ u8 (val >>> 16)
    ∷ u8 (val >>> 24)
    ∷ u8 (val >>> 32)
    ∷ u8 (val >>> 40)
    ∷ u8 (val >>> 48)
    ∷ u8 (val >>> 56)
    ∷ []

-- `for (i …; i < w; i++) dst[i] = src[w - 1 - i];`, where `dst` and `src` start at `base`.
unfoldable pub swap_loop : ℕ → List ℕ → ℕ → ℕ → ℕ → List ℕ → Run (List ℕ)
unfolding load store
swap_loop w src base zero i dst = done dst
swap_loop w src base (suc left) i dst = do
  b ← load src (base + (w - 1 - i))
  dst' ← store dst (base + i) b
  swap_loop w src base left (i + 1) dst'

-- The copy of `w` bytes that the two wide widths make, by the host's byte order.
unfoldable pub copy_wide : Endian → ℕ → List ℕ → List ℕ → Run (List ℕ)
unfolding endian_check memcpy swap_loop
copy_wide e w src buf = if endian_check e then memcpy buf 0 src w else swap_loop w src 0 w 0 buf

unfoldable pub serialize_uint8 : Option ℕ → Option (List ℕ) → Option ℕ → Run Written
unfolding store
serialize_uint8 value out_buf out_size = unless_null value out_buf out_size λ val buf size.
    if ltb size byte_size_of_uint8
    then rejected buf size
    else do buf' ← store buf 0 val; finish buf' byte_size_of_uint8

unfoldable pub serialize_uint16 : Option ℕ → Option (List ℕ) → Option ℕ → Run Written
unfolding stores
serialize_uint16 value out_buf out_size = unless_null value out_buf out_size λ val buf size.
    if ltb size byte_size_of_uint16
    then rejected buf size
    else do buf' ← stores buf 0 (bytes16 val); finish buf' byte_size_of_uint16

unfoldable pub serialize_uint32 : Option ℕ → Option (List ℕ) → Option ℕ → Run Written
unfolding stores
serialize_uint32 value out_buf out_size = unless_null value out_buf out_size λ val buf size.
    if ltb size byte_size_of_uint32
    then rejected buf size
    else do buf' ← stores buf 0 (bytes32 val); finish buf' byte_size_of_uint32

unfoldable pub serialize_uint64 : Option ℕ → Option (List ℕ) → Option ℕ → Run Written
unfolding stores
serialize_uint64 value out_buf out_size = unless_null value out_buf out_size λ val buf size.
    if ltb size byte_size_of_uint64
    then rejected buf size
    else do buf' ← stores buf 0 (bytes64 val); finish buf' byte_size_of_uint64

unfoldable pub serialize_uint128 :
    Endian → Option (List ℕ) → Option (List ℕ) → Option ℕ → Run Written
unfolding copy_wide
serialize_uint128 e value out_buf out_size = unless_null value out_buf out_size λ src buf size.
    if ltb size byte_size_of_uint128
    then rejected buf size
    else do buf' ← copy_wide e 16 src buf; finish buf' byte_size_of_uint128

unfoldable pub serialize_uint256 :
    Endian → Option (List ℕ) → Option (List ℕ) → Option ℕ → Run Written
unfolding copy_wide
serialize_uint256 e value out_buf out_size = unless_null value out_buf out_size λ src buf size.
    if ltb size byte_size_of_uint256
    then rejected buf size
    else do buf' ← copy_wide e 32 src buf; finish buf' byte_size_of_uint256

-- `(uint8_t)b`
abbrev pub bit : Bool → ℕ
bit true = 1
bit false = 0

-- `*value`, a fault at the null pointer.
abbrev pub deref {ℓ} : {A : Type ℓ} → Option A → Run A
deref none = fault
deref (some a) = done a

-- `value` itself is not compared with NULL.
unfoldable pub serialize_boolean : Option Bool → Option (List ℕ) → Option ℕ → Run Written
unfolding store
serialize_boolean value none out_size = done (error_serialization, none, out_size)
serialize_boolean value (some buf) none = done (error_serialization, some buf, none)
serialize_boolean value (some buf) (some size) =
    if ltb size byte_size_of_bool
    then rejected buf size
    else do b ← deref value; buf' ← store buf 0 (bit b); finish buf' byte_size_of_bool
