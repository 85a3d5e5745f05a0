-- ===== src/Deserialize/Uints.antt =====
-- src/ssz_deserialize.c, `ssz_deserialize_uint8` to `ssz_deserialize_uint256` and
-- `ssz_deserialize_boolean`. `out_value` holds the old value, which a success replaces.
pub mod Decode
use c_ssz.Common.{ℕ, ◌+◌, bit_or, List, [], ◌∷◌, Option, none, some, Bool, true, false, not, ◌||◌}
use c_ssz.Common.{Run, done, ◌>>=◌, load, loads, ltb, ◌==◌, if◌then◌else◌, u16, u32, u64, ◌<<<◌}
use c_ssz.Types.{SszError, success, error_deserialization, byte_size_of_uint8, byte_size_of_uint16}
use c_ssz.Types.{byte_size_of_uint32, byte_size_of_uint64, byte_size_of_uint128}
use c_ssz.Types.{byte_size_of_uint256, byte_size_of_bool}
use c_ssz.Host.{Endian}
use c_ssz.Serialize.Uints.{copy_wide}
use c_ssz.Deserialize.{unless_null}

unfoldable pub deserialize_uint8 : Option (List ℕ) → ℕ → Option ℕ → Run (SszError × Option ℕ)
unfolding load
deserialize_uint8 buffer buffer_size out_value = unless_null buffer out_value λ bytes old.
    if not (buffer_size == byte_size_of_uint8)
    then done (error_deserialization, some old)
    else do b ← load bytes 0; done (success, some b)

unfoldable pub deserialize_uint16 : Option (List ℕ) → ℕ → Option ℕ → Run (SszError × Option ℕ)
unfolding load
deserialize_uint16 buffer buffer_size out_value = unless_null buffer out_value λ bytes old.
    if ltb buffer_size 2 || not (buffer_size == byte_size_of_uint16)
    then done (error_deserialization, some old)
    else do b0 ← load bytes 0; b1 ← load bytes 1; done (success, some (u16 (bit_or b0 (b1 <<< 8))))

-- `val |= (uint32_t)b << shift; …` for one byte after the other, eight bits apart; `wrap` cuts a
-- shifted byte to the width of `val`.
unfoldable pub or_bytes : (ℕ → ℕ) → ℕ → ℕ → List ℕ → ℕ
or_bytes wrap val shift [] = val
or_bytes wrap val shift (b ∷ bs) = or_bytes wrap (bit_or val (wrap (b <<< shift))) (shift + 8) bs

unfoldable pub deserialize_uint32 : Option (List ℕ) → ℕ → Option ℕ → Run (SszError × Option ℕ)
unfolding loads or_bytes
deserialize_uint32 buffer buffer_size out_value = unless_null buffer out_value λ bytes old.
    if not (buffer_size == byte_size_of_uint32)
    then done (error_deserialization, some old)
    else do bs ← loads bytes 0 4; done (success, some (or_bytes (λ n. u32 n) 0 0 bs))

unfoldable pub deserialize_uint64 : Option (List ℕ) → ℕ → Option ℕ → Run (SszError × Option ℕ)
unfolding loads or_bytes
deserialize_uint64 buffer buffer_size out_value = unless_null buffer out_value λ bytes old.
    if not (buffer_size == byte_size_of_uint64)
    then done (error_deserialization, some old)
    else do bs ← loads bytes 0 8; done (success, some (or_bytes (λ n. u64 n) 0 0 bs))

unfoldable pub deserialize_uint128 :
    Endian → Option (List ℕ) → ℕ → Option (List ℕ) → Run (SszError × Option (List ℕ))
unfolding copy_wide
deserialize_uint128 e buffer buffer_size out_value = unless_null buffer out_value λ bytes old.
    if not (buffer_size == byte_size_of_uint128)
    then done (error_deserialization, some old)
    else do dest ← copy_wide e 16 bytes old; done (success, some dest)

unfoldable pub deserialize_uint256 :
    Endian → Option (List ℕ) → ℕ → Option (List ℕ) → Run (SszError × Option (List ℕ))
unfolding copy_wide
deserialize_uint256 e buffer buffer_size out_value = unless_null buffer out_value λ bytes old.
    if not (buffer_size == byte_size_of_uint256)
    then done (error_deserialization, some old)
    else do dest ← copy_wide e 32 bytes old; done (success, some dest)

-- 0x00 is false, 0x01 is true, and no other byte is a Boolean.
unfoldable pub bool_of_byte : ℕ → Option Bool
bool_of_byte b = if b == 0x00 then some false else if b == 0x01 then some true else none

unfoldable pub deserialize_boolean :
    Option (List ℕ) → ℕ → Option Bool → Run (SszError × Option Bool)
unfolding load bool_of_byte
deserialize_boolean buffer buffer_size out_value = unless_null buffer out_value λ bytes old.
    if ltb buffer_size byte_size_of_bool then done (error_deserialization, some old) else do
      b ← load bytes 0
      elim (bool_of_byte b) [
        | some v ↦ done (success, some v)
        | none ↦ done (error_deserialization, some old)
      ]
