-- ===== src/Deserialize/Bitfields.antt =====
-- src/ssz_deserialize.c, `ssz_deserialize_bitvector` and `ssz_deserialize_bitlist`.
pub mod Bits
pub mod Bitvector
pub mod Bitlist
use c_ssz.Common.{
  ℕ, zero, suc, ◌+◌, ◌-◌, ◌*◌, ◌/◌, ◌%◌, ◌^◌, bit_and, List, [], ◌∷◌, Option, none, some,
}
use c_ssz.Common.{Bool, true, false, not, Run, done, fault, ◌>>=◌, load, stores, memset, drop}
use c_ssz.Common.{ltb, ◌==◌, if◌then◌else◌, u8, sz, ◌<<<◌}
use c_ssz.Types.{SszError, success, error_deserialization}
use c_ssz.Utils.{is_zero, highest_bit_table}
use c_ssz.Deserialize.{unless_null, unless_null_counted}

-- `(byte & (1 << k)) != 0` for `n` bits from `k` on.
unfoldable pub test_bits : ℕ → ℕ → ℕ → List Bool
test_bits byte k zero = []
test_bits byte k (suc n) = not (bit_and byte (1 <<< k) == 0) ∷ test_bits byte (k + 1) n

-- The loop over full bytes: byte `i` gives the eight cells from `i * 8` on.
unfoldable pub unpack_loop : List ℕ → ℕ → ℕ → List Bool → Run (List Bool)
unpack_loop buffer zero i out = done out
unpack_loop buffer (suc left) i out = do
  byte ← load buffer i
  out' ← stores out (i * 8) (test_bits byte 0 8)
  unpack_loop buffer left (i + 1) out'

unfoldable pub deserialize_bitvector :
    Option (List ℕ) → ℕ → ℕ → Option (List Bool) → Run (SszError × Option (List Bool))
deserialize_bitvector buffer buffer_size num_bits out_bits =
    unless_null buffer out_bits λ bytes old.
      if num_bits == 0
      then done (error_deserialization, some old)
      else let needed = sz (num_bits + 7) / 8 in
        if not (needed == buffer_size)
        then done (error_deserialization, some old)
        else let full_bytes = num_bits / 8 in
          let remainder_bits = num_bits % 8 in
          do
            out ← unpack_loop bytes full_bytes 0 old
            if ltb 0 remainder_bits
                then (do
                  byte ← load bytes full_bytes
                  let mask = 255 - ((1 <<< remainder_bits) - 1)
                  if not (bit_and byte mask == 0)
                      then done (error_deserialization, some out)
                      else do
                        out' ← stores out (full_bytes * 8) (test_bits byte 0 remainder_bits)
                        done (success, some out'))
                else done (success, some out)

-- A result of `ssize_t` arithmetic that is not negative: from 2 ^ 63 on it overflows, which C leaves
-- undefined.
unfoldable pub ssize : ℕ → Run ℕ
ssize n = if ltb n (2 ^ 63) then done n else fault

-- `product + bit`, where `bit` is an entry of the table and its `none` is -1; a sum of -1 is `none`.
unfoldable pub add_entry : ℕ → Option ℕ → Run (Option ℕ)
add_entry product (some bit) = do boundary ← ssize (product + bit); done (some boundary)
add_entry zero none = done none
add_entry (suc k) none = done (some k)

-- `boundary = (byte_i * 8) + bit`
unfoldable pub boundary_of : ℕ → Option ℕ → Run (Option ℕ)
boundary_of byte_i entry = do product ← ssize (byte_i * 8); add_entry product entry

-- The search for the highest set bit, from the byte below `byte_end` down; `none` is -1.
unfoldable pub boundary_loop : List ℕ → ℕ → Run (Option ℕ)
boundary_loop buffer zero = done none
boundary_loop buffer (suc byte_i) = do
  let rest = boundary_loop buffer byte_i
  val ← load buffer byte_i
  if val == 0 then rest else do bit ← load highest_bit_table val; boundary_of byte_i bit

-- `(ssize_t)buffer_size - 1` is negative from 2 ^ 63 on, and overflows at 2 ^ 63.
unfoldable pub find_boundary : List ℕ → ℕ → Run (Option ℕ)
find_boundary buffer buffer_size =
    let search = boundary_loop buffer buffer_size in
    if ltb buffer_size (2 ^ 63) then search else if buffer_size == 2 ^ 63 then fault else done none

-- `is_zero(buffer + at, size - at)` where `at < size`, and true elsewhere.
unfoldable pub zero_from : List ℕ → ℕ → ℕ → Run Bool
zero_from buffer at size = if ltb at size then is_zero (drop at buffer) (size - at) else done true

-- From `*out_actual_bits = data_bits;` to the end.
unfoldable pub write_bits :
    List ℕ → ℕ → ℕ → List Bool → Run (SszError × Option (List Bool) × Option ℕ)
write_bits buffer max_bits data_bits out = do
  out' ←
      if ltb data_bits max_bits then memset out data_bits false (max_bits - data_bits) else done out
  let full_bytes = data_bits / 8
  let rem_bits = data_bits % 8
  out'' ← unpack_loop buffer full_bytes 0 out'
  if ltb 0 rem_bits
      then (do
        val ← load buffer full_bytes
        out''' ← stores out'' (full_bytes * 8) (test_bits val 0 rem_bits)
        done (success, some out''', some data_bits))
      else done (success, some out'', some data_bits)

-- From the test of the boundary on, for a boundary that is not negative.
unfoldable pub read_bitlist :
    List ℕ → ℕ → ℕ → ℕ → List Bool → ℕ → Run (SszError × Option (List Bool) × Option ℕ)
read_bitlist buffer buffer_size max_bits boundary out actual =
    let refused : Run (SszError × Option (List Bool) × Option ℕ) =
      done (error_deserialization, some out, some actual) in
    if ltb max_bits boundary then refused else do
      clear ← zero_from buffer (boundary / 8 + 1) buffer_size
      if not clear then refused else do
        let boundary_mask = u8 ((1 <<< (boundary % 8 + 1)) - 1)
        last ← load buffer (boundary / 8)
        if not (bit_and last (255 - boundary_mask) == 0)
            then refused
            else write_bits buffer max_bits boundary out

unfoldable pub deserialize_bitlist :
    Option (List ℕ)
    → ℕ
    → ℕ
    → Option (List Bool)
    → Option ℕ
    → Run (SszError × Option (List Bool) × Option ℕ)
deserialize_bitlist buffer buffer_size max_bits out_bits out_actual_bits =
    unless_null_counted buffer out_bits out_actual_bits λ bytes out actual.
      let refused : Run (SszError × Option (List Bool) × Option ℕ) =
        done (error_deserialization, some out, some actual) in
      if buffer_size == 0 then refused else do
        let max_bytes = sz (max_bits + 8) / 8
        clear ← zero_from bytes max_bytes buffer_size
        if not clear then refused else do
          let size = if ltb max_bytes buffer_size then max_bytes else buffer_size
          found ← find_boundary bytes size
          elim found [
            | none ↦ refused
            | some boundary ↦ read_bitlist bytes size max_bits boundary out actual
          ]
