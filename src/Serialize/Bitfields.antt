-- ===== src/Serialize/Bitfields.antt =====
-- src/ssz_serialize.c, `ssz_serialize_bitvector` and `ssz_serialize_bitlist`. A `bool` array is a list of
-- Booleans; `bit_ptr` is an index into it.
pub mod Encode
pub mod Bitlist
pub mod Bitvector
use c_ssz.Common.{ℕ, zero, suc, ◌+◌, ◌*◌, ◌/◌, ◌%◌, bit_or, List, [], ◌∷◌, Option, Bool}
use c_ssz.Common.{
  Run, done, ◌>>=◌, load, loads, store, ltb, leb, ◌==◌, if◌then◌else◌, u8, sz, ◌<<<◌,
}
use c_ssz.Types.{Written}
use c_ssz.Serialize.{unless_null, rejected, finish}
use c_ssz.Serialize.Uints.{bit}

-- `byte |= b << k; byte |= b' << (k + 1); …` on a `uint8_t`. The full bytes of a bitvector are one
-- expression of this shape, read from left to right.
unfoldable pub or_into : ℕ → ℕ → List Bool → ℕ
or_into byte k [] = byte
or_into byte k (b ∷ bs) = or_into (u8 (bit_or byte (bit b <<< k))) (k + 1) bs

-- The loop over full bytes: eight bits are read at `bit_ptr` for each.
unfoldable pub full_bytes_loop : List Bool → ℕ → ℕ → ℕ → List ℕ → Run (List ℕ)
full_bytes_loop bits zero bit_ptr out_ptr out = done out
full_bytes_loop bits (suc left) bit_ptr out_ptr out = do
  octet ← loads bits bit_ptr 8
  out' ← store out out_ptr (or_into 0 0 octet)
  full_bytes_loop bits left (bit_ptr + 8) (out_ptr + 1) out'

-- The full bytes, and then a byte for the remaining bits if there are any.
unfoldable pub pack_bitvector : List Bool → ℕ → List ℕ → Run (List ℕ)
pack_bitvector bits num_bits out =
    let full_bytes = num_bits / 8 in
    let remainder_bits = num_bits % 8 in
    do
      out' ← full_bytes_loop bits full_bytes 0 0 out
      if ltb 0 remainder_bits
          then (do
            rest ← loads bits (full_bytes * 8) remainder_bits
            store out' full_bytes (or_into 0 0 rest))
          else done out'

unfoldable pub serialize_bitvector :
    Option (List Bool) → ℕ → Option (List ℕ) → Option ℕ → Run Written
serialize_bitvector bits num_bits out_buf out_size =
    unless_null bits out_buf out_size λ bs buf size.
      if num_bits == 0
      then rejected buf size
      else let byte_count = sz (num_bits + 7) / 8 in
        if ltb size byte_count
        then rejected buf size
        else do buf' ← pack_bitvector bs num_bits buf; finish buf' byte_count

-- The inner loop for a byte that the bits do not fill: it breaks at `start + k >= num_bits`.
unfoldable pub partial_byte_loop : List Bool → ℕ → ℕ → ℕ → ℕ → ℕ → Run ℕ
unfolding load
partial_byte_loop bits num_bits start zero k byte = done byte
partial_byte_loop bits num_bits start (suc left) k byte =
    let rest = (do
      b ← load bits (start + k)
      partial_byte_loop bits num_bits start left (k + 1) (u8 (bit_or byte (bit b <<< k)))) in
    if leb num_bits (start + k) then done byte else rest

-- One byte of a bitlist before the delimiter: the bits from `start` on. All bits before `start` have
-- been read, so `bit_ptr` stands there.
unfoldable pub bitlist_byte : List Bool → ℕ → ℕ → Run ℕ
bitlist_byte bits num_bits start =
    if leb (start + 8) num_bits
    then (do octet ← loads bits start 8; done (or_into 0 0 octet))
    else partial_byte_loop bits num_bits start 8 0 0

unfoldable pub bitlist_loop : List Bool → ℕ → ℕ → ℕ → List ℕ → Run (List ℕ)
bitlist_loop bits num_bits zero j out = done out
bitlist_loop bits num_bits (suc left) j out = do
  byte ← bitlist_byte bits num_bits (j * 8)
  out' ← store out j (if j == num_bits / 8 then u8 (bit_or byte (1 <<< (num_bits % 8))) else byte)
  bitlist_loop bits num_bits left (j + 1) out'

unfoldable pub serialize_bitlist : Option (List Bool) → ℕ → Option (List ℕ) → Option ℕ → Run Written
serialize_bitlist bits num_bits out_buf out_size = unless_null bits out_buf out_size λ bs buf size.
    let total_bits = sz (num_bits + 1) in
    let byte_count = sz (total_bits + 7) / 8 in
    if ltb size byte_count
    then rejected buf size
    else do buf' ← bitlist_loop bs num_bits byte_count 0 buf; finish buf' byte_count
