-- ===== src/Deserialize/Uints/Decode.antt =====
-- The integer deserializers read the little-endian value of exactly as many bytes as the width has.
use c_ssz.Common.{ℕ, suc, ◌+◌, ◌*◌, ◌%◌, ◌^◌, ◌≤◌, ◌<◌, ◌≡◌, refl, ap, ◌∙◌, arith, bit_or}
use c_ssz.Common.{List, [], ◌∷◌, ◌++◌, some, length, drop, All, IsByte, IsByte}
use c_ssz.Common.{Run, done, loads, loads_lem, stores-front, u16, ◌<<<◌}
use native.Mathlib.Nat.{pow-le-pow_right, mul-lt-mul_of_pos_right, one-le-pow, mod-eq_of_lt}
use native.Mathlib.Nat.{le_trans, lt_of_lt_of_le}
use native.Mathlib.Numerals.{towards_suc}
use c_ssz.Common.Bits.{bit_or_above}
use c_ssz.Types.{SszError, success}
use c_ssz.Common.{Option}
use c_ssz.Host.{Endian, le_value, host_order, length-host_order}
use c_ssz.Serialize.Uints.Encode.{copy_wide_lem}
use c_ssz.Serialize.Uints.{copy_wide}
use c_ssz.Deserialize.Uints.{or_bytes, deserialize_uint8, deserialize_uint16, deserialize_uint32}
use c_ssz.Deserialize.Uints.{deserialize_uint64, deserialize_uint128, deserialize_uint256}

or_pair : (b0 b1 : ℕ) → b0 < 256 → b1 < 256 → u16 (bit_or b0 (b1 <<< 8)) ≡ le_value (b0 ∷ b1 ∷ [])
unfolding le_value
or_pair b0 b1 h0 h1 = omega (arith, bit_or_above 8 b0 b1 (omega arith))

shift_byte : (s : ℕ) → 2 ^ (s + 8) ≡ 256 * 2 ^ s
shift_byte s = simp towards_suc (omega arith)

byte_fits : (b s : ℕ) → b < 256 → b * 2 ^ s < 2 ^ (s + 8)
byte_fits b s h = rw (shift_byte s) (mul-lt-mul_of_pos_right h (one-le-pow s 2 (omega arith)))

-- Bytes joined by `|` are a little-endian number, as long as the width holds them.
or_bytes_lem :
    (m : ℕ) (bs : List ℕ) (val s : ℕ)
    → val < 2 ^ s
    → 2 ^ (s + 8 * length bs) ≤ m
    → All IsByte bs
    → or_bytes (λ n. n % m) val s bs ≡ val + 2 ^ s * le_value bs
unfolding or_bytes le_value
or_bytes_lem m [] val s lo hi h = omega arith
or_bytes_lem m (b ∷ bs) val s lo hi (hb, hbs) = rw joined (
    or_bytes_lem m bs (val + b * 2 ^ s) (s + 8) (omega (arith, shift_byte s, scaled))
      (rw (ap (λ (n : ℕ). 2 ^ n) same_width) hi) hbs
    ∙ omega (arith, ap (λ (t : ℕ). t * le_value bs) (shift_byte s)))
  where
    same_width : s + 8 + 8 * length bs ≡ s + 8 * suc (length bs)
    same_width = omega arith

    scaled : b * 2 ^ s + 2 ^ s ≤ 256 * 2 ^ s
    scaled = grind arith

    cut : b * 2 ^ s < m
    cut =
        lt_of_lt_of_le (byte_fits b s hb)
          (le_trans (pow-le-pow_right (omega arith) (omega arith)) hi)

    joined : bit_or val ((b <<< s) % m) ≡ val + b * 2 ^ s
    joined = rw (mod-eq_of_lt cut) (bit_or_above s val b lo)

-- A wide copy in the other direction.
pub copy_wide-front :
    (e : Endian) (w : ℕ) (bs post old : List ℕ)
    → length bs ≡ w
    → w ≤ length old
    → copy_wide e w (bs ++ post) old ≡ done (host_order e bs ++ drop w old)
copy_wide-front e w bs post old n fits =
    copy_wide_lem e w bs post old n
    ∙ stores-front old (host_order e bs) (omega (arith, length-host_order e bs))
    ∙ rw (length-host_order e bs, n)

module _ (bs post : List ℕ) (bytes : All IsByte bs) where
  -- Whatever stands behind the first `n` bytes is not read.
  front : (n : ℕ) → length bs ≡ n → loads (bs ++ post) 0 n ≡ done bs
  front n e = rw (← e) (loads_lem [] bs post 0 refl)

  pub deserialize_uint32_lem :
      (old : ℕ)
      → length bs ≡ 4
      → deserialize_uint32 (some (bs ++ post)) 4 (some old) ≡ done (success, some (le_value bs))
  unfolding deserialize_uint32
  deserialize_uint32_lem old e = rw (front 4 e) (
      ap (λ (v : ℕ). done (success, some v))
        (or_bytes_lem (2 ^ 32) bs 0 0 (omega arith) (rw e (omega arith)) bytes ∙ omega arith))

  pub deserialize_uint64_lem :
      (old : ℕ)
      → length bs ≡ 8
      → deserialize_uint64 (some (bs ++ post)) 8 (some old) ≡ done (success, some (le_value bs))
  unfolding deserialize_uint64
  deserialize_uint64_lem old e = rw (front 8 e) (
      ap (λ (v : ℕ). done (success, some v))
        (or_bytes_lem (2 ^ 64) bs 0 0 (omega arith) (rw e (omega arith)) bytes ∙ omega arith))

deserialize_uint128_lem :
    (e : Endian) (bs post old : List ℕ)
    → length bs ≡ 16
    → 16 ≤ length old
    → deserialize_uint128 e (some (bs ++ post)) 16 (some old)
      ≡ done (success, some (host_order e bs ++ drop 16 old))
unfolding deserialize_uint128
deserialize_uint128_lem e bs post old n fits = rw (copy_wide-front e 16 bs post old n fits)

deserialize_uint256_lem :
    (e : Endian) (bs post old : List ℕ)
    → length bs ≡ 32
    → 32 ≤ length old
    → deserialize_uint256 e (some (bs ++ post)) 32 (some old)
      ≡ done (success, some (host_order e bs ++ drop 32 old))
unfolding deserialize_uint256
deserialize_uint256_lem e bs post old n fits = rw (copy_wide-front e 32 bs post old n fits)

-- `read` takes exactly the first `w` bytes for their little-endian value.
pub record Reader (w : ℕ) (read : Option (List ℕ) → ℕ → Option ℕ → Run (SszError × Option ℕ))
    : Type 0 where
  pub reads :
      (bs post : List ℕ) (old : ℕ)
      → length bs ≡ w
      → All IsByte bs
      → read (some (bs ++ post)) w (some old) ≡ done (success, some (le_value bs))

-- The same for a wide integer, whose bytes go to memory in the host's order.
pub record WideReader (e : Endian) (w : ℕ)
    (read : Option (List ℕ) → ℕ → Option (List ℕ) → Run (SszError × Option (List ℕ))) : Type 0 where
  pub reads_wide :
      (bs post old : List ℕ)
      → length bs ≡ w
      → w ≤ length old
      → read (some (bs ++ post)) w (some old) ≡ done (success, some (host_order e bs ++ drop w old))

deserialize_uint8_lem :
    (bs post : List ℕ) (old : ℕ)
    → length bs ≡ 1
    → All IsByte bs
    → deserialize_uint8 (some (bs ++ post)) 1 (some old) ≡ done (success, some (le_value bs))
unfolding deserialize_uint8 le_value
deserialize_uint8_lem [] post old n bytes = absurd (omega arith)
deserialize_uint8_lem (b ∷ []) post old n bytes = ground arith
deserialize_uint8_lem (b ∷ b' ∷ bs) post old n bytes = absurd (omega arith)

deserialize_uint16_lem :
    (bs post : List ℕ) (old : ℕ)
    → length bs ≡ 2
    → All IsByte bs
    → deserialize_uint16 (some (bs ++ post)) 2 (some old) ≡ done (success, some (le_value bs))
unfolding deserialize_uint16
deserialize_uint16_lem [] post old n bytes = absurd (omega arith)
deserialize_uint16_lem (b ∷ []) post old n bytes = absurd (omega arith)
deserialize_uint16_lem (b ∷ b' ∷ []) post old n (h, (h', _)) = rw (or_pair b b' h h')
deserialize_uint16_lem (b ∷ b' ∷ b'' ∷ bs) post old n bytes = absurd (omega arith)

pub uint8-Reader : Reader 1 deserialize_uint8
uint8-Reader = record { reads = deserialize_uint8_lem }

pub uint16-Reader : Reader 2 deserialize_uint16
uint16-Reader = record { reads = deserialize_uint16_lem }

pub uint32-Reader : Reader 4 deserialize_uint32
uint32-Reader = record { reads = λ bs post old n bytes. deserialize_uint32_lem bs post bytes old n }

pub uint64-Reader : Reader 8 deserialize_uint64
uint64-Reader = record { reads = λ bs post old n bytes. deserialize_uint64_lem bs post bytes old n }

pub uint128-WideReader : (e : Endian) → WideReader e 16 (deserialize_uint128 e)
uint128-WideReader e = record { reads_wide = deserialize_uint128_lem e }

pub uint256-WideReader : (e : Endian) → WideReader e 32 (deserialize_uint256 e)
uint256-WideReader e = record { reads_wide = deserialize_uint256_lem e }
