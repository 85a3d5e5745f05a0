-- ===== src/Utils.antt =====
-- src/ssz_utils.c and the table of src/ssz_constants.c.
pub mod Table
pub mod PowerOfTwo
pub mod Zero
use c_ssz.Common.{
  ℕ, zero, suc, ◌+◌, ◌-◌, ◌*◌, bit_and, Bool, true, false, List, ◌∷◌, ◌++◌, Option, none, some,
}
use c_ssz.Common.{Run, done, hang, ◌>>=◌, load, ltb, ◌==◌, if◌then◌else◌, u64, ◌<<<◌, replicate}
use c_ssz.Types.{bytes_per_length_offset, bits_per_byte}

-- The loop of `is_zero` from index `j`, with `left` bytes to go.
unfoldable pub is_zero_loop : List ℕ → ℕ → ℕ → Run Bool
unfolding load
is_zero_loop ptr zero j = done true
is_zero_loop ptr (suc left) j = do
  let rest = is_zero_loop ptr left (j + 1)
  b ← load ptr j
  if b == 0 then rest else done false

unfoldable pub is_zero : List ℕ → ℕ → Run Bool
unfolding is_zero_loop
is_zero ptr len = is_zero_loop ptr len 0

-- `while (p < value) p <<= 1;` on a `uint64_t`.
unfoldable pub pow_loop : ℕ → ℕ → ℕ → Run ℕ
pow_loop zero value p = hang
pow_loop (suc fuel) value p =
    let rest = pow_loop fuel value (u64 (p <<< 1)) in if ltb p value then rest else done p

-- The loop doubles `p` from 1, so 65 rounds reach any power of two below 2 ^ 64.
abbrev pub pow_fuel : ℕ
pow_fuel = 65

unfoldable pub next_pow_of_two : ℕ → Run ℕ
unfolding pow_loop
next_pow_of_two value =
    if value == 0
    then done 1
    else if bit_and value (value - 1) == 0
    then done value
    else pow_loop pow_fuel value 1

unfoldable pub check_max_offset : ℕ → Bool
check_max_offset offset = ltb offset (1 <<< (bytes_per_length_offset * bits_per_byte))

-- `none` is the entry -1.
unfoldable pub highest_bit_table : List (Option ℕ)
highest_bit_table =
    none
    ∷ (replicate 1 (some 0)
        ++ (replicate 2 (some 1)
            ++ (replicate 4 (some 2)
                ++ (replicate 8 (some 3)
                    ++ (replicate 16 (some 4)
                        ++ (replicate 32 (some 5)
                            ++ (replicate 64 (some 6) ++ replicate 128 (some 7))))))))
