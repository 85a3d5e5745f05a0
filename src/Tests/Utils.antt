-- ===== src/Tests/Utils.antt =====
-- The helpers at concrete data.
use c_ssz.Common.{ℕ, ◌+◌, ◌^◌, ◌≤◌, ◌≡◌, arith, [], ◌∷◌, some, done, hang, load}
use c_ssz.Utils.{next_pow_of_two, pow_loop, highest_bit_table, is_zero}
use c_ssz.Utils.PowerOfTwo.{next_pow_of_two_least, pow_loop_endless}
use c_ssz.Utils.Table.{highest_bit_table_lem}
use c_ssz.Utils.Zero.{zeros, is_zero_lem}

next_pow_of_two_least_example :
    (k : ℕ) × (next_pow_of_two 100 ≡ done (2 ^ k))
    × (100 ≤ 2 ^ k)
    × ((j : ℕ) → 100 ≤ 2 ^ j → 2 ^ k ≤ 2 ^ j)
next_pow_of_two_least_example = next_pow_of_two_least 100 (omega arith)

pow_loop_endless_example : pow_loop 1000 (2 ^ 63 + 1) 1 ≡ hang
pow_loop_endless_example = pow_loop_endless 1000 (2 ^ 63 + 1) (omega arith)

highest_bit_table_lem_example : load highest_bit_table (5 + 2 ^ 6) ≡ done (some 6)
highest_bit_table_lem_example = highest_bit_table_lem 6 5 (omega arith) (omega arith)

is_zero_lem_example : is_zero (0 ∷ 0 ∷ 7 ∷ []) 2 ≡ done (zeros (0 ∷ 0 ∷ []))
is_zero_lem_example = is_zero_lem (0 ∷ 0 ∷ []) (7 ∷ [])
