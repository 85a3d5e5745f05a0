-- ===== src/Utils/Table.antt =====
-- src/ssz_constants.c: the table of highest bits.
use c_ssz.Common.{
  ℕ, ◌+◌, ◌^◌, ◌<◌, ◌≡◌, refl, ap, arith, Option, none, some, Bool, true, false, Run, done, fault,
  hang,
}
use c_ssz.Common.{load, ◌==◌, ==_iff}
use c_ssz.Common.Bits.{all_below, all_below_lem}
use c_ssz.Utils.{highest_bit_table}

is_entry : ℕ → Run (Option ℕ) → Bool
is_entry k (done (some i)) = i == k
is_entry k (done none) = false
is_entry k fault = false
is_entry k hang = false

is_entry_lem : (k : ℕ) (m : Run (Option ℕ)) → is_entry k m ≡ true → m ≡ done (some k)
unfolding is_entry
is_entry_lem k (done (some i)) h = ap (λ (j : ℕ). done (some j)) ((==_iff i k).0 h)
is_entry_lem k (done none) h = ground arith
is_entry_lem k fault h = ground arith
is_entry_lem k hang h = ground arith

table_checked :
    all_below 8 (λ k. all_below (2 ^ k) (λ b. is_entry k (load highest_bit_table (b + 2 ^ k))))
    ≡ true
unfolding all_below is_entry load highest_bit_table
table_checked = refl

-- For a byte whose highest set bit stands at place `k`, with any bits `b` below it, the table's entry is `k`.
pub highest_bit_table_lem :
    (k b : ℕ) → k < 8 → b < 2 ^ k → load highest_bit_table (b + 2 ^ k) ≡ done (some k)
highest_bit_table_lem k b hk hb =
    is_entry_lem k _ (all_below_lem (2 ^ k) _ b (all_below_lem 8 _ k table_checked hk) hb)
