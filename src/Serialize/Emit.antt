-- ===== src/Serialize/Emit.antt =====
-- What a serializer of fixed bytes promises: it refuses a buffer that is too small, and otherwise writes
-- the bytes at the front, leaves the cells behind them, and reports their number.
use c_ssz.Common.{ℕ, ◌≤◌, ◌<◌, ◌≡◌, ap, ◌∙◌, arith, List, ◌++◌, length, drop, Run, ◌>>=◌, stores}
use c_ssz.Common.{
  stores-front, ltb, if◌then◌else◌, Bool-cases, inl, inr, not, not-lt→ltb, lt→ltb, ◌||◌, ◌==◌, sz,
  ◌^◌,
}
use native.Mathlib.Nat.{mod-eq_of_lt}
use c_ssz.Utils.{check_max_offset}
use c_ssz.Types.{Written}
use c_ssz.Serialize.{rejected, finish}

unfoldable pub emit : List ℕ → List ℕ → ℕ → Run Written
emit bs buf size =
    if ltb size (length bs)
    then rejected buf size
    else finish (bs ++ drop (length bs) buf) (length bs)

pub emit_lem :
    (bs buf : List ℕ) (size n : ℕ)
    → length bs ≡ n
    → size ≤ length buf
    → (if ltb size n then rejected buf size else (stores buf 0 bs >>= λ q. finish q n))
      ≡ emit bs buf size
unfolding emit
emit_lem bs buf size n e h = rw (← e) (elim (Bool-cases (ltb size (length bs))) [
  | inl small ↦ rw small
  | inr fits ↦ rw fits (rw (stores-front buf bs (ground arith)))
])

-- The same for bytes that must also stay below the largest SSZ offset.
unfoldable pub emit_within : List ℕ → List ℕ → ℕ → Run Written
emit_within bs buf size =
    if ltb size (length bs) || not (check_max_offset (length bs))
    then rejected buf size
    else finish (bs ++ drop (length bs) buf) (length bs)

pub emit_within_lem :
    (bs buf : List ℕ) (size n : ℕ) (m : Run (List ℕ))
    → length bs ≡ n
    → m ≡ stores buf 0 bs
    → size ≤ length buf
    → (if ltb size n || not (check_max_offset n)
        then rejected buf size
        else (m >>= λ q. finish q n))
      ≡ emit_within bs buf size
unfolding emit_within
emit_within_lem bs buf size n m e em h =
    rw (← e, em)
      (elim (Bool-cases (ltb size (length bs))) [
        | inl small ↦ rw small
        | inr fits ↦ rw fits (rw (stores-front buf bs (ground arith)))
      ])

-- A sequence of no element is a case of its own.
pub sequence_lem :
    (empty : Run Written) (bs buf : List ℕ) (size count total : ℕ) (m : ℕ → Run (List ℕ))
    → length bs ≡ total
    → total < 2 ^ 64
    → m total ≡ stores buf 0 bs
    → size ≤ length buf
    → (if count == 0
        then empty
        else if ltb size (sz total) || not (check_max_offset (sz total))
        then rejected buf size
        else (m (sz total) >>= λ q. finish q (sz total)))
      ≡ (if count == 0 then empty else emit_within bs buf size)
sequence_lem empty bs buf size count total m e small em h =
    ap
      (λ (n : ℕ).
        if count == 0
        then empty
        else if ltb size n || not (check_max_offset n)
        then rejected buf size
        else (m n >>= λ q. finish q n))
      (mod-eq_of_lt small)
    ∙ ap (λ r. if count == 0 then empty else r) (emit_within_lem bs buf size total (m total) e em h)

-- Bytes that fit the space and the offsets are written.
pub emit-finish :
    (bs buf : List ℕ) (size n : ℕ)
    → length bs ≡ n
    → n ≤ size
    → emit bs buf size ≡ finish (bs ++ drop n buf) n
unfolding emit
emit-finish bs buf size n e h = rw e (rw (not-lt→ltb size n h))

pub emit_within-finish :
    (bs buf : List ℕ) (size n : ℕ)
    → length bs ≡ n
    → n ≤ size
    → n < 2 ^ 32
    → emit_within bs buf size ≡ finish (bs ++ drop n buf) n
unfolding emit_within check_max_offset
emit_within-finish bs buf size n e h small =
    rw e (rw (not-lt→ltb size n h, lt→ltb n (2 ^ 32) small))
