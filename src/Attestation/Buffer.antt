-- ===== src/Attestation/Buffer.antt =====
-- bench/bench_ssz_attestation.c, the buffer that grows. `realloc` is a parameter: it is given the cells
-- behind the old pointer and a size, and gives the cells behind the new one.
use c_ssz.Common.{
  ℕ, zero, suc, ◌+◌, ◌*◌, ◌≤◌, ◌≡◌, List, [], Option, none, some, Run, done, hang, ◌>>=◌,
}
use c_ssz.Common.{take, length, memcpy, if◌then◌else◌, ltb, leb, ◌==◌, sz}
use c_ssz.Types.{SszError, success, error_deserialization, is_success}

-- `bytes` has the cells behind the pointer `data`, none of them behind a null pointer.
pub record DynamicBuffer : Type 0 where
  pub bytes : List ℕ
  pub size : ℕ
  pub capacity : ℕ

unfoldable pub db_init : DynamicBuffer
db_init = record { bytes = []; size = 0; capacity = 0 }

-- `free` and the three assignments.
unfoldable pub db_free : DynamicBuffer → DynamicBuffer
db_free db = record db { bytes = []; size = 0; capacity = 0 }

-- `while (new_capacity < needed) new_capacity *= 2;` The first capacity is 1 or more, so 65 rounds reach
-- any size up to 2 ^ 63.
unfoldable pub grow_loop : ℕ → ℕ → ℕ → Run ℕ
grow_loop zero needed new_capacity = hang
grow_loop (suc fuel) needed new_capacity =
    let rest = grow_loop fuel needed (sz (new_capacity * 2)) in
    if ltb new_capacity needed then rest else done new_capacity

abbrev grow_fuel : ℕ
grow_fuel = 65

unfoldable pub initial_capacity : ℕ → ℕ
initial_capacity capacity = if capacity == 0 then 128 else capacity

module _ (realloc : List ℕ → ℕ → Option (List ℕ)) where
  -- `realloc` and what follows: a null result leaves the buffer as it is.
  unfoldable pub replace_cells : DynamicBuffer → ℕ → Option (List ℕ) → SszError × DynamicBuffer
  replace_cells db new_capacity none = (error_deserialization, db)
  replace_cells db new_capacity (some temp) =
      (success, record db { bytes = temp; capacity = new_capacity })

  unfoldable pub db_ensure_capacity : DynamicBuffer → ℕ → Run (SszError × DynamicBuffer)
  db_ensure_capacity db needed =
      if leb (sz (db.size + needed)) (db.capacity) then done (success, db) else do
        new_capacity ← grow_loop grow_fuel (sz (db.size + needed)) (initial_capacity (db.capacity))
        done (replace_cells db new_capacity (realloc (db.bytes) new_capacity))

  unfoldable pub db_append : DynamicBuffer → List ℕ → ℕ → Run (SszError × DynamicBuffer)
  db_append db src len = do
    (err, db') ← db_ensure_capacity db len
    if is_success err
        then (do
          cells ← memcpy (db'.bytes) (db'.size) src len
          done (success, record db' { bytes = cells; size = sz (db'.size + len) }))
        else done (err, db')

-- The buffer has the cells that its capacity counts, and its size lies within them.
abbrev pub IsWellFormed : DynamicBuffer → Type 0
IsWellFormed db = (length (db.bytes) ≡ db.capacity) × (db.size ≤ db.capacity)

-- The bytes that the buffer holds.
abbrev pub contents : DynamicBuffer → List ℕ
contents db = take (db.size) (db.bytes)

-- `realloc` finds memory: the new object has the size asked for, and the old cells at its front.
abbrev pub Reallocates : (List ℕ → ℕ → Option (List ℕ)) → Type 0
Reallocates realloc =
    (old : List ℕ) (n : ℕ)
    → length old ≤ n
    → (cells : List ℕ) × (realloc old n ≡ some cells)
      × (length cells ≡ n)
      × (take (length old) cells ≡ old)
