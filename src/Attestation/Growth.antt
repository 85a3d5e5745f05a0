-- ===== src/Attestation/Growth.antt =====
-- The buffer that grows stays well formed, and holds the bytes that are appended to it.
use c_ssz.Common.{
  ℕ, zero, suc, ◌+◌, ◌*◌, ◌^◌, ◌≤◌, ◌<◌, ◌≡◌, refl, sym, ap, ap₂, ◌∙◌, arith, List, [], ◌++◌,
  Option, done,
}
use c_ssz.Common.{
  length, take, drop, length-append, take-append, take-append_of_le, take-append-drop,
  length-take_of_le, length-drop, append_assoc, loads_lem, stores_at, memcpy,
}
use c_ssz.Common.{Bool-cases, inl, inr, ltb, leb, not-lt→ltb, ne→==, sz}
use native.Mathlib.Nat.{pow-suc, mul_assoc}
use c_ssz.Types.{success}
use c_ssz.Attestation.Buffer.{
  DynamicBuffer, grow_loop, initial_capacity, replace_cells, db_ensure_capacity, db_append,
  IsWellFormed, contents, Reallocates,
}

grow_loop_lem :
    (fuel needed c : ℕ)
    → 0 < c
    → needed ≤ 2 ^ 63
    → needed ≤ c * 2 ^ fuel
    → (c' : ℕ) × (grow_loop (suc fuel) needed c ≡ done c') × (needed ≤ c') × (c ≤ c')
unfolding grow_loop
grow_loop_lem zero needed c pos small reach =
    (c, rw (not-lt→ltb c needed (omega arith)) refl, omega arith, omega arith)
grow_loop_lem (suc fuel) needed c pos small reach = elim (Bool-cases (ltb c needed)) [
  | inr enough ↦ (c, rw enough refl, ground arith, omega arith)
  | inl below ↦
      let c_below : c < needed = ground arith in
      let no_wrap : sz (c * 2) ≡ c * 2 = omega arith in
      let doubled : c * 2 * 2 ^ fuel ≡ c * 2 ^ suc fuel =
        mul_assoc c 2 (2 ^ fuel) ∙ ap (λ (n : ℕ). c * n) (omega (arith, pow-suc 2 fuel)) in
      let (c', run, enough, more) =
        grow_loop_lem fuel needed (c * 2) (omega arith) small (omega arith) in
      (
        c',
        rw below (ap (λ (n : ℕ). grow_loop (suc fuel) needed n) no_wrap ∙ run),
        enough,
        omega arith,
      )
]

initial_capacity_lem :
    (capacity : ℕ) → (0 < initial_capacity capacity) × (capacity ≤ initial_capacity capacity)
unfolding initial_capacity
initial_capacity_lem zero = (omega arith, omega arith)
initial_capacity_lem (suc n) = rw (ne→== (suc n) 0 (omega arith)) (omega arith, omega arith)

module _ (realloc : List ℕ → ℕ → Option (List ℕ)) (memory : Reallocates realloc) where
  -- There is space for `needed` more bytes afterwards, and the bytes that the buffer holds are the same.
  db_ensure_capacity_lem :
      (db : DynamicBuffer) (needed : ℕ)
      → IsWellFormed db
      → db.size + needed ≤ 2 ^ 63
      → (db' : DynamicBuffer) × (db_ensure_capacity realloc db needed ≡ done (success, db'))
        × IsWellFormed db'
        × (contents db' ≡ contents db)
        × (db'.size ≡ db.size)
        × (db.size + needed ≤ db'.capacity)
  unfolding db_ensure_capacity replace_cells
  db_ensure_capacity_lem db needed (el, within) small =
      elim (Bool-cases (leb (sz (db.size + needed)) (db.capacity))) [
        | inl room ↦ (db, rw room refl, (el, within), refl, refl, ground (arith, same))
        | inr full ↦
            let (pos, at_least) = initial_capacity_lem (db.capacity) in
            let (c', grown, enough, more) =
              grow_loop_lem 64 (db.size + needed) (initial_capacity (db.capacity)) pos small
                (omega arith) in
            let (cells, given, ec, kept) = memory (db.bytes) c' (omega (arith, el)) in
            (
              record db { bytes = cells; capacity = c' },
              rw (full, same) (rw grown (rw given refl)),
              (ec, omega arith),
              ap (take (db.size)) (
                    sym (take-append-drop (length (db.bytes)) cells)
                    ∙ ap (λ t. t ++ drop (length (db.bytes)) cells) kept)
                  ∙ take-append_of_le (db.size) (db.bytes) (drop (length (db.bytes)) cells)
                      (omega (arith, el)),
              refl,
              enough,
            )
      ]
    where
      same : sz (db.size + needed) ≡ db.size + needed
      same = omega arith

  -- If `realloc` finds memory: for a buffer whose cells are as many as its capacity and whose size lies
  -- within them, `db_append` of bytes that end at most at 2 ^ 63 succeeds, the buffer is such a buffer
  -- again, and it holds the bytes that it held and the new ones behind them.
  pub db_append_lem :
      (db : DynamicBuffer) (bs post : List ℕ)
      → IsWellFormed db
      → db.size + length bs ≤ 2 ^ 63
      → (db' : DynamicBuffer) × (db_append realloc db (bs ++ post) (length bs)
          ≡ done (success, db'))
        × IsWellFormed db'
        × (contents db' ≡ contents db ++ bs)
        × (db'.size ≡ db.size + length bs)
  unfolding db_append memcpy
  db_append_lem db bs post good small =
      let (grown, run, (ec, within), same, size, room) =
        db_ensure_capacity_lem db (length bs) good small in
      let fits : grown.size + length bs ≤ length (grown.bytes) = omega (arith, ec, size, room) in
      let behind : List ℕ = drop (length bs) (drop (grown.size) (grown.bytes)) in
      let new : List ℕ = take (grown.size) (grown.bytes) ++ (bs ++ behind) in
      let el : length (take (grown.size) (grown.bytes)) ≡ grown.size =
        length-take_of_le (grown.size) (grown.bytes) (omega arith) in
      let no_wrap : sz (grown.size + length bs) ≡ grown.size + length bs = omega (arith, size) in
      (
        record grown { bytes = new; size = grown.size + length bs },
        rw run (
            rw (loads_lem [] bs post 0 refl) (
              rw (stores_at (grown.bytes) bs (grown.size) fits)
                (ap (λ (n : ℕ). done (success, record grown { bytes = new; size = n })) no_wrap))),
        (
          omega (
            arith,
            ec,
            fits,
            length-append (take (grown.size) (grown.bytes)) (bs ++ behind),
            length-append bs behind,
            el,
            length-drop (length bs) (drop (grown.size) (grown.bytes)),
            length-drop (grown.size) (grown.bytes),
          ),
          omega (arith, ec, fits),
        ),
        ap₂ take (omega (arith, el, length-append (take (grown.size) (grown.bytes)) bs))
              (sym (append_assoc (take (grown.size) (grown.bytes)) bs behind))
            ∙ take-append (take (grown.size) (grown.bytes) ++ bs) behind
            ∙ ap (λ t. t ++ bs) same,
        ap (λ (n : ℕ). n + length bs) size,
      )
