-- ===== src/Attestation/Encode.antt =====
-- What the serializers of the Attestation append to a buffer.
use c_ssz.Common.{
  ℕ, ◌+◌, ◌^◌, ◌≤◌, ◌<◌, ◌≡◌, refl, sym, ap, ap₂, ◌∙◌, arith, List, [], ◌∷◌, ◌++◌, append_assoc,
  append-nil, Option, some, Run, done,
}
use c_ssz.Common.{length, drop, length-append, length-drop, ne→==}
use c_ssz.Types.{success, Written}
use c_ssz.Host.{le_bytes, length-le_bytes}
use c_ssz.Serialize.{finish}
use c_ssz.Serialize.Emit.{emit-finish, emit_within-finish}
use c_ssz.Serialize.Uints.{serialize_uint64}
use c_ssz.Serialize.Uints.Encode.{serialize_uint64-emit}
use c_ssz.Serialize.Vectors.{serialize_vector_uint8}
use c_ssz.Serialize.Vectors.Encode.{serialize_vector_uint8_lem}
use c_ssz.Generator.{of_written}
use c_ssz.Generator.Codec.{joined}
use c_ssz.Attestation.Buffer.{DynamicBuffer, db_append, IsWellFormed, contents, Reallocates}
use c_ssz.Attestation.Growth.{db_append_lem}
use c_ssz.Attestation.Write.{
  Scratch, Statement, run_statements, append_encoded, put_uint64, put_root,
}

-- A well-formed buffer that holds the bytes.
abbrev pub Holds : DynamicBuffer → List ℕ → Type 0
Holds db bs = IsWellFormed db × (contents db ≡ bs) × (db.size ≡ length bs)

-- A vector of bytes in an array that has room for it.
pub vector_written :
    (xs : List ℕ) (n told : ℕ) (buf : List ℕ)
    → length xs ≡ n
    → 0 < n
    → n ≤ told
    → told ≤ length buf
    → n < 2 ^ 32
    → serialize_vector_uint8 (some xs) n (some buf) (some told) ≡ finish (xs ++ drop n buf) n
vector_written xs n told buf e pos space fits small =
    ap₂ (λ t (k : ℕ). serialize_vector_uint8 (some t) k (some buf) (some told))
      (sym (append-nil xs)) (sym e)
    ∙ serialize_vector_uint8_lem buf told fits xs []
    ∙ rw (ne→== (length xs) 0 (omega arith)) (emit_within-finish xs buf told n e space small)

module _ (realloc : List ℕ → ℕ → Option (List ℕ)) (stack : ℕ → List ℕ)
    (memory : Reallocates realloc) (sized : (n : ℕ) → length (stack n) ≡ n) where
  pub db_append-Holds :
      (db : DynamicBuffer) (held bs post : List ℕ) (n : ℕ)
      → n ≡ length bs
      → Holds db held
      → length held + length bs ≤ 2 ^ 63
      → (db' : DynamicBuffer) × (db_append realloc db (bs ++ post) n ≡ done (success, db'))
        × Holds db' (held ++ bs)
  db_append-Holds db held bs post n e (good, same, size) small =
      let (db', run, good', appended, size') =
        db_append_lem realloc memory db bs post good (omega (arith, size)) in
      (
        db',
        ap (λ (k : ℕ). db_append realloc db (bs ++ post) k) e ∙ run,
        (
          good',
          appended ∙ ap (λ t. t ++ bs) same,
          omega (arith, size, size', length-append held bs),
        ),
      )

  -- A serializer that puts the bytes at the front of the array.
  pub append_encoded-Holds :
      (serialize : List ℕ → ℕ → Run Written) (buf : List ℕ) (told : ℕ) (db : DynamicBuffer)
      (held bs rest : List ℕ) (n : ℕ)
      → n ≡ length bs
      → serialize buf told ≡ finish (bs ++ rest) n
      → Holds db held
      → length held + length bs ≤ 2 ^ 63
      → (db' : DynamicBuffer) × (append_encoded realloc stack serialize buf told db
          ≡ done (success, bs ++ rest, db'))
        × Holds db' (held ++ bs)
  unfolding append_encoded of_written
  append_encoded-Holds serialize buf told db held bs rest n en e holds small =
      let (db', run, holds') = db_append-Holds db held bs rest n en holds small in
      (db', rw e (rw run refl), holds')

  -- The statement appends the bytes.
  abbrev pub Appends : Statement → List ℕ → Type 0
  Appends statement bs =
      (state : Scratch) (held : List ℕ)
      → length (state.tmp) ≡ 64
      → Holds (state.db) held
      → length held + length bs ≤ 2 ^ 63
      → (state' : Scratch) × (statement state ≡ done (success, state'))
        × (length (state'.tmp) ≡ 64)
        × Holds (state'.db) (held ++ bs)

  pub put_uint64-Appends : (v : ℕ) → Appends (put_uint64 realloc stack v) (le_bytes 8 v)
  unfolding put_uint64
  put_uint64-Appends v state held room holds small =
      let (db', run, holds') =
        append_encoded-Holds (λ buf size. serialize_uint64 (some v) (some buf) (some size))
          (state.tmp) 64 (state.db) held (le_bytes 8 v) (drop 8 (state.tmp)) 8
          (sym (length-le_bytes 8 v))
          (serialize_uint64-emit v (state.tmp) 64 (omega (arith, room))
            ∙ emit-finish (le_bytes 8 v) (state.tmp) 64 8 (length-le_bytes 8 v) (omega arith))
          holds small in
      (
        record { tmp = le_bytes 8 v ++ drop 8 (state.tmp); db = db' },
        rw run refl,
        omega (
          arith,
          room,
          length-append (le_bytes 8 v) (drop 8 (state.tmp)),
          length-le_bytes 8 v,
          length-drop 8 (state.tmp),
        ),
        holds',
      )

  pub put_root-Appends :
      (root : List ℕ) → length root ≡ 32 → Appends (put_root realloc stack root) root
  unfolding put_root
  put_root-Appends root e state held room holds small =
      let (db', run, holds') =
        append_encoded-Holds
          (λ buf size. serialize_vector_uint8 (some root) 32 (some buf) (some size)) (stack 64) 64
          (state.db) held root (drop 32 (stack 64)) 32 (sym e)
          (vector_written root 32 64 (stack 64) e (omega arith) (omega arith)
            (omega (arith, sized 64)) (omega arith))
          holds small in
      (record state { db = db' }, rw run refl, room, holds')

  abbrev AllAppend : List Statement → List (List ℕ) → Type 0
  AllAppend [] [] = Unit {0}
  AllAppend (statement ∷ statements) (bs ∷ rest) = Appends statement bs × AllAppend statements rest
  AllAppend [] (bs ∷ rest) = ⊥
  AllAppend (statement ∷ statements) [] = ⊥

  pub run_statements-Appends :
      (statements : List Statement) (encodings : List (List ℕ))
      → AllAppend statements encodings
      → Appends (run_statements statements) (joined encodings)
  unfolding run_statements
  run_statements-Appends [] [] h state held room holds small =
      (state, refl, room, rw (append-nil held) holds)
  run_statements-Appends (statement ∷ statements) (bs ∷ rest) (appends, more) state held room holds
        small =
      let (mid, run, room', holds') =
        appends state held room holds (omega (arith, length-append bs (joined rest))) in
      let (state', run', room'', holds'') =
        run_statements-Appends statements rest more mid (held ++ bs) room' holds'
          (omega (arith, length-append bs (joined rest), length-append held bs)) in
      (state', rw run run', room'', rw (append_assoc held bs (joined rest)) at holds'')
  run_statements-Appends [] (bs ∷ rest) h state held room holds small = absurd h
  run_statements-Appends (statement ∷ statements) [] h state held room holds small = absurd h
