-- ===== src/Attestation/Write.antt =====
-- bench/bench_ssz_attestation.c, `serialize_attestation` and what it calls. A local array of `n` bytes has
-- the cells `stack n` before anything is written to it. The three buffers are local: what they hold at
-- the end is freed.
use c_ssz.Common.{
  ℕ, ◌+◌, List, [], ◌∷◌, Option, some, Run, done, ◌>>=◌, memcpy, if◌then◌else◌, ltb, u32,
}
use c_ssz.Types.{SszError, success, error_serialization, is_success, Written}
use c_ssz.Serialize.Uints.{serialize_uint32, serialize_uint64}
use c_ssz.Serialize.Vectors.{serialize_vector_uint8}
use c_ssz.Serialize.Bitfields.{serialize_bitlist}
use c_ssz.Generator.{of_written}
use c_ssz.Attestation.{AttestationData, AggregationBits, Attestation}
use c_ssz.Attestation.Buffer.{DynamicBuffer, db_init, db_append}

-- The local array that the numbers are written to, and the buffer.
pub record Scratch : Type 0 where
  pub tmp : List ℕ
  pub db : DynamicBuffer

-- Statements up to a `return err` or the end.
abbrev pub Statement : Type 0
Statement = Scratch → Run (SszError × Scratch)

unfoldable pub run_statements : List Statement → Statement
run_statements [] state = done (success, state)
run_statements (statement ∷ statements) state = do
  (err, state') ← statement state
  let rest = run_statements statements state'
  if is_success err then rest else done (err, state')

module _ (realloc : List ℕ → ℕ → Option (List ℕ)) (stack : ℕ → List ℕ) where
  -- `err = ssz_serialize_…(…, buf, &size); if (err != SSZ_SUCCESS) return err;` and
  -- `err = db_append(db, buf, size);`
  unfoldable pub append_encoded :
      (List ℕ → ℕ → Run Written)
      → List ℕ
      → ℕ
      → DynamicBuffer
      → Run (SszError × List ℕ × DynamicBuffer)
  append_encoded serialize buf size db = do
    (err, buf', size') ← serialize buf size >>= of_written
    if is_success err
        then (do (err', db') ← db_append realloc db buf' size'; done (err', buf', db'))
        else done (err, buf', db)

  -- A number, through `tmp[64]`.
  unfoldable pub put_uint64 : ℕ → Statement
  put_uint64 value state = do
    (err, tmp', db') ←
        append_encoded (λ buf size. serialize_uint64 (some value) (some buf) (some size))
          (state.tmp) 64 (state.db)
    done (err, record { tmp = tmp'; db = db' })

  -- The block that appends a root, through `vec_buf[64]`.
  unfoldable pub put_root : List ℕ → Statement
  put_root root state = do
    (err, vec_buf, db') ←
        append_encoded (λ buf size. serialize_vector_uint8 (some root) 32 (some buf) (some size))
          (stack 64) 64 (state.db)
    done (err, record state { db = db' })

  abbrev pub data_statements : AttestationData → List Statement
  data_statements ad =
      put_uint64 (ad.slot)
      ∷ put_uint64 (ad.index)
      ∷ put_root (ad.beacon_block_root)
      ∷ put_uint64 (ad.source.epoch)
      ∷ put_root (ad.source.root)
      ∷ put_uint64 (ad.target.epoch)
      ∷ put_root (ad.target.root)
      ∷ []

  unfoldable pub ssz_serialize_attestation_data_db :
      AttestationData → DynamicBuffer → Run (SszError × DynamicBuffer)
  ssz_serialize_attestation_data_db ad db = do
    (err, state) ← run_statements (data_statements ad) (record { tmp = stack 64; db = db })
    done (err, state.db)

  unfoldable pub ssz_serialize_signature : List ℕ → DynamicBuffer → Run (SszError × DynamicBuffer)
  ssz_serialize_signature signature db = do
    (err, vec_buf, db') ←
        append_encoded
          (λ buf size. serialize_vector_uint8 (some signature) 96 (some buf) (some size))
          (stack 128) 128 db
    done (err, db')

  unfoldable pub ssz_serialize_aggregation_bits :
      AggregationBits → DynamicBuffer → Run (SszError × DynamicBuffer)
  ssz_serialize_aggregation_bits bits db = do
    (err, temp, db') ←
        append_encoded
          (λ buf size. serialize_bitlist (bits.bits) (bits.count) (some buf) (some size))
          (stack 256) 256 db
    done (err, db')

  -- The block that appends the offset, through `tmp[4]`.
  unfoldable pub append_offset : ℕ → DynamicBuffer → Run (SszError × DynamicBuffer)
  append_offset val db = do
    (err, tmp', db') ←
        append_encoded (λ buf size. serialize_uint32 (some val) (some buf) (some size)) (stack 4) 4
          db
    done (err, db')

  -- `err = …; if (err != SSZ_SUCCESS) goto fin;`, where nothing was written through the pointers.
  unfoldable pub or_fin :
      {A : Type 0}
      → List ℕ
      → ℕ
      → Run (SszError × A)
      → (A → Run (SszError × List ℕ × ℕ))
      → Run (SszError × List ℕ × ℕ)
  or_fin out_buffer out_actual_size step next = do
    (err, a) ← step
    if is_success err then next a else done (err, out_buffer, out_actual_size)

  -- The code with what stands behind `out_buffer` and `out_actual_size`.
  unfoldable pub serialize_attestation : Attestation → List ℕ → ℕ → ℕ → Run (SszError × List ℕ × ℕ)
  serialize_attestation att out_buffer out_buffer_size out_actual_size =
      let attempt = or_fin {A = DynamicBuffer} out_buffer out_actual_size in
      attempt (ssz_serialize_attestation_data_db (att.body) db_init) λ with_data.
        attempt (ssz_serialize_signature (att.signature) with_data) λ db_fixed.
          attempt (ssz_serialize_aggregation_bits (att.aggregation_bits) db_init) λ db_var.
            attempt (append_offset (u32 (4 + u32 (db_fixed.size))) db_init) λ with_offset.
              attempt (db_append realloc with_offset (db_fixed.bytes) (db_fixed.size)) λ with_fixed.
                attempt (db_append realloc with_fixed (db_var.bytes) (db_var.size)) λ db_final.
                  if ltb out_buffer_size (db_final.size)
                  then done (error_serialization, out_buffer, out_actual_size)
                  else do
                    written ← memcpy out_buffer 0 (db_final.bytes) (db_final.size)
                    done (success, written, db_final.size)
