-- ===== src/Attestation/Layout.antt =====
-- The bytes that `serialize_attestation` writes: the offset of the bits, the fixed part and the bits.
use c_ssz.Common.{
  ℕ, suc, ◌+◌, ◌/◌, ◌^◌, ◌≤◌, ◌<◌, ◌≡◌, refl, sym, ap, ◌∙◌, arith, List, [], ◌∷◌, ◌++◌, Option,
  some, Bool, true, done,
}
use c_ssz.Common.{length, drop, length-append, take-append-drop}
use c_ssz.Types.{success}
use c_ssz.Host.{le_bytes, length-le_bytes}
use c_ssz.Bitfield.{bitlist_bytes, bits_value}
use c_ssz.Serialize.Emit.{emit-finish}
use c_ssz.Serialize.Uints.{serialize_uint32}
use c_ssz.Serialize.Uints.Encode.{serialize_uint32-emit}
use c_ssz.Serialize.Vectors.{serialize_vector_uint8}
use c_ssz.Serialize.Bitfields.{serialize_bitlist}
use c_ssz.Serialize.Bitfields.Bitlist.{serialize_bitlist_lem}
use c_ssz.Generator.Codec.{joined}
use c_ssz.Attestation.{Checkpoint, AttestationData}
use c_ssz.Attestation.Buffer.{DynamicBuffer, db_init, db_append, Reallocates}
use c_ssz.Attestation.Write.{
  put_uint64, put_root, data_statements, ssz_serialize_attestation_data_db, ssz_serialize_signature,
  ssz_serialize_aggregation_bits, append_offset,
}
use c_ssz.Attestation.Encode.{
  Holds, Appends, vector_written, db_append-Holds, append_encoded-Holds, put_uint64-Appends,
  put_root-Appends, run_statements-Appends,
}

-- Numbers of 64 bits, and roots of 32 bytes.
abbrev pub IsCheckpoint : Checkpoint → Type 0
IsCheckpoint cp = (cp.epoch < 2 ^ 64) × (length (cp.root) ≡ 32)

abbrev pub IsData : AttestationData → Type 0
IsData ad =
    (ad.slot < 2 ^ 64)
    × (ad.index < 2 ^ 64)
    × (length (ad.beacon_block_root) ≡ 32)
    × IsCheckpoint (ad.source)
    × IsCheckpoint (ad.target)

abbrev pub data_fields : AttestationData → List (List ℕ)
data_fields ad =
    le_bytes 8 (ad.slot)
    ∷ le_bytes 8 (ad.index)
    ∷ ad.beacon_block_root
    ∷ le_bytes 8 (ad.source.epoch)
    ∷ ad.source.root
    ∷ le_bytes 8 (ad.target.epoch)
    ∷ ad.target.root
    ∷ []

abbrev total : List (List ℕ) → ℕ
total [] = 0
total (bs ∷ rest) = length bs + total rest

length-joined : (encodings : List (List ℕ)) → length (joined encodings) ≡ total encodings
length-joined [] = refl
length-joined (bs ∷ rest) = omega (arith, length-append bs (joined rest), length-joined rest)

pub length-data_fields : (ad : AttestationData) → IsData ad → length (joined (data_fields ad)) ≡ 128
length-data_fields ad (hs, hi, hb, (he, hr), (he', hr')) = omega (
  arith,
  length-joined (data_fields ad),
  length-le_bytes 8 (ad.slot),
  length-le_bytes 8 (ad.index),
  length-le_bytes 8 (ad.source.epoch),
  length-le_bytes 8 (ad.target.epoch),
)

abbrev pub fixed_part : AttestationData → List ℕ → List ℕ
fixed_part body signature = joined (data_fields body) ++ signature

abbrev pub attestation_bytes : AttestationData → List ℕ → List Bool → List ℕ
attestation_bytes body signature bits =
    (le_bytes 4 228 ++ fixed_part body signature) ++ bitlist_bytes bits

pub length-bitlist_bytes : (bs : List Bool) → length (bitlist_bytes bs) ≡ suc (length bs / 8)
unfolding bitlist_bytes
length-bitlist_bytes bs = length-le_bytes (suc (length bs / 8)) (bits_value (bs ++ true ∷ []))

pub empty : Holds db_init []
unfolding db_init
empty = ((refl, omega arith), refl, refl)

-- The cells of a buffer, the bytes that it holds first.
pub held_first :
    (db : DynamicBuffer) (held : List ℕ)
    → Holds db held
    → db.bytes ≡ held ++ drop (db.size) (db.bytes)
held_first db held (good, same, size) =
    sym (take-append-drop (db.size) (db.bytes)) ∙ ap (λ t. t ++ drop (db.size) (db.bytes)) same

module _ (realloc : List ℕ → ℕ → Option (List ℕ)) (stack : ℕ → List ℕ)
    (memory : Reallocates realloc) (sized : (n : ℕ) → length (stack n) ≡ n) where
  pub data-Holds :
      (ad : AttestationData)
      → IsData ad
      → (db : DynamicBuffer) × (ssz_serialize_attestation_data_db realloc stack ad db_init
          ≡ done (success, db))
        × Holds db (joined (data_fields ad))
  unfolding ssz_serialize_attestation_data_db
  data-Holds ad (hs, hi, hb, (he, hr), (he', hr')) =
      let (state, run, room, holds) =
        run_statements-Appends realloc stack memory sized (data_statements realloc stack ad)
          (data_fields ad)
          (
            number (ad.slot),
            (
              number (ad.index),
              (
                root (ad.beacon_block_root) hb,
                (
                  number (ad.source.epoch),
                  (
                    root (ad.source.root) hr,
                    (number (ad.target.epoch), (root (ad.target.root) hr', tt)),
                  ),
                ),
              ),
            ),
          )
          (record { tmp = stack 64; db = db_init }) [] (sized 64) empty
          (omega (arith, length-data_fields ad (hs, hi, hb, (he, hr), (he', hr')))) in
      (state.db, rw run refl, holds)
    where
      number :
          (v : ℕ) → Appends realloc stack memory sized (put_uint64 realloc stack v) (le_bytes 8 v)
      number v = put_uint64-Appends realloc stack memory sized v

      root :
          (bs : List ℕ)
          → length bs ≡ 32
          → Appends realloc stack memory sized (put_root realloc stack bs) bs
      root bs e = put_root-Appends realloc stack memory sized bs e

  pub signature-Holds :
      (db : DynamicBuffer) (held signature : List ℕ)
      → Holds db held
      → length signature ≡ 96
      → length held ≤ 2 ^ 62
      → (db' : DynamicBuffer) × (ssz_serialize_signature realloc stack signature db
          ≡ done (success, db'))
        × Holds db' (held ++ signature)
  unfolding ssz_serialize_signature
  signature-Holds db held signature holds e small =
      let (db', run, holds') =
        append_encoded-Holds realloc stack memory sized
          (λ buf size. serialize_vector_uint8 (some signature) 96 (some buf) (some size))
          (stack 128) 128 db held signature (drop 96 (stack 128)) 96 (sym e)
          (vector_written signature 96 128 (stack 128) e (omega arith) (omega arith)
            (omega (arith, sized 128)) (omega arith))
          holds (omega arith) in
      (db', rw run refl, holds')

  pub bits-Holds :
      (bits spare : List Bool)
      → length bits < 2048
      → (db : DynamicBuffer) × (ssz_serialize_aggregation_bits realloc stack
            (record { count = length bits; bits = some (bits ++ spare) })
            db_init
          ≡ done (success, db))
        × Holds db (bitlist_bytes bits)
  unfolding ssz_serialize_aggregation_bits
  bits-Holds bits spare few =
      let (db, run, holds) =
        append_encoded-Holds realloc stack memory sized
          (λ buf size.
            serialize_bitlist (some (bits ++ spare)) (length bits) (some buf) (some size))
          (stack 256) 256 db_init [] (bitlist_bytes bits) (drop n (stack 256)) n (sym count)
          (serialize_bitlist_lem bits spare (stack 256) 256 (omega arith) (omega (arith, sized 256))
            ∙ emit-finish (bitlist_bytes bits) (stack 256) 256 n count (omega arith))
          empty (omega (arith, count)) in
      (db, rw run refl, holds)
    where
      n : ℕ
      n = suc (length bits / 8)

      count : length (bitlist_bytes bits) ≡ n
      count = length-bitlist_bytes bits

  pub offset-Holds :
      (v : ℕ)
      → (db : DynamicBuffer) × (append_offset realloc stack v db_init ≡ done (success, db))
        × Holds db (le_bytes 4 v)
  unfolding append_offset
  offset-Holds v =
      let (db, run, holds) =
        append_encoded-Holds realloc stack memory sized
          (λ buf size. serialize_uint32 (some v) (some buf) (some size)) (stack 4) 4 db_init []
          (le_bytes 4 v) (drop 4 (stack 4)) 4 (sym (length-le_bytes 4 v))
          (serialize_uint32-emit v (stack 4) 4 (omega (arith, sized 4))
            ∙ emit-finish (le_bytes 4 v) (stack 4) 4 4 (length-le_bytes 4 v) (omega arith))
          empty (omega (arith, length-le_bytes 4 v)) in
      (db, rw run refl, holds)

  -- One buffer behind another.
  pub joined-Holds :
      (db other : DynamicBuffer) (held bs : List ℕ)
      → Holds db held
      → Holds other bs
      → length held + length bs ≤ 2 ^ 63
      → (db' : DynamicBuffer) × (db_append realloc db (other.bytes) (other.size)
          ≡ done (success, db'))
        × Holds db' (held ++ bs)
  joined-Holds db other held bs holds (good, same, size) small =
      let (db', run, holds') =
        db_append-Holds realloc stack memory sized db held bs (drop (other.size) (other.bytes))
          (other.size) size holds small in
      (
        db',
        ap (λ t. db_append realloc db t (other.size)) (held_first other bs (good, same, size))
            ∙ run,
        holds',
      )
