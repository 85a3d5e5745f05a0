-- ===== src/Attestation/Written.antt =====
-- `serialize_attestation` writes the encoding of an Attestation, or refuses a buffer that is too small.
use c_ssz.Common.{
  ℕ, suc, ◌+◌, ◌/◌, ◌≤◌, ◌<◌, ◌≡◌, refl, arith, List, ◌++◌, Option, some, Bool, Run, done, ◌>>=◌,
}
use c_ssz.Common.{
  length, drop, length-append, if◌then◌else◌, ltb, Bool-cases, inl, inr, u32, memcpy, memcpy-front,
}
use c_ssz.Types.{SszError, success, error_serialization}
use c_ssz.Host.{le_bytes, length-le_bytes}
use c_ssz.Bitfield.{bitlist_bytes}
use c_ssz.Generator.Codec.{joined}
use c_ssz.Attestation.{AttestationData, Attestation}
use c_ssz.Attestation.Buffer.{DynamicBuffer, Reallocates}
use c_ssz.Attestation.Write.{or_fin, serialize_attestation}
use c_ssz.Attestation.Encode.{Holds}
use c_ssz.Attestation.Layout.{
  IsData, data_fields, length-data_fields, fixed_part, attestation_bytes, length-bitlist_bytes,
  held_first, data-Holds, signature-Holds, bits-Holds, offset-Holds, joined-Holds,
}

abbrev pub with_bits : AttestationData → List ℕ → List Bool → List Bool → Attestation
with_bits body signature bits spare = record {
  aggregation_bits = record { count = length bits; bits = some (bits ++ spare) };
  body = body;
  signature = signature;
}

pub length-fixed_part :
    (body : AttestationData) (signature : List ℕ)
    → IsData body
    → length signature ≡ 96
    → length (fixed_part body signature) ≡ 224
length-fixed_part body signature good e =
    omega
      (arith, length-append (joined (data_fields body)) signature, length-data_fields body good, e)

pub length-attestation_bytes :
    (body : AttestationData) (signature : List ℕ) (bits : List Bool)
    → IsData body
    → length signature ≡ 96
    → length (attestation_bytes body signature bits) ≡ 228 + suc (length bits / 8)
length-attestation_bytes body signature bits good e = omega (
  arith,
  length-append (le_bytes 4 228 ++ fixed_part body signature) (bitlist_bytes bits),
  length-append (le_bytes 4 228) (fixed_part body signature),
  length-le_bytes 4 228,
  length-fixed_part body signature good e,
  length-bitlist_bytes bits,
)

-- Everything as it was.
abbrev pub refused : List ℕ → ℕ → Run (SszError × List ℕ × ℕ)
refused out_buffer actual = done (error_serialization, out_buffer, actual)

-- The last test and the copy to the caller.
copy_out :
    (db : DynamicBuffer) (bs out_buffer : List ℕ) (size actual : ℕ)
    → Holds db bs
    → size ≤ length out_buffer
    → (if ltb size (db.size)
        then refused out_buffer actual
        else (memcpy out_buffer 0 (db.bytes) (db.size) >>= λ written.
            done (success, written, db.size)))
      ≡ (if ltb size (length bs)
          then refused out_buffer actual
          else done (success, bs ++ drop (length bs) out_buffer, length bs))
copy_out db bs out_buffer size actual holds fits =
    let (good, same, count) = holds in
    rw (held_first db bs holds, count)
      (elim (Bool-cases (ltb size (length bs))) [
        | inl small ↦ rw small refl
        | inr room ↦
            rw
              (
                room,
                memcpy-front out_buffer bs (drop (length bs) (db.bytes)) (length bs) refl
                    (ground arith),
              )
              refl
      ])

-- If `realloc` finds memory and a local array of `n` bytes has `n` cells: for an Attestation whose numbers
-- have 64 bits, whose roots have 32 bytes and its signature 96, with fewer than 2048 bits, and a buffer of
-- at least the told size: `serialize_attestation` refuses a told size below that of the encoding and
-- leaves everything as it was, and otherwise writes the offset of the bits, the fixed part and the bits
-- at the front, leaves the cells behind them, and reports the number of bytes.
pub serialize_attestation_lem :
    (realloc : List ℕ → ℕ → Option (List ℕ)) (stack : ℕ → List ℕ)
    → Reallocates realloc
    → ((n : ℕ) → length (stack n) ≡ n)
    → (body : AttestationData) (signature : List ℕ) (bits spare : List Bool) (out_buffer : List ℕ)
      (size actual : ℕ)
    → IsData body
    → length signature ≡ 96
    → length bits < 2048
    → size ≤ length out_buffer
    → serialize_attestation realloc stack
        (with_bits body signature bits spare)
        out_buffer
        size
        actual
      ≡ (if ltb size (length (attestation_bytes body signature bits))
          then refused out_buffer actual
          else done (
            success,
            attestation_bytes body signature bits
                ++ drop (length (attestation_bytes body signature bits)) out_buffer,
            length (attestation_bytes body signature bits),
          ))
unfolding serialize_attestation or_fin
serialize_attestation_lem realloc stack memory sized body signature bits spare out_buffer size
      actual good e few fits =
    let (with_data, run₁, holds₁) = data-Holds realloc stack memory sized body good in
    let (db_fixed, run₂, holds₂) =
      signature-Holds realloc stack memory sized with_data (joined (data_fields body)) signature
        holds₁ e (omega (arith, length-data_fields body good)) in
    let (db_var, run₃, holds₃) = bits-Holds realloc stack memory sized bits spare few in
    let (with_offset, run₄, holds₄) = offset-Holds realloc stack memory sized 228 in
    let (with_fixed, run₅, holds₅) =
      joined-Holds realloc stack memory sized with_offset db_fixed (le_bytes 4 228)
        (fixed_part body signature) holds₄ holds₂
        (omega (arith, fixed_size, length-le_bytes 4 228)) in
    let (db_final, run₆, holds₆) =
      joined-Holds realloc stack memory sized with_fixed db_var
        (le_bytes 4 228 ++ fixed_part body signature) (bitlist_bytes bits) holds₅ holds₃
        (omega (
          arith,
          fixed_size,
          length-le_bytes 4 228,
          length-append (le_bytes 4 228) (fixed_part body signature),
          length-bitlist_bytes bits,
        )) in
    let offset : u32 (4 + u32 (db_fixed.size)) ≡ 228 = omega (arith, holds₂, fixed_size) in
    rw run₁ (
      rw run₂ (
        rw run₃ (
          rw offset (
            rw run₄ (
              rw run₅ (
                rw run₆ (
                  copy_out db_final (attestation_bytes body signature bits) out_buffer size actual
                    holds₆ fits)))))))
  where
    fixed_size : length (fixed_part body signature) ≡ 224
    fixed_size = length-fixed_part body signature good e
