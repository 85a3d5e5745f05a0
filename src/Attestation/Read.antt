-- ===== src/Attestation/Read.antt =====
-- bench/bench_ssz_attestation.c, `deserialize_attestation`.
use c_ssz.Common.{
  ℕ, ◌+◌, ◌-◌, List, [], ◌∷◌, Option, none, some, Bool, not, Run, done, fault, ◌>>=◌,
}
use c_ssz.Common.{drop, replicate, memcpy, if◌then◌else◌, ltb, ◌==◌, sz}
use c_ssz.Types.{SszError, success, error_deserialization, is_success}
use c_ssz.Deserialize.Uints.{deserialize_uint32, deserialize_uint64}
use c_ssz.Deserialize.Bitfields.{deserialize_bitlist}
use c_ssz.Generator.{of_read, Reading}
use c_ssz.Generator.Input.{deserialize_fields, on_field}
use c_ssz.Attestation.{Checkpoint, AttestationData, Attestation, max_validators_per_committee}

-- `memset(out_attestation, 0, sizeof(*out_attestation))`: the null pointer has zero bytes.
unfoldable pub zero_attestation : Attestation
zero_attestation = record {
  aggregation_bits = record { count = 0; bits = none };
  body = record {
    slot = 0;
    index = 0;
    beacon_block_root = replicate 32 0;
    source = record { epoch = 0; root = replicate 32 0 };
    target = record { epoch = 0; root = replicate 32 0 };
  };
  signature = replicate 96 0;
}

-- `err = ssz_deserialize_uint64(buffer + offset, 8, &value); if (err != SSZ_SUCCESS) return err; offset += 8;`
unfoldable pub read_uint64 : Reading ℕ
read_uint64 buffer offset old = do
  (err, new) ← deserialize_uint64 (some (drop offset buffer)) 8 (some old) >>= of_read
  if is_success err then done (success, sz (offset + 8), new) else done (err, offset, new)

-- `memcpy(bytes, buffer + offset, n); offset += n;`
unfoldable pub read_bytes : ℕ → Reading (List ℕ)
read_bytes n buffer offset old = do
  new ← memcpy old 0 (drop offset buffer) n
  done (success, sz (offset + n), new)

-- The places in the object that these write to.
abbrev pub set_body : (AttestationData → AttestationData) → Attestation → Attestation
set_body change att = record att { body = change (att.body) }

abbrev pub set_source : (Checkpoint → Checkpoint) → Attestation → Attestation
set_source change att = set_body (λ body. record body { source = change (body.source) }) att

abbrev pub set_target : (Checkpoint → Checkpoint) → Attestation → Attestation
set_target change att = set_body (λ body. record body { target = change (body.target) }) att

-- The statements from the slot to the signature.
unfoldable pub fixed_fields : List (Reading Attestation)
fixed_fields =
    on_field (λ att. att.body.slot) (λ v. set_body (λ body. record body { slot = v })) read_uint64
    ∷ on_field (λ att. att.body.index) (λ v. set_body (λ body. record body { index = v }))
        read_uint64
    ∷ on_field (λ att. att.body.beacon_block_root)
        (λ v. set_body (λ body. record body { beacon_block_root = v })) (read_bytes 32)
    ∷ on_field (λ att. att.body.source.epoch) (λ v. set_source (λ cp. record cp { epoch = v }))
        read_uint64
    ∷ on_field (λ att. att.body.source.root) (λ v. set_source (λ cp. record cp { root = v }))
        (read_bytes 32)
    ∷ on_field (λ att. att.body.target.epoch) (λ v. set_target (λ cp. record cp { epoch = v }))
        read_uint64
    ∷ on_field (λ att. att.body.target.root) (λ v. set_target (λ cp. record cp { root = v }))
        (read_bytes 32)
    ∷ on_field (λ att. att.signature) (λ v att. record att { signature = v }) (read_bytes 96)
    ∷ []

-- The part behind `agg_offset`, if there is one.
unfoldable pub read_aggregation_bits :
    Option (List Bool) → List ℕ → ℕ → Attestation → Run (SszError × Attestation)
read_aggregation_bits none input bitlist_bytes att =
    done
      (error_deserialization, record att { aggregation_bits = record { count = 0; bits = none } })
read_aggregation_bits (some cells) input bitlist_bytes att = do
  (err, out_bits, actual_bits) ←
      deserialize_bitlist (some input) bitlist_bytes max_validators_per_committee (some cells)
        (some 0)
  elim actual_bits [
    | none ↦ fault
    | some actual ↦
        (if is_success err
          then done (
            success,
            record att { aggregation_bits = record { count = actual; bits = out_bits } },
          )
          else done (err, record att { aggregation_bits = record { count = 0; bits = none } }))
  ]

-- From `memset` to the end.
unfoldable pub read_attestation :
    (ℕ → Option (List Bool)) → List ℕ → ℕ → ℕ → Run (SszError × Attestation)
read_attestation malloc buffer buffer_size agg_offset = do
  (err, offset, att) ← deserialize_fields fixed_fields buffer 4 zero_attestation
  if is_success err
      then (if ltb agg_offset buffer_size
          then read_aggregation_bits (malloc max_validators_per_committee) (drop agg_offset buffer)
              (buffer_size - agg_offset) att
          else done (success, att))
      else done (err, att)

abbrev fixed_part_size : ℕ
fixed_part_size = 224

-- The tests of the sizes, each with its `return`; `out` is the object before.
unfoldable pub deserialize_attestation :
    (ℕ → Option (List Bool)) → List ℕ → ℕ → Attestation → Run (SszError × Attestation)
deserialize_attestation malloc buffer buffer_size out =
    let refused : Run (SszError × Attestation) = done (error_deserialization, out) in
    if ltb buffer_size 4 then refused else do
      (err, agg_offset) ← deserialize_uint32 (some buffer) 4 (some 0) >>= of_read
      if is_success err
          then (if ltb buffer_size agg_offset
              then refused
              else if ltb agg_offset (4 + fixed_part_size)
              then refused
              else if ltb buffer_size (4 + fixed_part_size)
              then refused
              else if not (agg_offset - 4 == fixed_part_size)
              then refused
              else read_attestation malloc buffer buffer_size agg_offset)
          else done (err, out)
