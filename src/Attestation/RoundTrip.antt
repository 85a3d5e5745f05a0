-- ===== src/Attestation/RoundTrip.antt =====
-- An Attestation that `serialize_attestation` writes comes back from `deserialize_attestation`.
use c_ssz.Common.{
  ℕ, suc, ◌+◌, ◌-◌, ◌/◌, ◌^◌, ◌≤◌, ◌<◌, ◌≡◌, refl, sym, ap, ap₂, ◌∙◌, arith, List, [], ◌∷◌, ◌++◌,
  append_assoc, append-nil, Option, some, none, Bool, false, done, ◌>>=◌,
}
use c_ssz.Common.{
  length, drop, replicate, length-append, length-drop, drop-append, eq-nil_of_length, lt→ltb,
  not-lt→ltb, memcpy-front,
}
use c_ssz.Types.{success}
use c_ssz.Host.{le_bytes, length-le_bytes}
use c_ssz.Bitfield.{bitlist_bytes}
use c_ssz.Deserialize.Bitfields.Bitlist.{deserialize_bitlist_lem}
use c_ssz.Generator.{of_read}
use c_ssz.Deserialize.Uints.{deserialize_uint32, deserialize_uint64}
use c_ssz.Generator.Input.{deserialize_fields}
use c_ssz.Generator.Codec.{Reads, AllReads, on_field-Reads, deserialize_fields-Reads, joined}
use c_ssz.Generator.Basic.{uint32-Deserializes, uint64-Deserializes}
use c_ssz.Attestation.{AttestationData, Attestation}
use c_ssz.Attestation.Buffer.{Reallocates}
use c_ssz.Attestation.Write.{serialize_attestation}
use c_ssz.Attestation.Read.{
  zero_attestation, read_uint64, read_bytes, set_body, set_source, set_target, fixed_fields,
  read_aggregation_bits, read_attestation, deserialize_attestation,
}
use c_ssz.Attestation.Layout.{IsData, data_fields, fixed_part, attestation_bytes}
use c_ssz.Attestation.Written.{
  with_bits, length-fixed_part, length-attestation_bytes, serialize_attestation_lem,
}

read_uint64-Reads : (v old : ℕ) → v < 2 ^ 64 → Reads read_uint64 (le_bytes 8 v) old v
unfolding read_uint64
read_uint64-Reads v old small pre post room =
    rw (drop-append pre (le_bytes 8 v ++ post))
      (rw one_number (ap (λ (k : ℕ). done (success, k, v)) (omega (arith, length-le_bytes 8 v))))
  where
    one_number :
        (deserialize_uint64 (some (le_bytes 8 v ++ post)) 8 (some old) >>= of_read)
        ≡ done (success, v)
    one_number =
        ap (λ (n : ℕ). deserialize_uint64 (some (le_bytes 8 v ++ post)) n (some old) >>= of_read)
          (sym (length-le_bytes 8 v))
        ∙ uint64-Deserializes v old small post

read_bytes-Reads :
    (n : ℕ) (bs old : List ℕ) → length bs ≡ n → length old ≡ n → Reads (read_bytes n) bs old bs
unfolding read_bytes
read_bytes-Reads n bs old e eo pre post room =
    rw (drop-append pre (bs ++ post), memcpy-front old bs post n (sym e) (omega (arith, eo)))
      (ap₂ (λ (k : ℕ) t. done (success, k, t)) (omega (arith, e))
        (ap (λ t. bs ++ t) (eq-nil_of_length (drop n old) (omega (arith, length-drop n old, eo)))
          ∙ append-nil bs))

-- The object when its fixed part is read.
abbrev fixed_object : AttestationData → List ℕ → Attestation
fixed_object body signature = record {
  aggregation_bits = record { count = 0; bits = none };
  body = body;
  signature = signature;
}

fixed_fields-AllReads :
    (body : AttestationData) (signature : List ℕ)
    → IsData body
    → length signature ≡ 96
    → AllReads fixed_fields
        (data_fields body ++ (signature ∷ []))
        zero_attestation
        (fixed_object body signature)
unfolding fixed_fields zero_attestation
fixed_fields-AllReads body signature (hs, hi, hb, (he, hr), (he', hr')) e = (
  m1,
  on_field-Reads _ _ _ _ _ _ (read_uint64-Reads (body.slot) 0 hs),
  (
    m2,
    on_field-Reads _ _ _ _ _ _ (read_uint64-Reads (body.index) 0 hi),
    (
      m3,
      on_field-Reads _ _ _ _ _ _
          (read_bytes-Reads 32 (body.beacon_block_root) (replicate 32 0) hb refl),
      (
        m4,
        on_field-Reads _ _ _ _ _ _ (read_uint64-Reads (body.source.epoch) 0 he),
        (
          m5,
          on_field-Reads _ _ _ _ _ _
              (read_bytes-Reads 32 (body.source.root) (replicate 32 0) hr refl),
          (
            m6,
            on_field-Reads _ _ _ _ _ _ (read_uint64-Reads (body.target.epoch) 0 he'),
            (
              m7,
              on_field-Reads _ _ _ _ _ _
                  (read_bytes-Reads 32 (body.target.root) (replicate 32 0) hr' refl),
              (
                fixed_object body signature,
                on_field-Reads _ _ _ _ _ _ (read_bytes-Reads 96 signature (replicate 96 0) e refl),
                refl,
              ),
            ),
          ),
        ),
      ),
    ),
  ),
)
  where
    m1 : Attestation
    m1 = set_body (λ b. record b { slot = body.slot }) zero_attestation

    m2 : Attestation
    m2 = set_body (λ b. record b { index = body.index }) m1

    m3 : Attestation
    m3 = set_body (λ b. record b { beacon_block_root = body.beacon_block_root }) m2

    m4 : Attestation
    m4 = set_source (λ cp. record cp { epoch = body.source.epoch }) m3

    m5 : Attestation
    m5 = set_source (λ cp. record cp { root = body.source.root }) m4

    m6 : Attestation
    m6 = set_target (λ cp. record cp { epoch = body.target.epoch }) m5

    m7 : Attestation
    m7 = set_target (λ cp. record cp { root = body.target.root }) m6

module _ (body : AttestationData) (signature : List ℕ) (bits : List Bool) (rest : List ℕ)
    (good : IsData body) (e : length signature ≡ 96) where
  abbrev fields : List (List ℕ)
  fields = data_fields body ++ (signature ∷ [])

  abbrev buffer : List ℕ
  buffer = attestation_bytes body signature bits ++ rest

  fixed_fields-part : joined fields ≡ fixed_part body signature
  fixed_fields-part = simp (append_assoc, append-nil)

  by_parts : buffer ≡ le_bytes 4 228 ++ (joined fields ++ (bitlist_bytes bits ++ rest))
  by_parts =
      append_assoc (le_bytes 4 228 ++ fixed_part body signature) (bitlist_bytes bits) rest
      ∙ append_assoc (le_bytes 4 228) (fixed_part body signature) (bitlist_bytes bits ++ rest)
      ∙ ap (λ t. le_bytes 4 228 ++ (t ++ (bitlist_bytes bits ++ rest))) (sym fixed_fields-part)

  length-fields : length (joined fields) ≡ 224
  length-fields = ap length fixed_fields-part ∙ length-fixed_part body signature good e

  fixed_part_lem :
      deserialize_fields fixed_fields buffer 4 zero_attestation
      ≡ done (success, 228, fixed_object body signature)
  fixed_part_lem =
      ap₂ (λ t (n : ℕ). deserialize_fields fixed_fields t n zero_attestation) by_parts
        (sym (length-le_bytes 4 228))
      ∙ deserialize_fields-Reads fixed_fields fields zero_attestation (fixed_object body signature)
          (fixed_fields-AllReads body signature good e) (le_bytes 4 228)
          (bitlist_bytes bits ++ rest) (omega (arith, length-le_bytes 4 228, length-fields))
      ∙ ap (λ (n : ℕ). done (success, n, fixed_object body signature))
          (omega (arith, length-le_bytes 4 228, length-fields))

  behind_offset : drop 228 buffer ≡ bitlist_bytes bits ++ rest
  behind_offset =
      ap₂ (λ (n : ℕ) t. drop n t) place
        (append_assoc (le_bytes 4 228 ++ fixed_part body signature) (bitlist_bytes bits) rest)
      ∙ drop-append (le_bytes 4 228 ++ fixed_part body signature) (bitlist_bytes bits ++ rest)
    where
      place : 228 ≡ length (le_bytes 4 228 ++ fixed_part body signature)
      place = omega (
        arith,
        length-append (le_bytes 4 228) (fixed_part body signature),
        length-le_bytes 4 228,
        length-fixed_part body signature good e,
      )

  offset_lem : (deserialize_uint32 (some buffer) 4 (some 0) >>= of_read) ≡ done (success, 228)
  offset_lem =
      ap₂ (λ t (n : ℕ). deserialize_uint32 (some t) n (some 0) >>= of_read) by_parts
        (sym (length-le_bytes 4 228))
      ∙ uint32-Deserializes 228 0 (omega arith) (joined fields ++ (bitlist_bytes bits ++ rest))

  deserialize_attestation_lem :
      (cells : List Bool) (malloc : ℕ → Option (List Bool)) (out : Attestation)
      → length bits < 2048
      → malloc 2048 ≡ some cells
      → length cells ≡ 2048
      → deserialize_attestation malloc buffer (length (attestation_bytes body signature bits)) out
        ≡ done (success, with_bits body signature bits (replicate (2048 - length bits) false))
  unfolding deserialize_attestation read_attestation read_aggregation_bits
  deserialize_attestation_lem cells malloc out few given room =
      rw (length-attestation_bytes body signature bits good e) (
        rw
          (
            offset_lem,
            not-lt→ltb (228 + count) 4 (omega arith),
            not-lt→ltb (228 + count) 228 (omega arith),
          )
          (rw (fixed_part_lem, lt→ltb 228 (228 + count) (omega arith), given)
            (rw (behind_offset, size)
              (rw
                (deserialize_bitlist_lem bits rest 2048 cells (omega arith) (omega (arith, room)) 0
                  (omega arith) (omega arith))
                (ap (λ t. done (success, with_bits body signature bits t)) all_clear)))))
    where
      count : ℕ
      count = suc (length bits / 8)

      size : 228 + count - 228 ≡ count
      size = omega arith

      all_clear :
          replicate (2048 - length bits) false ++ drop 2048 cells
          ≡ replicate (2048 - length bits) false
      all_clear =
          ap (λ t. replicate (2048 - length bits) false ++ t)
            (eq-nil_of_length (drop 2048 cells) (omega (arith, room, length-drop 2048 cells)))
          ∙ append-nil (replicate (2048 - length bits) false)

-- If `realloc` and `malloc` find memory and a local array of `n` bytes has `n` cells: an Attestation
-- whose numbers have 64 bits, whose roots have 32 bytes and its signature 96, with fewer than 2048 bits,
-- that `serialize_attestation` writes to a buffer with room for its encoding, comes back from
-- `deserialize_attestation`, told the number of bytes that was reported, with the cells behind its bits
-- cleared.
pub attestation_round_trip :
    (body : AttestationData) (signature : List ℕ) (bits : List Bool)
    (realloc : List ℕ → ℕ → Option (List ℕ)) (stack : ℕ → List ℕ)
    → Reallocates realloc
    → ((n : ℕ) → length (stack n) ≡ n)
    → (spare cells : List Bool) (malloc : ℕ → Option (List Bool)) (old : List ℕ) (size actual : ℕ)
      (out : Attestation)
    → IsData body
    → length signature ≡ 96
    → length bits < 2048
    → malloc 2048 ≡ some cells
    → length cells ≡ 2048
    → 229 + length bits / 8 ≤ size
    → size ≤ length old
    → (written : List ℕ) × (serialize_attestation realloc stack
          (with_bits body signature bits spare)
          old
          size
          actual
        ≡ done (success, written, 229 + length bits / 8))
      × (deserialize_attestation malloc written (229 + length bits / 8) out
          ≡ done (success, with_bits body signature bits (replicate (2048 - length bits) false)))
attestation_round_trip body signature bits realloc stack memory sized spare cells malloc old size
      actual out good e few given room space fits =
    (
      attestation_bytes body signature bits
          ++ drop (length (attestation_bytes body signature bits)) old,
      serialize_attestation_lem realloc stack memory sized body signature bits spare old size actual
            good e few fits
          ∙ rw
              (not-lt→ltb size (length (attestation_bytes body signature bits))
                (omega (arith, count)))
              (ap
                (λ (n : ℕ). done (
                  success,
                  attestation_bytes body signature bits
                      ++ drop (length (attestation_bytes body signature bits)) old,
                  n,
                ))
                count),
      ap
            (λ (n : ℕ).
              deserialize_attestation malloc
                (attestation_bytes body signature bits
                  ++ drop (length (attestation_bytes body signature bits)) old)
                n out)
            (sym count)
          ∙ deserialize_attestation_lem body signature bits
              (drop (length (attestation_bytes body signature bits)) old) good e cells malloc out
              few given room,
    )
  where
    count : length (attestation_bytes body signature bits) ≡ 229 + length bits / 8
    count = omega (arith, length-attestation_bytes body signature bits good e)
