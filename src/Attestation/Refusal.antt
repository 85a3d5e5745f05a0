-- ===== src/Attestation/Refusal.antt =====
-- `deserialize_attestation` refuses input that is no Attestation by its sizes.
use c_ssz.Common.{
  ℕ, ◌-◌, ◌^◌, ◌≤◌, ◌<◌, ◌≡◌, ◌≢◌, ◌⊎◌, refl, sym, ap, ◌∙◌, arith, List, ◌++◌, Option, some, Bool,
  done, ◌>>=◌,
}
use c_ssz.Common.{inl, inr, Bool-cases, ltb, ne→==}
use c_ssz.Types.{success, error_deserialization}
use c_ssz.Host.{le_bytes, length-le_bytes}
use c_ssz.Deserialize.Uints.{deserialize_uint32}
use c_ssz.Generator.{of_read}
use c_ssz.Generator.Basic.{uint32-Deserializes}
use c_ssz.Attestation.{Attestation}
use c_ssz.Attestation.Read.{deserialize_attestation}

-- For input that begins with the four bytes of an offset: told a size below that of the offset with the
-- fixed part, 228, or where the offset is not 228, `deserialize_attestation` returns
-- SSZ_ERROR_DESERIALIZATION, reads nothing outside the input, and leaves the object as it was.
pub deserialize_attestation-refuses :
    (malloc : ℕ → Option (List Bool)) (offset : ℕ) (rest : List ℕ) (size : ℕ) (out : Attestation)
    → offset < 2 ^ 32
    → (size < 228) ⊎ (offset ≢ 228)
    → deserialize_attestation malloc (le_bytes 4 offset ++ rest) size out
      ≡ done (error_deserialization, out)
unfolding deserialize_attestation
deserialize_attestation-refuses malloc offset rest size out small wrong =
    elim (Bool-cases (ltb size 4)) [
      | inl short ↦ rw short refl
      | inr four ↦
          rw (four, offset_lem)
            (elim (Bool-cases (ltb size offset)) [
              | inl outside ↦ rw outside refl
              | inr inside ↦ rw inside (elim (Bool-cases (ltb offset 228)) [
                | inl early ↦ rw early refl
                | inr late ↦ rw late (elim (Bool-cases (ltb size 228)) [
                  | inl cut ↦ rw cut refl
                  | inr whole ↦
                      rw (whole, ne→== (offset - 4) 224 (elsewhere (ground arith) (ground arith)))
                        refl
                ])
              ])
            ])
    ]
  where
    offset_lem :
        (deserialize_uint32 (some (le_bytes 4 offset ++ rest)) 4 (some 0) >>= of_read)
        ≡ done (success, offset)
    offset_lem =
        ap (λ (n : ℕ). deserialize_uint32 (some (le_bytes 4 offset ++ rest)) n (some 0) >>= of_read)
          (sym (length-le_bytes 4 offset))
        ∙ uint32-Deserializes offset 0 small rest

    elsewhere : 228 ≤ size → 228 ≤ offset → offset - 4 ≢ 224
    elsewhere whole late e = elim wrong [ inl cut ↦ omega arith | inr other ↦ other (omega arith) ]
