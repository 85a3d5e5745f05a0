-- ===== src/Merkle/PackBits.antt =====
-- `ssz_pack_bits` fills chunks with the bytes of a bitvector.
use c_ssz.Common.{
  ℕ, ◌+◌, ◌-◌, ◌*◌, ◌/◌, ◌^◌, ◌≤◌, ◌<◌, ◌≡◌, refl, sym, ap, ◌∙◌, arith, List, ◌++◌, Option, some,
  none, Bool,
}
use c_ssz.Common.{
  length, drop, replicate, length-append, length-replicate, inl, inr, Bool-cases, leb, ◌==◌, ne→==,
  if◌then◌else◌, Run, done, ◌>>=◌, memset, sz, ◌>>>◌, stores-front,
}
use c_ssz.Types.{success, error_merkleization}
use c_ssz.Host.{length-le_bytes}
use c_ssz.Bitfield.{bitvector_bytes, bits_value}
use c_ssz.Serialize.Bitfields.Bitvector.{pack_bitvector_lem}
use c_ssz.Merkle.{Packed, bitfield_object, fill_bitfield, ssz_pack_bits, ssz_pack}
use c_ssz.Merkle.Pack.{chunks_of, ssz_pack_lem}

abbrev zeros : ℕ → List ℕ
zeros n = replicate n 0

module _ (malloc : ℕ → Option (List ℕ))
    (gives : (n : ℕ) → (o : List ℕ) × (malloc n ≡ some o) × (length o ≡ n)) (small_buf : List ℕ)
    (sized : length small_buf ≡ 256) where
  -- The memory for the bytes, on the stack or from `malloc`, has room for them.
  bitfield_object_lem :
      (count : ℕ)
      → (o : List ℕ) × (bitfield_object malloc small_buf count ≡ some o) × (count ≤ length o)
  unfolding bitfield_object
  bitfield_object_lem count = elim (Bool-cases (leb count 256)) [
    | inl small ↦ (small_buf, rw small refl, ground (arith, sized))
    | inr large ↦ let (o, given, size) = gives count in (o, rw large given, omega (arith, size))
  ]

  module _ (bs rest : List Bool) (some_bit : 0 < length bs) where
    abbrev count : ℕ
    count = (length bs + 7) / 8

    length-bytes : length (bitvector_bytes bs) ≡ count
    unfolding bitvector_bytes
    length-bytes = length-le_bytes count (bits_value bs)

    fill_bitfield_lem :
        (o : List ℕ)
        → count ≤ length o
        → (tail : List ℕ) × (fill_bitfield malloc (bs ++ rest) (length bs) count o
            ≡ done (bitvector_bytes bs ++ tail))
    unfolding fill_bitfield memset
    fill_bitfield_lem o room = (
      drop (length (bitvector_bytes bs)) (zeros count ++ drop (length (zeros count)) o),
      rw
          (
            ne→== (length bs) 0 (omega arith),
            stores-front o (zeros count) (omega (arith, zero_count)),
          )
          (pack_bitvector_lem bs rest (zeros count ++ drop (length (zeros count)) o)
            ∙ stores-front (zeros count ++ drop (length (zeros count)) o) (bitvector_bytes bs) (
                omega (
                  arith,
                  length-bytes,
                  zero_count,
                  length-append (zeros count) (drop (length (zeros count)) o),
                ))),
    )
      where
        zero_count : length (zeros count) ≡ count
        zero_count = length-replicate {A = ℕ} count 0

    -- For one bit or more, short of the wrap of `bit_count + 7`, an output with room for the chunks, and
    -- with memory for the bytes: `ssz_pack_bits` succeeds, writes the bytes of the bitvector of the bits and
    -- zeros behind them up to the end of the last chunk, leaves the memory behind it, and reports the
    -- number of chunks.
    pub ssz_pack_bits_lem :
        (out : List ℕ) (told : ℕ)
        → length bs + 7 < 2 ^ 64
        → chunks_of count * 32 ≤ length out
        → ssz_pack_bits malloc small_buf (bs ++ rest) (length bs) out told
          ≡ done (
            success,
            bitvector_bytes bs
                ++ (zeros (chunks_of count * 32 - count) ++ drop (chunks_of count * 32) out),
            chunks_of count,
          )
    unfolding ssz_pack_bits
    ssz_pack_bits_lem out told small room =
        let (o, given, fits) = bitfield_object_lem count in
        let (tail, filled) = fill_bitfield_lem o fits in
        ap (λ (n : ℕ). with_length n) bytes
        ∙ rw given (
            rw filled (
              ap (λ (n : ℕ). ssz_pack (bitvector_bytes bs ++ tail) 1 n out told) (sym length-bytes)
              ∙ ssz_pack_lem (bitvector_bytes bs) tail out (omega (arith, length-bytes, room)) 1
                  (length (bitvector_bytes bs)) told (omega arith) (omega (arith, length-bytes))
              ∙ ap
                  (λ (n : ℕ). done (
                    success,
                    bitvector_bytes bs
                        ++ (zeros (chunks_of n * 32 - n) ++ drop (chunks_of n * 32) out),
                    chunks_of n,
                  ))
                  length-bytes))
      where
        bytes : (if length bs == 0 then 1 else sz (length bs + 7) >>> 3) ≡ count
        bytes = rw (ne→== (length bs) 0 (omega arith)) (omega arith)

        with_length : ℕ → Run Packed
        with_length n = elim (bitfield_object malloc small_buf n) [
          | none ↦ done (error_merkleization, out, told)
          | some bitfield_bytes ↦ do
            filled ← fill_bitfield malloc (bs ++ rest) (length bs) n bitfield_bytes
            ssz_pack filled 1 n out told
        ]
