-- ===== src/Deserialize/Bitfields/Bitvector.antt =====
-- `ssz_deserialize_bitvector` gives back the bits of an encoding.
use c_ssz.Common.{
  ℕ, suc, ◌+◌, ◌-◌, ◌*◌, ◌/◌, ◌%◌, ◌^◌, ◌≤◌, ◌<◌, ◌≡◌, refl, sym, ap, ap₂, ◌∙◌, arith,
}
use c_ssz.Common.{
  bit_and, ◌<<<◌, Option, stores_after, lt→ltb, not-lt→ltb, List, [], ◌∷◌, ◌++◌, append_assoc, some,
  Bool, not, length, drop,
}
use c_ssz.Common.{Run, done}
use c_ssz.Common.{load, load-append, stores, stores-front, ◌==◌, if◌then◌else◌, sz}
use c_ssz.Common.{inl, inr}
use native.Mathlib.Nat.{mod-eq_of_lt, eq-zero-or-pos}
use c_ssz.Types.{SszError, success, error_deserialization}
use c_ssz.Host.{le_bytes, length-le_bytes}
use c_ssz.Bitfield.{bits_value, bits_value-lt, bitvector_bytes, octets, leftover, octets-leftover}
use c_ssz.Bitfield.{length-octets, length-leftover, octets_whole}
use c_ssz.Serialize.Bitfields.Encode.{le_bytes-last}
use c_ssz.Deserialize.Bitfields.{test_bits, unpack_loop, deserialize_bitvector}
use c_ssz.Deserialize.Bitfields.Bits.{bit_and-mask, test_bits-zero, unpack_loop_lem}

-- The bytes of an encoding that does not end with a full byte.
pub bitvector_bytes-last :
    (bs : List Bool)
    → 0 < length bs % 8
    → bitvector_bytes bs
      ≡ le_bytes (length bs / 8) (bits_value (octets bs)) ++ bits_value (leftover bs) ∷ []
unfolding bitvector_bytes
bitvector_bytes-last bs h =
    ap (λ t. le_bytes ((length bs + 7) / 8) (bits_value t)) (sym (octets-leftover bs))
    ∙ ap (λ (c : ℕ). le_bytes c (bits_value (octets bs ++ leftover bs))) count
    ∙ le_bytes-last (length bs / 8) (octets bs) (leftover bs) (length-octets bs)
        (omega (arith, length-leftover bs))
  where
    count : (length bs + 7) / 8 ≡ suc (length bs / 8)
    count = omega arith

module _ (bs : List Bool) (post : List ℕ) (old : List Bool) (pos : 0 < length bs)
    (small : length bs + 7 < 2 ^ 64) (room : length bs ≤ length old) where
  abbrev q : ℕ
  q = length bs / 8

  abbrev front : List Bool
  front = octets bs ++ drop (q * 8) old

  front_stored : stores old 0 (octets bs) ≡ done front
  front_stored =
      stores-front old (octets bs) (omega (arith, length-octets bs))
      ∙ ap (λ (n : ℕ). done (octets bs ++ drop n old)) (length-octets bs)

  -- The leftover bits go behind those of the full bytes.
  all_stored : stores front (q * 8) (leftover bs) ≡ done (bs ++ drop (length bs) old)
  all_stored =
      ap (λ (n : ℕ). stores front n (leftover bs)) (sym (length-octets bs))
      ∙ stores_after old front (octets bs) (leftover bs) front_stored
      ∙ ap (λ t. stores old 0 t) (octets-leftover bs)
      ∙ stores-front old bs room

  guards :
      (m : Run (SszError × Option (List Bool)))
      → (if length bs == 0
          then done (error_deserialization, some old)
          else if not (sz (length bs + 7) / 8 == (length bs + 7) / 8)
          then done (error_deserialization, some old)
          else m)
        ≡ m
  guards m = rw (mod-eq_of_lt small) (ground arith)

  ends_in_part :
      0 < length bs % 8
      → deserialize_bitvector
          (some (bitvector_bytes bs ++ post))
          ((length bs + 7) / 8)
          (length bs)
          (some old)
        ≡ done (success, some (bs ++ drop (length bs) old))
  unfolding deserialize_bitvector
  ends_in_part h =
      guards _
      ∙ rw (unpacked, lt→ltb 0 (length bs % 8) h) (rw loaded (rw (masked, tested) (rw all_stored)))
    where
      buffer : List ℕ
      buffer = bitvector_bytes bs ++ post

      split : buffer ≡ le_bytes q (bits_value (octets bs)) ++ bits_value (leftover bs) ∷ post
      split =
          ap (λ t. t ++ post) (bitvector_bytes-last bs h)
          ∙ append_assoc (le_bytes q (bits_value (octets bs))) (bits_value (leftover bs) ∷ []) post

      unpacked : unpack_loop buffer q 0 old ≡ done front
      unpacked =
          unpack_loop_lem q (octets bs) [] (bits_value (leftover bs) ∷ post) buffer 0 old split refl
            (length-octets bs)
          ∙ front_stored

      loaded : load buffer q ≡ done (bits_value (leftover bs))
      loaded = rw split (
          load-append (le_bytes q (bits_value (octets bs))) (bits_value (leftover bs)) post q
            (sym (length-le_bytes q (bits_value (octets bs)))))

      masked : bit_and (bits_value (leftover bs)) (255 - ((1 <<< (length bs % 8)) - 1)) ≡ 0
      masked =
          bit_and-mask (length bs % 8) (bits_value (leftover bs)) (omega arith)
            (rw (length-leftover bs) at (bits_value-lt (leftover bs)))

      tested : test_bits (bits_value (leftover bs)) 0 (length bs % 8) ≡ leftover bs
      tested =
          rw (length-leftover bs) at
            (test_bits-zero (leftover bs) (omega (arith, length-leftover bs)))

  ends_full :
      length bs % 8 ≡ 0
      → deserialize_bitvector
          (some (bitvector_bytes bs ++ post))
          ((length bs + 7) / 8)
          (length bs)
          (some old)
        ≡ done (success, some (bs ++ drop (length bs) old))
  unfolding deserialize_bitvector
  ends_full h =
      guards _
      ∙ rw (unpacked, not-lt→ltb 0 (length bs % 8) (omega arith))
          (ap (λ t. done (success, some t)) front_whole)
    where
      count : (length bs + 7) / 8 ≡ q
      count = omega arith

      bytes : bitvector_bytes bs ≡ le_bytes q (bits_value (octets bs))
      bytes =
          unfold bitvector_bytes in
          ap (λ (c : ℕ). le_bytes c (bits_value bs)) count
          ∙ ap (λ t. le_bytes q (bits_value t)) (sym (octets_whole bs h))

      unpacked : unpack_loop (bitvector_bytes bs ++ post) q 0 old ≡ done front
      unpacked =
          unpack_loop_lem q (octets bs) [] post (bitvector_bytes bs ++ post) 0 old
            (ap (λ t. t ++ post) bytes) refl (length-octets bs)
          ∙ front_stored

      front_whole : front ≡ bs ++ drop (length bs) old
      front_whole = ap₂ (λ t n. t ++ drop n old) (octets_whole bs h) (omega arith)

-- A bitvector of at least one bit: from its encoding, told with its exact size, the bits come back,
-- and the cells of the output behind them stay.
pub deserialize_bitvector_lem :
    (bs : List Bool) (post : List ℕ) (old : List Bool)
    → 0 < length bs
    → length bs + 7 < 2 ^ 64
    → length bs ≤ length old
    → deserialize_bitvector
        (some (bitvector_bytes bs ++ post))
        ((length bs + 7) / 8)
        (length bs)
        (some old)
      ≡ done (success, some (bs ++ drop (length bs) old))
deserialize_bitvector_lem bs post old pos small room = elim (eq-zero-or-pos (length bs % 8)) [
  | inl whole ↦ ends_full bs post old pos small room whole
  | inr part ↦ ends_in_part bs post old pos small room part
]
