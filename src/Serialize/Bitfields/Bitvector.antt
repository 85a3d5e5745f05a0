-- ===== src/Serialize/Bitfields/Bitvector.antt =====
-- `ssz_serialize_bitvector` writes the little-endian number of its bits.
use c_ssz.Common.{ℕ, suc, ◌+◌, ◌*◌, ◌/◌, ◌%◌, ◌^◌, ◌≤◌, ◌<◌, ◌≡◌, refl, sym, ap, ◌∙◌, arith}
use c_ssz.Common.{List, [], ◌∷◌, ◌++◌, append_assoc, append-nil, some, Bool, length}
use c_ssz.Common.{Run, ◌>>=◌, >>=_congr}
use c_ssz.Common.{store, stores, stores-append, ltb}
use c_ssz.Common.{ne→==, >>=-done, stores-one, eq-nil_of_length, inl, inr, Bool-cases, false}
use native.Mathlib.Nat.{mod-eq_of_lt}
use c_ssz.Host.{le_bytes, length-le_bytes}
use c_ssz.Bitfield.{bits_value, bitvector_bytes, octets, leftover, octets-leftover, length-octets}
use c_ssz.Bitfield.{length-leftover}
use c_ssz.Serialize.Emit.{emit, emit_lem}
use c_ssz.Serialize.Bitfields.{full_bytes_loop, pack_bitvector, serialize_bitvector}
use c_ssz.Serialize.Bitfields.Encode.{or_into-zero, loads_front, full_bytes_loop_lem, le_bytes-last}

module _ (bs rest : List Bool) (buf : List ℕ) where
  abbrev full : List Bool
  full = octets bs

  abbrev tail : List Bool
  tail = leftover bs

  split : bs ++ rest ≡ full ++ (tail ++ rest)
  split = ap (λ t. t ++ rest) (sym (octets-leftover bs)) ∙ append_assoc full tail rest

  front_bytes :
      full_bytes_loop (bs ++ rest) (length bs / 8) 0 0 buf
      ≡ stores buf 0 (le_bytes (length bs / 8) (bits_value full))
  front_bytes =
      full_bytes_loop_lem (length bs / 8) [] full (tail ++ rest) (bs ++ rest) 0 0 buf split refl
        (length-octets bs)

  -- A last byte behind the octets.
  last_store :
      (store_last : Run (List ℕ))
      → store_last ≡ (
          stores buf 0 (le_bytes (length bs / 8) (bits_value full)) >>= λ q.
          store q (length bs / 8) (bits_value tail))
      → store_last ≡ stores buf 0 (le_bytes (suc (length bs / 8)) (bits_value bs))
  last_store m e =
      e
      ∙ >>=_congr (stores buf 0 octet_bytes) _ _
          (λ q. sym (stores-one q (length bs / 8) (bits_value tail)))
      ∙ ap (λ (i : ℕ). stores buf 0 octet_bytes >>= λ q. stores q i (bits_value tail ∷ [])) place
      ∙ sym (stores-append buf 0 octet_bytes (bits_value tail ∷ []))
      ∙ ap (λ t. stores buf 0 t) bytes
    where
      octet_bytes : List ℕ
      octet_bytes = le_bytes (length bs / 8) (bits_value full)

      place : length bs / 8 ≡ 0 + length octet_bytes
      place = omega (arith, length-le_bytes (length bs / 8) (bits_value full))

      bytes : octet_bytes ++ bits_value tail ∷ [] ≡ le_bytes (suc (length bs / 8)) (bits_value bs)
      bytes =
          sym (
            le_bytes-last (length bs / 8) full tail (length-octets bs)
              (omega (arith, length-leftover bs)))
          ∙ ap (λ t. le_bytes (suc (length bs / 8)) (bits_value t)) (octets-leftover bs)

  pub pack_bitvector_lem :
      pack_bitvector (bs ++ rest) (length bs) buf ≡ stores buf 0 (bitvector_bytes bs)
  unfolding pack_bitvector bitvector_bytes
  pack_bitvector_lem = elim (Bool-cases (ltb 0 (length bs % 8))) [
    | inl some_left ↦
        rw
          (
            some_left,
            loads_front full tail rest (bs ++ rest) (length bs / 8 * 8) (length bs % 8) split
                (sym (length-octets bs)) (length-leftover bs),
            or_into-zero tail (omega (arith, length-leftover bs)),
            front_bytes,
          )
          (last_store _ refl
            ∙ ap (λ (c : ℕ). stores buf 0 (le_bytes c (bits_value bs))) (ground arith))
    | inr none_left ↦
        rw (none_left, front_bytes) (>>=-done _ ∙ ap (λ t. stores buf 0 t) (exact none_left))
  ]
    where
      exact :
          ltb 0 (length bs % 8) ≡ false
          → le_bytes (length bs / 8) (bits_value full)
            ≡ le_bytes ((length bs + 7) / 8) (bits_value bs)
      exact h =
          let count : length bs / 8 ≡ (length bs + 7) / 8 = ground arith in
          let no_tail = eq-nil_of_length tail (ground (arith, length-leftover bs)) in
          let whole =
            sym (append-nil full) ∙ ap (λ t. full ++ t) (sym no_tail) ∙ octets-leftover bs in
          ap (λ t. le_bytes (length bs / 8) (bits_value t)) whole
          ∙ ap (λ (c : ℕ). le_bytes c (bits_value bs)) count

-- For one bit or more, short of the wrap of `num_bits + 7`, and a buffer of at least the told size:
-- `ssz_serialize_bitvector` refuses a told size below that of the encoding and leaves everything as it
-- was, and otherwise writes the bytes of the number whose binary digits are the bits, leaves the cells
-- behind, and reports the bytes' number.
pub serialize_bitvector_lem :
    (bs rest : List Bool) (buf : List ℕ) (size : ℕ)
    → 0 < length bs
    → length bs + 7 < 2 ^ 64
    → size ≤ length buf
    → serialize_bitvector (some (bs ++ rest)) (length bs) (some buf) (some size)
      ≡ emit (bitvector_bytes bs) buf size
unfolding serialize_bitvector
serialize_bitvector_lem bs rest buf size pos h fits =
    rw (ne→== (length bs) 0 (omega arith), mod-eq_of_lt h)
      (rw (pack_bitvector_lem bs rest buf) (
        unfold bitvector_bytes in
        emit_lem (bitvector_bytes bs) buf size ((length bs + 7) / 8)
          (length-le_bytes ((length bs + 7) / 8) (bits_value bs)) fits))
