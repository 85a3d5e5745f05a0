-- ===== src/Serialize/Bitfields/Bitlist.antt =====
-- `ssz_serialize_bitlist` writes the bits and the end bit as one little-endian number.
use c_ssz.Common.{
  ℕ, zero, suc, ◌+◌, ◌*◌, ◌/◌, ◌%◌, ◌^◌, ◌≤◌, ◌<◌, ◌≡◌, refl, sym, ap, ◌∙◌, arith, bit_or,
}
use c_ssz.Common.{
  List, [], ◌∷◌, ◌++◌, append_assoc, some, Bool, true, length, length-append, take, drop,
}
use c_ssz.Common.{take-append-drop, length-take_of_le, length-drop, done, ◌>>=◌, >>=_congr, store}
use c_ssz.Common.{stores, ltb, if◌then◌else◌, u8, sz, ◌<<<◌, lt→leb, le→leb, eq→==, ne→==}
use c_ssz.Common.Bits.{bit_or_above}
use c_ssz.Host.{le_bytes, length-le_bytes}
use c_ssz.Bitfield.{bits_value, bits_value-lt, bits_value-append, bitlist_bytes, le_bytes-octet}
use c_ssz.Serialize.{rejected, finish}
use c_ssz.Serialize.Emit.{emit, emit_lem}
use c_ssz.Serialize.Bitfields.{bitlist_byte, bitlist_loop, serialize_bitlist}
use c_ssz.Serialize.Bitfields.Encode.{or_into-zero, read_front, loads_front, partial_byte_loop_lem}
use native.Mathlib.Nat.{pow-le-pow_right, lt_of_lt_of_le}

-- The end bit behind `bs` in a byte.
with_end-lt : (bs : List Bool) → length bs < 8 → bits_value (bs ++ true ∷ []) < 256
with_end-lt bs h =
    lt_of_lt_of_le (bits_value-lt (bs ++ true ∷ []))
      (pow-le-pow_right (omega arith) {j = 8} (omega (arith, length-append bs (true ∷ []))))

end_bit :
    (bs : List Bool)
    → length bs < 8
    → u8 (bit_or (bits_value bs) (1 <<< length bs)) ≡ bits_value (bs ++ true ∷ [])
end_bit bs h =
    rw (bit_or_above (length bs) (bits_value bs) 1 (bits_value-lt bs))
      (omega (arith, value, with_end-lt bs h))
  where
    value : bits_value (bs ++ true ∷ []) ≡ bits_value bs + 1 * 2 ^ length bs
    value = bits_value-append bs (true ∷ []) ∙ unfold bits_value in omega arith

-- The byte before the delimiter, where eight bits or more are left.
byte-full :
    (octet pre rest src : List Bool) (num_bits start : ℕ)
    → src ≡ pre ++ (octet ++ rest)
    → start ≡ length pre
    → length octet ≡ 8
    → start + 8 ≤ num_bits
    → bitlist_byte src num_bits start ≡ done (bits_value octet)
unfolding bitlist_byte
byte-full octet pre rest src num_bits start es ei eight h = rw (le→leb (start + 8) num_bits h) (
    rw (loads_front pre octet rest src start 8 es ei eight)
      (ap (λ (b : ℕ). done b) (or_into-zero octet (omega arith))))

-- And where fewer are.
byte-partial :
    (bs pre rest src : List Bool) (num_bits start : ℕ)
    → src ≡ pre ++ (bs ++ rest)
    → start ≡ length pre
    → start + length bs ≡ num_bits
    → length bs < 8
    → bitlist_byte src num_bits start ≡ done (bits_value bs)
unfolding bitlist_byte
byte-partial bs pre rest src num_bits start es ei en h =
    rw (lt→leb (start + 8) num_bits (omega arith)) (
      partial_byte_loop_lem bs pre rest src num_bits start 8 0 0 es (omega arith) (omega arith)
        (omega arith)
      ∙ ap (λ (b : ℕ). done b) (or_into-zero bs (omega arith)))

-- From byte `j` on, with `full` octets left and fewer than eight bits behind them.
bitlist_loop_lem :
    (full : ℕ) (bs pre rest src : List Bool) (num_bits j : ℕ) (out : List ℕ)
    → src ≡ pre ++ (bs ++ rest)
    → j * 8 ≡ length pre
    → j * 8 + length bs ≡ num_bits
    → full * 8 ≤ length bs
    → length bs < full * 8 + 8
    → bitlist_loop src num_bits (suc full) j out
      ≡ stores out j (le_bytes (suc full) (bits_value (bs ++ true ∷ [])))
unfolding bitlist_loop
bitlist_loop_lem zero bs pre rest src num_bits j out es ej en lo hi =
    rw
      (
        eq→== j (num_bits / 8) (omega arith),
        byte-partial bs pre rest src num_bits (j * 8) es ej en hi,
        last,
      )
      (unfold stores in ap (λ t. stores out j t) (sym one_byte))
  where
    last : u8 (bit_or (bits_value bs) (1 <<< (num_bits % 8))) ≡ bits_value (bs ++ true ∷ [])
    last = let e : num_bits % 8 ≡ length bs = omega arith in rw e (end_bit bs hi)

    one_byte : le_bytes 1 (bits_value (bs ++ true ∷ [])) ≡ bits_value (bs ++ true ∷ []) ∷ []
    one_byte = unfold le_bytes in ap (λ (b : ℕ). b ∷ []) (omega (arith, with_end-lt bs hi))
bitlist_loop_lem (suc full) bs pre rest src num_bits j out es ej en lo hi =
    rw
      (
        ne→== j (num_bits / 8) (omega arith),
        byte-full octet pre (others ++ rest) src num_bits (j * 8) split ej eight (omega arith),
      )
      (>>=_congr (store out j (bits_value octet)) _ _ (λ q.
          bitlist_loop_lem full others (pre ++ octet) rest src num_bits (j + 1) q
            (read_front pre octet (others ++ rest) src split)
            (omega (arith, length-append pre octet, eight)) (omega (arith, length-drop 8 bs))
            (omega (arith, length-drop 8 bs)) (omega (arith, length-drop 8 bs)))
        ∙ unfold stores in sym (ap (λ t. stores out j t) bytes))
  where
    octet : List Bool
    octet = take 8 bs

    others : List Bool
    others = drop 8 bs

    eight : length octet ≡ 8
    eight = length-take_of_le 8 bs (omega arith)

    split : src ≡ pre ++ (octet ++ (others ++ rest))
    split =
        es
        ∙ ap (λ t. pre ++ (t ++ rest)) (sym (take-append-drop 8 bs))
        ∙ ap (λ t. pre ++ t) (append_assoc octet others rest)

    bytes :
        le_bytes (suc (suc full)) (bits_value (bs ++ true ∷ []))
        ≡ bits_value octet ∷ le_bytes (suc full) (bits_value (others ++ true ∷ []))
    bytes =
        ap (λ t. le_bytes (suc (suc full)) (bits_value (t ++ true ∷ [])))
          (sym (take-append-drop 8 bs))
        ∙ ap (λ t. le_bytes (suc (suc full)) (bits_value t)) (append_assoc octet others (true ∷ []))
        ∙ le_bytes-octet (suc full) octet (others ++ true ∷ []) eight

-- For any bits, short of the wrap of `num_bits + 8`, and a buffer of at least the told size:
-- `ssz_serialize_bitlist` refuses a told size below that of the encoding and leaves everything as it
-- was, and otherwise writes the bytes of the number whose binary digits are the bits and a one above
-- them, leaves the cells behind, and reports the bytes' number.
pub serialize_bitlist_lem :
    (bs rest : List Bool) (buf : List ℕ) (size : ℕ)
    → length bs + 8 < 2 ^ 64
    → size ≤ length buf
    → serialize_bitlist (some (bs ++ rest)) (length bs) (some buf) (some size)
      ≡ emit (bitlist_bytes bs) buf size
unfolding serialize_bitlist
serialize_bitlist_lem bs rest buf size h fits =
    ap
      (λ (c : ℕ).
        if ltb size c
        then rejected buf size
        else (bitlist_loop (bs ++ rest) (length bs) c 0 buf >>= λ q. finish q c))
      byte_count
    ∙ ap (λ m. if ltb size (suc full) then rejected buf size else (m >>= λ q. finish q (suc full)))
        (bitlist_loop_lem full bs [] rest (bs ++ rest) (length bs) 0 buf refl refl (omega arith)
          (omega arith) (omega arith))
    ∙ unfold bitlist_bytes in
      emit_lem (bitlist_bytes bs) buf size (suc full) (length-le_bytes (suc full) _) fits
  where
    full : ℕ
    full = length bs / 8

    byte_count : sz (sz (length bs + 1) + 7) / 8 ≡ suc full
    byte_count = omega arith
