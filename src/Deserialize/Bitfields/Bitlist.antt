-- ===== src/Deserialize/Bitfields/Bitlist.antt =====
-- `ssz_deserialize_bitlist` gives back the bits of an encoding.
use c_ssz.Common.{
  ℕ, suc, ◌+◌, ◌-◌, ◌*◌, ◌/◌, ◌%◌, ◌^◌, ◌≤◌, ◌<◌, ◌≡◌, refl, sym, ap, ap₂, ◌∙◌, arith,
}
use c_ssz.Common.{
  bit_and, ◌<<<◌, Option, lt→ltb, not-lt→ltb, List, [], ◌∷◌, ◌++◌, append_assoc, some, Bool, true,
  false, length, take, drop, replicate,
}
use c_ssz.Common.{
  take-append-drop, length-take_of_le, length-drop, drop-drop, length-append, length-replicate,
  eq-nil_of_length, Run, done, ◌>>=◌, >>=_assoc, >>=_congr,
}
use c_ssz.Common.{
  load, load-append, stores, stores-append, stores_lem, memset, ltb, if◌then◌else◌, u8,
}
use c_ssz.Common.{ne→==, inl, inr, Bool-cases}
use native.Mathlib.Nat.{mod-eq_of_lt, pow-le-pow_right, pow-suc, one-le-pow}
use c_ssz.Types.{SszError, success}
use c_ssz.Host.{le_bytes, length-le_bytes}
use c_ssz.Utils.{highest_bit_table}
use c_ssz.Bitfield.{
  bits_value, bits_value-lt, bits_value-append, bitlist_bytes, octets, leftover, octets-leftover,
}
use c_ssz.Bitfield.{length-octets, length-leftover}
use c_ssz.Serialize.Bitfields.Encode.{le_bytes-last}
use c_ssz.Deserialize.Bitfields.{
  test_bits, unpack_loop, write_bits, zero_from, boundary_of, ssize, add_entry, boundary_loop,
  find_boundary, read_bitlist, deserialize_bitlist,
}
use c_ssz.Deserialize.Bitfields.Bits.{bit_and-mask, test_bits-front, unpack_loop_lem}
use c_ssz.Utils.Table.{highest_bit_table_lem}

-- The bits that a bitlist's last byte holds: those left, and the delimiter.
abbrev last_bits : List Bool → List Bool
last_bits bs = leftover bs ++ true ∷ []

-- The last byte's value: the bits left, and the delimiter above them.
last_byte :
    (bs : List Bool) → bits_value (last_bits bs) ≡ bits_value (leftover bs) + 2 ^ (length bs % 8)
unfolding bits_value
last_byte bs = bits_value-append (leftover bs) (true ∷ []) ∙ rw (length-leftover bs) (omega arith)

bitlist_bytes-last :
    (bs : List Bool)
    → bitlist_bytes bs
      ≡ le_bytes (length bs / 8) (bits_value (octets bs)) ++ bits_value (last_bits bs) ∷ []
unfolding bitlist_bytes
bitlist_bytes-last bs =
    ap (λ t. le_bytes (suc (length bs / 8)) (bits_value (t ++ true ∷ [])))
      (sym (octets-leftover bs))
    ∙ ap (λ t. le_bytes (suc (length bs / 8)) (bits_value t))
        (append_assoc (octets bs) (leftover bs) (true ∷ []))
    ∙ le_bytes-last (length bs / 8) (octets bs) (last_bits bs) (length-octets bs)
        (omega (arith, length-append (leftover bs) (true ∷ []), length-leftover bs))

module _ (bs : List Bool) (post : List ℕ) where
  abbrev q : ℕ
  q = length bs / 8

  abbrev buffer : List ℕ
  buffer = bitlist_bytes bs ++ post

  abbrev last : ℕ
  last = bits_value (last_bits bs)

  split : buffer ≡ le_bytes q (bits_value (octets bs)) ++ last ∷ post
  split =
      ap (λ t. t ++ post) (bitlist_bytes-last bs)
      ∙ append_assoc (le_bytes q (bits_value (octets bs))) (last ∷ []) post

  loaded : load buffer q ≡ done last
  loaded = rw split (
      load-append (le_bytes q (bits_value (octets bs))) last post q
        (sym (length-le_bytes q (bits_value (octets bs)))))

  low : bits_value (leftover bs) < 2 ^ (length bs % 8)
  low = rw (length-leftover bs) at (bits_value-lt (leftover bs))

  entry : load highest_bit_table last ≡ done (some (length bs % 8))
  entry =
      rw (last_byte bs)
        (highest_bit_table_lem (length bs % 8) (bits_value (leftover bs)) (omega arith) low)

  boundary_found : length bs < 2 ^ 63 → boundary_loop buffer (suc q) ≡ done (some (length bs))
  unfolding boundary_loop boundary_of ssize add_entry
  boundary_found h = rw loaded (
      rw (ne→== last 0 (omega (arith, last_byte bs, one-le-pow (length bs % 8) 2 (omega arith)))) (
        rw (entry, lt→ltb (q * 8) (2 ^ 63) (omega arith))
          (rw (lt→ltb (q * 8 + length bs % 8) (2 ^ 63) (omega arith))
            (ap (λ (n : ℕ). done (some n)) (omega arith)))))

  found : length bs < 2 ^ 63 → find_boundary buffer (suc q) ≡ done (some (length bs))
  unfolding find_boundary
  found h = rw (lt→ltb (suc q) (2 ^ 63) (omega arith)) (boundary_found h)

  masked : bit_and last (255 - u8 ((1 <<< (length bs % 8 + 1)) - 1)) ≡ 0
  masked = rw (mod-eq_of_lt small) (bit_and-mask (length bs % 8 + 1) last (omega arith) below)
    where
      top : length bs % 8 + 1 ≤ 8
      top = omega arith

      small : (1 <<< (length bs % 8 + 1)) - 1 < 2 ^ 8
      small = omega (
        arith,
        one-le-pow (length bs % 8 + 1) 2 (omega arith),
        pow-le-pow_right {n = 2} (omega arith) {j = 8} top,
      )

      below : last < 2 ^ (length bs % 8 + 1)
      below = omega (
        arith,
        last_byte bs,
        low,
        pow-suc 2 (length bs % 8),
        ap (λ (n : ℕ). 2 ^ n) (the_suc (length bs % 8)),
      )
        where
          the_suc : (k : ℕ) → k + 1 ≡ suc k
          the_suc k = omega arith

  module _ (max_bits : ℕ) (old : List Bool) (within : length bs ≤ max_bits)
      (room : max_bits ≤ length old) where
    -- The output array behind the data bits after the call.
    abbrev behind : List Bool
    behind = replicate (max_bits - length bs) false ++ drop max_bits old

    abbrev cleared : List Bool
    cleared = take (length bs) old ++ behind

    long : length (take (length bs) old) ≡ length bs
    long = length-take_of_le (length bs) old (omega arith)

    cleared_lem :
        (if ltb (length bs) max_bits
          then memset old (length bs) false (max_bits - length bs)
          else done old)
        ≡ done cleared
    unfolding memset
    cleared_lem = elim (Bool-cases (ltb (length bs) max_bits)) [
      | inl more ↦ rw more (
          rw (split_old) at (
            stores_lem (take (length bs) old) (take gap (drop (length bs) old))
              (drop gap (drop (length bs) old)) (length bs) (replicate gap false) (sym long)
              (omega (arith, length-replicate gap false, enough)))
          ∙ ap (λ t. done (take (length bs) old ++ (replicate gap false ++ t))) tail)
      | inr full ↦
          let none_left : 0 ≡ gap = ground arith in
          let same : length bs ≡ max_bits = ground arith in
          rw full (
            ap done (
              sym (take-append-drop (length bs) old)
              ∙ ap₂ (λ (g m : ℕ). take (length bs) old ++ (replicate g false ++ drop m old))
                  none_left same))
    ]
      where
        gap : ℕ
        gap = max_bits - length bs

        split_old :
            take (length bs) old
              ++ (take gap (drop (length bs) old) ++ drop gap (drop (length bs) old))
            ≡ old
        split_old =
            ap (λ t. take (length bs) old ++ t) (take-append-drop gap (drop (length bs) old))
            ∙ take-append-drop (length bs) old

        enough : length (take gap (drop (length bs) old)) ≡ gap
        enough =
            length-take_of_le gap (drop (length bs) old)
              (omega (arith, length-drop (length bs) old))

        tail : drop gap (drop (length bs) old) ≡ drop max_bits old
        tail = drop-drop (length bs) gap old ∙ ap (λ (n : ℕ). drop n old) (omega arith)

    all_stored : stores cleared 0 bs ≡ done (bs ++ behind)
    all_stored = stores_lem [] (take (length bs) old) behind 0 bs refl (sym long)

    unpacked : unpack_loop buffer q 0 cleared ≡ stores cleared 0 (octets bs)
    unpacked =
        unpack_loop_lem q (octets bs) [] (last ∷ post) buffer 0 cleared split refl
          (length-octets bs)

    tested : test_bits last 0 (length bs % 8) ≡ leftover bs
    tested =
        ap (λ (n : ℕ). test_bits last 0 n) (sym (length-leftover bs))
        ∙ test_bits-front (leftover bs) (true ∷ []) (omega (arith, length-leftover bs))

    abbrev result : List Bool → Run (SszError × Option (List Bool) × Option ℕ)
    result out = done (success, some out, some (length bs))

    -- After the full bytes come the bits left; there may be none.
    rest_stored :
        (o : List Bool)
        → (if ltb 0 (length bs % 8)
            then (load buffer q >>= λ val.
                stores o (q * 8) (test_bits val 0 (length bs % 8)) >>= result)
            else result o)
          ≡ (stores o (q * 8) (leftover bs) >>= result)
    rest_stored o = elim (Bool-cases (ltb 0 (length bs % 8))) [
      | inl some_left ↦ rw (some_left, loaded) (rw tested refl)
      | inr none_left ↦
          let no_bits : leftover bs ≡ [] =
            eq-nil_of_length (leftover bs) (ground (arith, length-leftover bs)) in
          rw (none_left, no_bits) (unfold stores in refl)
    ]

    written : write_bits buffer max_bits (length bs) old ≡ result (bs ++ behind)
    unfolding write_bits
    written =
        rw (cleared_lem, unpacked)
          (>>=_congr (stores cleared 0 (octets bs)) _ _ rest_stored
            ∙ sym (
                >>=_assoc (stores cleared 0 (octets bs)) (λ o. stores o (q * 8) (leftover bs))
                  result)
            ∙ ap (λ m. m >>= result)
                (ap (λ (n : ℕ). stores cleared 0 (octets bs) >>= λ o. stores o n (leftover bs))
                    place
                  ∙ sym (stores-append cleared 0 (octets bs) (leftover bs))
                  ∙ ap (λ t. stores cleared 0 t) (octets-leftover bs)
                  ∙ all_stored))
      where
        place : q * 8 ≡ 0 + length (octets bs)
        place = omega (arith, length-octets bs)

    read :
        (actual : ℕ)
        → read_bitlist buffer (suc q) max_bits (length bs) old actual ≡ result (bs ++ behind)
    unfolding read_bitlist zero_from
    read actual =
        rw
          (
            not-lt→ltb max_bits (length bs) within,
            not-lt→ltb (q + 1) (suc q) (omega arith),
            loaded,
            masked,
          )
          written

    -- Of a bitlist within the limit, with fewer than 2 ^ 63 bits: from its encoding, told with its exact size, the bits come back
    -- with their number, and the cells behind them up to the limit are cleared.
    pub deserialize_bitlist_lem :
        (actual : ℕ)
        → max_bits + 8 < 2 ^ 64
        → length bs < 2 ^ 63
        → deserialize_bitlist (some buffer) (suc (length bs / 8)) max_bits (some old) (some actual)
          ≡ done (success, some (bs ++ behind), some (length bs))
    unfolding deserialize_bitlist zero_from
    deserialize_bitlist_lem actual h addressed =
        rw
          (
            mod-eq_of_lt h,
            ne→== (suc q) 0 (omega arith),
            not-lt→ltb ((max_bits + 8) / 8) (suc q) (omega arith),
          )
          (rw (found addressed) (
            rw (mod-eq_of_lt h, not-lt→ltb ((max_bits + 8) / 8) (suc q) (omega arith))
              (read actual)))
