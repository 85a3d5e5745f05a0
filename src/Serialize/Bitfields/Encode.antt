-- ===== src/Serialize/Bitfields/Encode.antt =====
-- The bit serializers write the little-endian number of their bits, a bitlist with the end bit.
use c_ssz.Common.{ℕ, zero, suc, ◌+◌, ◌*◌, ◌^◌, ◌≤◌, ◌<◌, ◌≡◌, refl, sym, ap, ◌∙◌, arith, bit_or}
use c_ssz.Common.{List, [], ◌∷◌, ◌++◌, append_assoc, Bool, length, length-append, take, drop}
use c_ssz.Common.{take-append-drop, length-take_of_le, length-drop}
use c_ssz.Common.{done, >>=_congr, load, loads, loads_lem, store, stores}
use c_ssz.Common.{u8, ◌<<<◌, load-append}
use native.Mathlib.Nat.{pow-le-pow_right, lt_of_lt_of_le}
use native.Mathlib.Numerals.{towards_suc}
use c_ssz.Common.{Bool-cases, lt→leb}
use c_ssz.Common.Bits.{bit_or_above}
use c_ssz.Host.{le_bytes}
use c_ssz.Bitfield.{bits_value, bits_value-lt}
use c_ssz.Bitfield.{le_bytes-octet}
use c_ssz.Serialize.Uints.{bit}
use c_ssz.Serialize.Bitfields.{or_into, full_bytes_loop, partial_byte_loop}

-- Bits joined to a byte by `|` are added to it, at their places.
pub or_into_lem :
    (bs : List Bool) (byte k : ℕ)
    → byte < 2 ^ k
    → k + length bs ≤ 8
    → or_into byte k bs ≡ byte + 2 ^ k * bits_value bs
unfolding or_into bits_value
or_into_lem [] byte k h fits = omega arith
or_into_lem (b ∷ bs) byte k h fits = rw joined (
    or_into_lem bs (byte + bit b * 2 ^ k) (k + 1) below (omega arith)
    ∙ omega (arith, ap (λ (t : ℕ). t * bits_value bs) (double k)))
  where
    double : (j : ℕ) → 2 ^ (j + 1) ≡ 2 * 2 ^ j
    double j = simp towards_suc (omega arith)

    at_most : bit b * 2 ^ k ≤ 2 ^ k
    at_most = ground (arith, Bool-cases b)

    below : byte + bit b * 2 ^ k < 2 ^ (k + 1)
    below = omega (arith, double k, at_most)

    byte_wide : 2 ^ (k + 1) ≤ 2 ^ 8
    byte_wide = pow-le-pow_right (omega arith) {j = 8} (omega arith)

    joined : u8 (bit_or byte (bit b <<< k)) ≡ byte + bit b * 2 ^ k
    joined = rw (bit_or_above k byte (bit b) h) (omega (arith, below, byte_wide))

-- A run of up to eight bits at `start` gives their number.
pub or_into-zero : (bs : List Bool) → length bs ≤ 8 → or_into 0 0 bs ≡ bits_value bs
or_into-zero bs h = or_into_lem bs 0 0 (omega arith) (omega arith) ∙ omega arith

-- Reading ahead: a front of the rest moves behind what has been read.
pub read_front :
    (pre front rest src : List Bool) → src ≡ pre ++ (front ++ rest) → src ≡ (pre ++ front) ++ rest
read_front pre front rest src es = es ∙ sym (append_assoc pre front rest)

pub loads_front :
    (pre front rest src : List Bool) (i n : ℕ)
    → src ≡ pre ++ (front ++ rest)
    → i ≡ length pre
    → length front ≡ n
    → loads src i n ≡ done front
loads_front pre front rest src i n es ei en = rw (es, ← en) (loads_lem pre front rest i ei)

pub full_bytes_loop_lem :
    (left : ℕ) (pre bs rest src : List Bool) (bit_ptr out_ptr : ℕ) (out : List ℕ)
    → src ≡ pre ++ (bs ++ rest)
    → bit_ptr ≡ length pre
    → length bs ≡ left * 8
    → full_bytes_loop src left bit_ptr out_ptr out
      ≡ stores out out_ptr (le_bytes left (bits_value bs))
unfolding full_bytes_loop
full_bytes_loop_lem zero pre bs rest src bit_ptr out_ptr out es eb el =
    unfold stores le_bytes in refl
full_bytes_loop_lem (suc left) pre bs rest src bit_ptr out_ptr out es eb el =
    rw
      (
        loads_front pre octet (others ++ rest) src bit_ptr 8 split eb eight,
        or_into-zero octet (omega (arith, eight)),
      )
      (>>=_congr (store out out_ptr (bits_value octet)) _ _ (λ q.
          full_bytes_loop_lem left (pre ++ octet) others rest src (bit_ptr + 8) (out_ptr + 1) q
            (read_front pre octet (others ++ rest) src split)
            (omega (arith, length-append pre octet, eight)) (omega (arith, length-drop 8 bs)))
        ∙ unfold stores in sym (ap (λ t. stores out out_ptr t) bytes))
  where
    octet : List Bool
    octet = take 8 bs

    others : List Bool
    others = drop 8 bs

    eight : length octet ≡ 8
    eight = length-take_of_le 8 bs (omega arith)

    split : src ≡ pre ++ (octet ++ (others ++ rest))
    split =
        es
        ∙ ap (λ t. pre ++ (t ++ rest)) (sym (take-append-drop 8 bs))
        ∙ ap (λ t. pre ++ t) (append_assoc octet others rest)

    bytes :
        le_bytes (suc left) (bits_value bs) ≡ bits_value octet ∷ le_bytes left (bits_value others)
    bytes =
        ap (λ t. le_bytes (suc left) (bits_value t)) (sym (take-append-drop 8 bs))
        ∙ le_bytes-octet left octet others eight

-- The last byte of an encoding stands behind those of the full octets.
pub le_bytes-last :
    (q : ℕ) (full tail : List Bool)
    → length full ≡ q * 8
    → length tail ≤ 8
    → le_bytes (suc q) (bits_value (full ++ tail))
      ≡ le_bytes q (bits_value full) ++ bits_value tail ∷ []
le_bytes-last zero [] tail e h = unfold le_bytes in ap (λ (b : ℕ). b ∷ []) (omega (arith, small))
  where
    small : bits_value tail < 256
    small = lt_of_lt_of_le (bits_value-lt tail) (pow-le-pow_right (omega arith) {j = 8} h)
le_bytes-last zero (b ∷ full) tail e h = absurd (omega arith)
le_bytes-last (suc q) full tail e h =
    ap (λ t. le_bytes (suc (suc q)) (bits_value t)) split
    ∙ le_bytes-octet (suc q) octet (others ++ tail) eight
    ∙ ap (λ t. bits_value octet ∷ t)
        (le_bytes-last q others tail (omega (arith, length-drop 8 full)) h)
    ∙ ap (λ t. t ++ bits_value tail ∷ []) (sym (le_bytes-octet q octet others eight))
    ∙ ap (λ t. le_bytes (suc q) (bits_value t) ++ bits_value tail ∷ []) (take-append-drop 8 full)
  where
    octet : List Bool
    octet = take 8 full

    others : List Bool
    others = drop 8 full

    eight : length octet ≡ 8
    eight = length-take_of_le 8 full (omega arith)

    split : full ++ tail ≡ octet ++ (others ++ tail)
    split = ap (λ t. t ++ tail) (sym (take-append-drop 8 full)) ∙ append_assoc octet others tail

-- The inner loop of a bitlist reads the bits that are left, and stops.
pub partial_byte_loop_lem :
    (bs pre rest src : List Bool) (num_bits start left k byte : ℕ)
    → src ≡ pre ++ (bs ++ rest)
    → start + k ≡ length pre
    → start + k + length bs ≡ num_bits
    → length bs ≤ left
    → partial_byte_loop src num_bits start left k byte ≡ done (or_into byte k bs)
unfolding partial_byte_loop or_into
partial_byte_loop_lem [] pre rest src num_bits start zero k byte es ek en h = refl
partial_byte_loop_lem [] pre rest src num_bits start (suc left) k byte es ek en h = ground arith
partial_byte_loop_lem (b ∷ bs) pre rest src num_bits start zero k byte es ek en h =
    absurd (omega arith)
partial_byte_loop_lem (b ∷ bs) pre rest src num_bits start (suc left) k byte es ek en h =
    rw (lt→leb num_bits (start + k) (omega arith)) (
      rw loaded (
        partial_byte_loop_lem bs (pre ++ b ∷ []) rest src num_bits start left (k + 1)
          (u8 (bit_or byte (bit b <<< k))) (read_front pre (b ∷ []) (bs ++ rest) src es)
          (omega (arith, length-append pre (b ∷ []))) (omega arith) (omega arith)))
  where
    loaded : load src (start + k) ≡ done b
    loaded = rw es (load-append pre b (bs ++ rest) (start + k) ek)
