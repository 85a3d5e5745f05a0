-- ===== src/Bitfield.antt =====
-- Bits as numbers: what SSZ prescribes for a bitvector and a bitlist, apart from the loops that pack them.
use c_ssz.Common.{ℕ, suc, ◌+◌, ◌*◌, ◌/◌, ◌%◌, ◌^◌, ◌<◌, ◌≡◌, sym, ap, ap₂, ◌∙◌, arith}
use c_ssz.Common.{List, [], ◌∷◌, ◌++◌, Bool, true, false, length, take, drop}
use c_ssz.Common.{take-append-drop, length-take_of_le, length-drop, append-nil, eq-nil_of_length}
use native.Mathlib.Nat.{pow-suc}
use c_ssz.Host.{le_bytes}
use c_ssz.Serialize.Uints.{bit}

-- The number whose binary digits, lowest first, are the bits.
unfoldable pub bits_value : List Bool → ℕ
bits_value [] = 0
bits_value (b ∷ bs) = bit b + 2 * bits_value bs

-- The encoding of a bitvector: as many bytes as its bits need, lowest first.
unfoldable pub bitvector_bytes : List Bool → List ℕ
bitvector_bytes bs = le_bytes ((length bs + 7) / 8) (bits_value bs)

-- The encoding of a bitlist: its bits, and one bit more that marks the end.
unfoldable pub bitlist_bytes : List Bool → List ℕ
bitlist_bytes bs = le_bytes (suc (length bs / 8)) (bits_value (bs ++ true ∷ []))

pub bits_value-lt : (bs : List Bool) → bits_value bs < 2 ^ length bs
unfolding bits_value
bits_value-lt [] = omega arith
bits_value-lt (true ∷ bs) = omega (arith, bits_value-lt bs, pow-suc 2 (length bs))
bits_value-lt (false ∷ bs) = omega (arith, bits_value-lt bs, pow-suc 2 (length bs))

pub bits_value-append :
    (bs cs : List Bool) → bits_value (bs ++ cs) ≡ bits_value bs + 2 ^ length bs * bits_value cs
unfolding bits_value
bits_value-append [] cs = omega arith
bits_value-append (b ∷ bs) cs =
    omega
      (arith, bits_value-append bs cs, ap (λ (t : ℕ). t * bits_value cs) (pow-suc 2 (length bs)))

-- The first byte of the encoding holds the first eight bits, and the others hold the rest.
pub le_bytes-octet :
    (w : ℕ) (octet bs : List Bool)
    → length octet ≡ 8
    → le_bytes (suc w) (bits_value (octet ++ bs)) ≡ bits_value octet ∷ le_bytes w (bits_value bs)
unfolding le_bytes
le_bytes-octet w octet bs e = ap₂ (λ (b r : ℕ). b ∷ le_bytes w r) low high
  where
    parts : bits_value (octet ++ bs) ≡ bits_value octet + 256 * bits_value bs
    parts = bits_value-append octet bs ∙ rw e

    small : bits_value octet < 256
    small = rw e at (bits_value-lt octet)

    low : bits_value (octet ++ bs) % 256 ≡ bits_value octet
    low = omega (arith, parts, small)

    high : bits_value (octet ++ bs) / 256 ≡ bits_value bs
    high = omega (arith, parts, small)

-- The bits of the full bytes, and those that are left.
module _ (bs : List Bool) where
  pub octets : List Bool
  octets = take (length bs / 8 * 8) bs

  pub leftover : List Bool
  leftover = drop (length bs / 8 * 8) bs

  pub octets-leftover : octets ++ leftover ≡ bs
  unfolding octets leftover
  octets-leftover = take-append-drop (length bs / 8 * 8) bs

  pub length-octets : length octets ≡ length bs / 8 * 8
  unfolding octets
  length-octets = length-take_of_le (length bs / 8 * 8) bs (omega arith)

  pub length-leftover : length leftover ≡ length bs % 8
  unfolding leftover
  length-leftover = omega (arith, length-drop (length bs / 8 * 8) bs)

  pub octets_whole : length bs % 8 ≡ 0 → octets ≡ bs
  octets_whole h =
      sym (append-nil octets)
      ∙ ap (λ t. octets ++ t) (sym (eq-nil_of_length leftover (omega (arith, length-leftover))))
      ∙ octets-leftover
