-- ===== src/Host.antt =====
-- How the host stores an unsigned integer: the object representation that `memcpy` copies, and the
-- test for the byte order that the serializers make on a `uint32_t` of value 1.
use c_ssz.Common.{
  ℕ, zero, suc, ◌+◌, ◌*◌, ◌/◌, ◌%◌, ◌^◌, ◌<◌, ◌≡◌, refl, ap, ap₂, ◌∙◌, arith, Bool, true, false,
}
use mathlib.Core.List.{reverse-reverse, reverse-append}
use native.Mathlib.Nat.{pow-suc}
use c_ssz.Common.{List, [], ◌∷◌, reverse, ◌==◌, length, length-append, All, IsByte, concat_map}

pub data Endian : Type 0 where
  little big : Endian

-- The `w` lowest bytes of `v`, lowest first: the SSZ encoding of an unsigned integer.
unfoldable pub le_bytes : ℕ → ℕ → List ℕ
le_bytes zero v = []
le_bytes (suc w) v = (v % 256) ∷ le_bytes w (v / 256)

-- The number that bytes stand for, lowest first.
unfoldable pub le_value : List ℕ → ℕ
le_value [] = 0
le_value (b ∷ bs) = b + 256 * le_value bs

-- Bytes that stand lowest first, as the host orders them in memory.
unfoldable pub host_order : Endian → List ℕ → List ℕ
host_order little bs = bs
host_order big bs = reverse bs

unfoldable pub host_bytes : Endian → ℕ → ℕ → List ℕ
unfolding le_bytes host_order
host_bytes e w v = host_order e (le_bytes w v)

-- The representation of an array of integers of `w` bytes each.
unfoldable pub object_bytes : Endian → ℕ → List ℕ → List ℕ
unfolding host_bytes
object_bytes e w xs = concat_map (host_bytes e w) xs

head_or_zero : List ℕ → ℕ
head_or_zero [] = 0
head_or_zero (b ∷ bs) = b

-- `static const uint32_t test_value = 1; ((const uint8_t *)&test_value)[0] == 0x01`
unfoldable pub endian_check : Endian → Bool
unfolding host_bytes head_or_zero
endian_check e = head_or_zero (host_bytes e 4 1) == 0x01

pub endian_check-little : endian_check little ≡ true
unfolding endian_check
endian_check-little = refl

pub endian_check-big : endian_check big ≡ false
unfolding endian_check
endian_check-big = refl

pub length-le_bytes : (w v : ℕ) → length (le_bytes w v) ≡ w
unfolding le_bytes
length-le_bytes zero v = refl
length-le_bytes (suc w) v = ap suc (length-le_bytes w (v / 256))

pub le_bytes-All : (w v : ℕ) → All IsByte (le_bytes w v)
unfolding le_bytes
le_bytes-All zero v = tt
le_bytes-All (suc w) v = (omega arith, le_bytes-All w (v / 256))

pub le_value-le_bytes : (w v : ℕ) → v < 256 ^ w → le_value (le_bytes w v) ≡ v
unfolding le_value le_bytes
le_value-le_bytes zero v h = omega arith
le_value-le_bytes (suc w) v h =
    omega (arith, le_value-le_bytes w (v / 256) (omega (arith, pow-suc 256 w)))

pub le_bytes-le_value : (bs : List ℕ) → All IsByte bs → le_bytes (length bs) (le_value bs) ≡ bs
unfolding le_value le_bytes
le_bytes-le_value [] h = refl
le_bytes-le_value (b ∷ bs) (hb, hbs) =
    ap₂ ◌∷◌ (omega arith) (ap (le_bytes (length bs)) (omega arith) ∙ le_bytes-le_value bs hbs)

pub le_value-lt : (bs : List ℕ) → All IsByte bs → le_value bs < 256 ^ length bs
unfolding le_value
le_value-lt [] h = omega arith
le_value-lt (b ∷ bs) (hb, hbs) = omega (arith, le_value-lt bs hbs, pow-suc 256 (length bs))

pub host_order-host_order : (e : Endian) (bs : List ℕ) → host_order e (host_order e bs) ≡ bs
unfolding host_order
host_order-host_order little bs = refl
host_order-host_order big bs = reverse-reverse bs

pub length-reverse : (bs : List ℕ) → length (reverse bs) ≡ length bs
length-reverse [] = refl
length-reverse (b ∷ bs) =
    rw (reverse-append (b ∷ []) bs)
      (omega (arith, length-append (reverse bs) (b ∷ []), length-reverse bs))

pub length-host_order : (e : Endian) (bs : List ℕ) → length (host_order e bs) ≡ length bs
unfolding host_order
length-host_order little bs = refl
length-host_order big bs = length-reverse bs

pub length-host_bytes : (e : Endian) (w v : ℕ) → length (host_bytes e w v) ≡ w
unfolding host_bytes
length-host_bytes e w v = length-host_order e (le_bytes w v) ∙ length-le_bytes w v
