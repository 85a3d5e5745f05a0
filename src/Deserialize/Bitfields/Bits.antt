-- ===== src/Deserialize/Bitfields/Bits.antt =====
-- Single bits of a byte, and the loop that unpacks full bytes.
use c_ssz.Common.{
  ℕ, zero, suc, ◌+◌, ◌-◌, ◌*◌, ◌/◌, ◌%◌, ◌^◌, ◌≤◌, ◌<◌, ◌≡◌, refl, sym, ap, ap₂, ◌∙◌, arith,
}
use c_ssz.Common.{
  bit_and, List, [], ◌∷◌, ◌++◌, append_assoc, append-nil, Bool, true, false, not, length,
  length-append,
}
use c_ssz.Common.{take, drop, take-append-drop, length-take_of_le, length-drop, done, >>=_congr}
use c_ssz.Common.{load, load-append, stores, stores-append, ◌==◌, ==_iff, ne→==, ◌<<<◌}
use c_ssz.Common.Bits.{all_below, all_below_lem}
use c_ssz.Host.{le_bytes}
use c_ssz.Bitfield.{bits_value, bits_value-lt, bits_value-append, le_bytes-octet}
use c_ssz.Serialize.Uints.{bit}
use c_ssz.Deserialize.Bitfields.{test_bits, unpack_loop}
use native.Mathlib.Nat.{
  pow-le-pow_right, lt_of_lt_of_le, add-mul-div_left, div-eq_of_lt, one-le-pow,
}

bit_table :
    all_below 8 (λ k. all_below 256 (λ b. bit_and b (1 <<< k) == (b / 2 ^ k % 2) * 2 ^ k)) ≡ true
unfolding all_below
bit_table = refl

-- `byte & (1 << k)` is the binary digit at `k`, in its place.
bit_and-digit : (k b : ℕ) → k < 8 → b < 256 → bit_and b (1 <<< k) ≡ (b / 2 ^ k % 2) * 2 ^ k
bit_and-digit k b hk hb =
    (==_iff _ _).0 (all_below_lem 256 _ b (all_below_lem 8 _ k bit_table hk) hb)

mask_table :
    all_below 9 (λ k. all_below (2 ^ k) (λ b. bit_and b (255 - ((1 <<< k) - 1)) == 0)) ≡ true
unfolding all_below
mask_table = refl

-- No bit of a number of `k` digits is under the mask of the higher ones.
pub bit_and-mask : (k b : ℕ) → k < 9 → b < 2 ^ k → bit_and b (255 - ((1 <<< k) - 1)) ≡ 0
bit_and-mask k b hk hb =
    (==_iff _ _).0 (all_below_lem (2 ^ k) _ b (all_below_lem 9 _ k mask_table hk) hb)

pub bits_value-byte : (bs : List Bool) → length bs ≤ 8 → bits_value bs < 256
bits_value-byte bs h = lt_of_lt_of_le (bits_value-lt bs) (pow-le-pow_right (omega arith) {j = 8} h)

-- The digit of a row of bits at the place where the bit `b` stands.
digit :
    (pre post : List Bool) (b : Bool) → bits_value (pre ++ b ∷ post) / 2 ^ length pre % 2 ≡ bit b
unfolding bits_value
digit pre post b =
    rw
      (
        bits_value-append pre (b ∷ post),
        add-mul-div_left (bits_value pre) (bit b + 2 * bits_value post)
            (one-le-pow (length pre) 2 (omega arith)),
        div-eq_of_lt (bits_value-lt pre),
      )
      (small b)
  where
    small : (c : Bool) → (0 + (bit c + 2 * bits_value post)) % 2 ≡ bit c
    small true = omega arith
    small false = omega arith

-- A bit in its place is nonzero exactly if it is set.
bit_test : (b : Bool) (k : ℕ) → not (bit b * 2 ^ k == 0) ≡ b
bit_test true k = rw (ne→== (1 * 2 ^ k) 0 (omega (arith, one-le-pow k 2 (omega arith))))
bit_test false k = ground arith

-- The tests of a byte's bits give back the bits; higher bits of the byte do not matter.
test_bits_lem :
    (bs pre post : List Bool) (k : ℕ)
    → k ≡ length pre
    → length pre + length bs + length post ≤ 8
    → test_bits (bits_value (pre ++ (bs ++ post))) k (length bs) ≡ bs
unfolding test_bits
test_bits_lem [] pre post k ek h = refl
test_bits_lem (b ∷ bs) pre post k ek h = ap₂ ◌∷◌ head (
    ap (λ t. test_bits (bits_value t) (k + 1) (length bs))
      (sym (append_assoc pre (b ∷ []) (bs ++ post)))
    ∙ test_bits_lem bs (pre ++ b ∷ []) post (k + 1) (omega (arith, length-append pre (b ∷ [])))
        (omega (arith, length-append pre (b ∷ []))))
  where
    small : bits_value (pre ++ b ∷ (bs ++ post)) < 256
    small =
        bits_value-byte (pre ++ b ∷ (bs ++ post))
          (omega (arith, length-append pre (b ∷ (bs ++ post)), length-append bs post))

    head : not (bit_and (bits_value (pre ++ b ∷ (bs ++ post))) (1 <<< k) == 0) ≡ b
    head =
        rw
          (
            bit_and-digit k (bits_value (pre ++ b ∷ (bs ++ post))) (omega arith) small,
            ek,
            digit pre (bs ++ post) b,
          )
          (bit_test b (length pre))

pub test_bits-front :
    (bs post : List Bool)
    → length bs + length post ≤ 8
    → test_bits (bits_value (bs ++ post)) 0 (length bs) ≡ bs
test_bits-front bs post h = test_bits_lem bs [] post 0 refl (omega arith)

pub test_bits-zero : (bs : List Bool) → length bs ≤ 8 → test_bits (bits_value bs) 0 (length bs) ≡ bs
test_bits-zero bs h =
    ap (λ t. test_bits (bits_value t) 0 (length bs)) (sym (append-nil bs))
    ∙ test_bits-front bs [] (omega arith)

-- Each full byte of an encoding gives its eight bits.
pub unpack_loop_lem :
    (left : ℕ) (bs : List Bool) (pre rest buffer : List ℕ) (i : ℕ) (out : List Bool)
    → buffer ≡ pre ++ (le_bytes left (bits_value bs) ++ rest)
    → i ≡ length pre
    → length bs ≡ left * 8
    → unpack_loop buffer left i out ≡ stores out (i * 8) bs
unfolding unpack_loop
unpack_loop_lem zero [] pre rest buffer i out eb ei el = unfold stores in refl
unpack_loop_lem zero (b ∷ bs) pre rest buffer i out eb ei el = absurd (omega arith)
unpack_loop_lem (suc left) bs pre rest buffer i out eb ei el =
    rw (loaded, octet_bits)
      (>>=_congr (stores out (i * 8) octet) _ _ (λ q.
          unpack_loop_lem left others (pre ++ bits_value octet ∷ []) rest buffer (i + 1) q
            (split ∙ sym (append_assoc pre (bits_value octet ∷ []) _))
            (omega (arith, length-append pre (bits_value octet ∷ [])))
            (omega (arith, length-drop 8 bs))
          ∙ ap (λ (n : ℕ). stores q n others) (omega (arith, eight)))
        ∙ sym (stores-append out (i * 8) octet others)
        ∙ ap (λ t. stores out (i * 8) t) (take-append-drop 8 bs))
  where
    octet : List Bool
    octet = take 8 bs

    others : List Bool
    others = drop 8 bs

    eight : length octet ≡ 8
    eight = length-take_of_le 8 bs (omega arith)

    split : buffer ≡ pre ++ bits_value octet ∷ (le_bytes left (bits_value others) ++ rest)
    split =
        eb
        ∙ ap (λ t. pre ++ (le_bytes (suc left) (bits_value t) ++ rest))
            (sym (take-append-drop 8 bs))
        ∙ ap (λ t. pre ++ (t ++ rest)) (le_bytes-octet left octet others eight)

    loaded : load buffer i ≡ done (bits_value octet)
    loaded = rw split (load-append pre (bits_value octet) _ i ei)

    octet_bits : test_bits (bits_value octet) 0 8 ≡ octet
    octet_bits =
        ap (λ (n : ℕ). test_bits (bits_value octet) 0 n) (sym eight)
        ∙ test_bits-zero octet (omega (arith, eight))
