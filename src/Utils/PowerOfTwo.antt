-- ===== src/Utils/PowerOfTwo.antt =====
-- `next_pow_of_two` gives the least power of two that is not below its argument, up to 2 ^ 63.
use c_ssz.Common.{
  ℕ, zero, suc, ◌+◌, ◌-◌, ◌/◌, ◌%◌, ◌^◌, ◌≤◌, ◌<◌, ◌≡◌, refl, sym, ap, ◌∙◌, arith, bit_and,
}
use c_ssz.Common.{
  done, hang, ltb, ◌==◌, u64, ◌<<<◌, Bool-cases, inl, inr, lt→ltb, not-lt→ltb, ne→==,
}
use c_ssz.Common.Bits.{bit_and_low}
use native.Mathlib.Nat.{pow-le-pow_right, pow-suc, one-le-pow, eq-zero-or-pos}
use c_ssz.Utils.{pow_loop, pow_fuel, next_pow_of_two}

self_zero : (n u : ℕ) → u ≤ n → bit_and u u ≡ 0 → u ≡ 0
self_zero zero u h e = omega arith
self_zero (suc n) zero h e = refl
self_zero (suc n) (suc u) h e =
    ground (arith, bit_and_low (suc u) (suc u), self_zero n (suc u / 2) (omega arith))

-- Only a power of two shares no binary digit with the number before it.
power_of_two_within : (n v : ℕ) → v ≤ n → 0 < v → bit_and v (v - 1) ≡ 0 → (k : ℕ) × (v ≡ 2 ^ k)
power_of_two_within zero v h pos e = absurd (omega arith)
power_of_two_within (suc n) v h pos e = elim (eq-zero-or-pos (v % 2)) [
  | inl even ↦
      let (k, p) = power_of_two_within n (v / 2) (omega arith) (omega arith) (half even) in
      (suc k, omega (arith, p, even, pow-suc 2 k))
  | inr odd ↦ (0, omega (arith, odd, self_zero n (v / 2) (omega arith) (top odd)))
]
  where
    half : v % 2 ≡ 0 → bit_and (v / 2) (v / 2 - 1) ≡ 0
    half even =
        let before : (v - 1) / 2 ≡ v / 2 - 1 = omega arith in
        ap (λ (b : ℕ). bit_and (v / 2) b) (sym before) ∙ omega (arith, bit_and_low v (v - 1), e)

    top : 0 < v % 2 → bit_and (v / 2) (v / 2) ≡ 0
    top odd =
        let before : (v - 1) / 2 ≡ v / 2 = omega arith in
        ap (λ (b : ℕ). bit_and (v / 2) b) (sym before) ∙ omega (arith, bit_and_low v (v - 1), e)

-- The loop from 2 ^ k, where no smaller power reaches the value, and 2 ^ (k + d) does.
pow_loop_lem :
    (fuel d k v : ℕ)
    → d < fuel
    → k + d ≤ 63
    → v ≤ 2 ^ (k + d)
    → ((j : ℕ) → v ≤ 2 ^ j → k ≤ j)
    → (m : ℕ) × (pow_loop fuel v (2 ^ k) ≡ done (2 ^ m))
      × (v ≤ 2 ^ m)
      × ((j : ℕ) → v ≤ 2 ^ j → m ≤ j)
unfolding pow_loop
pow_loop_lem zero d k v hd top reach least = absurd (omega arith)
pow_loop_lem (suc fuel) zero k v hd top reach least =
    (k, rw (not-lt→ltb (2 ^ k) v reached) refl, reached, least)
  where
    the_same : k + 0 ≡ k
    the_same = omega arith

    reached : v ≤ 2 ^ k
    reached = omega (arith, reach, ap (λ (n : ℕ). 2 ^ n) the_same)
pow_loop_lem (suc fuel) (suc d) k v hd top reach least = elim (Bool-cases (ltb (2 ^ k) v)) [
  | inr there ↦ (k, rw there refl, ground arith, least)
  | inl below ↦
      let (m, run, enough, least') =
        pow_loop_lem fuel d (suc k) v (omega arith) (omega arith) further (above (ground arith)) in
      (m, rw (below, doubled) run, enough, least')
]
  where
    doubled : u64 ((2 ^ k) <<< 1) ≡ 2 ^ suc k
    doubled =
        let most : suc k ≤ 63 = omega arith in
        let small : 2 ^ suc k ≤ 2 ^ 63 = pow-le-pow_right (omega arith) most in
        omega (arith, pow-suc 2 k, small)

    the_same : k + suc d ≡ suc k + d
    the_same = omega arith

    further : v ≤ 2 ^ (suc k + d)
    further = omega (arith, reach, ap (λ (n : ℕ). 2 ^ n) the_same)

    above : 2 ^ k < v → (j : ℕ) → v ≤ 2 ^ j → suc k ≤ j
    above below j h = elim (Bool-cases (k == j)) [
      | inl same ↦ let e : k ≡ j = ground arith in absurd (omega (arith, ap (λ (n : ℕ). 2 ^ n) e))
      | inr other ↦ ground (arith, least j h)
    ]

-- For every value up to 2 ^ 63, `next_pow_of_two` returns a power of two that is not below it, and
-- that no power of two with this property is below.
pub next_pow_of_two_least :
    (v : ℕ)
    → v ≤ 2 ^ 63
    → (k : ℕ) × (next_pow_of_two v ≡ done (2 ^ k))
      × (v ≤ 2 ^ k)
      × ((j : ℕ) → v ≤ 2 ^ j → 2 ^ k ≤ 2 ^ j)
unfolding next_pow_of_two
next_pow_of_two_least zero h = (0, refl, omega arith, λ j _. one-le-pow j 2 (omega arith))
next_pow_of_two_least (suc n) h = elim (Bool-cases (bit_and (suc n) (suc n - 1) == 0)) [
  | inl power ↦
      let (k, e) = power_of_two_within (suc n) (suc n) (omega arith) (omega arith) (ground arith) in
      (
        k,
        rw (ne→== (suc n) 0 (omega arith), power) (ap done e),
        omega (arith, e),
        λ j up. omega (arith, e, up),
      )
  | inr other ↦
      let (k, run, enough, least) =
        pow_loop_lem pow_fuel 63 0 (suc n) (omega arith) (omega arith) h (λ j _. omega arith) in
      (
        k,
        rw (ne→== (suc n) 0 (omega arith), other) run,
        enough,
        λ j up. pow-le-pow_right (omega arith) (least j up),
      )
]

-- Above 2 ^ 63 the doubled power wraps to zero, and stays there.
stuck_at_zero : (fuel v : ℕ) → 0 < v → pow_loop fuel v 0 ≡ hang
unfolding pow_loop
stuck_at_zero zero v pos = refl
stuck_at_zero (suc fuel) v pos = rw (lt→ltb 0 v pos) (stuck_at_zero fuel v pos)

never_reached : (fuel d k v : ℕ) → k + d ≡ 63 → 2 ^ 63 < v → pow_loop fuel v (2 ^ k) ≡ hang
unfolding pow_loop
never_reached zero d k v e above = refl
never_reached (suc fuel) zero k v e above =
    let last : k ≡ 63 = omega arith in
    rw (last, lt→ltb (2 ^ 63) v above) (stuck_at_zero fuel v (omega arith))
never_reached (suc fuel) (suc d) k v e above =
    rw (lt→ltb (2 ^ k) v small, doubled) (never_reached fuel d (suc k) v (omega arith) above)
  where
    most : suc k ≤ 63
    most = omega arith

    next : 2 ^ suc k ≤ 2 ^ 63
    next = pow-le-pow_right (omega arith) most

    small : 2 ^ k < v
    small = omega (arith, pow-suc 2 k, next, above)

    doubled : u64 ((2 ^ k) <<< 1) ≡ 2 ^ suc k
    doubled = omega (arith, pow-suc 2 k, next)

-- For a value above 2 ^ 63, the doubling loop of `next_pow_of_two` ends after no number of rounds.
pub pow_loop_endless : (fuel v : ℕ) → 2 ^ 63 < v → pow_loop fuel v 1 ≡ hang
pow_loop_endless fuel v above = never_reached fuel 63 0 v (omega arith) above
