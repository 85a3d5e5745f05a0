-- ===== src/Merkle/Pack.antt =====
-- `ssz_pack` fills chunks with bytes, and pads the last one with zeros.
use c_ssz.Common.{
  ℕ, ◌+◌, ◌-◌, ◌*◌, ◌/◌, ◌^◌, ◌≤◌, ◌<◌, ◌≡◌, refl, sym, ap, ap₂, ◌∙◌, arith, List, [], ◌++◌, not,
  ◌&&◌, false,
}
use c_ssz.Common.{
  length, take, drop, replicate, length-drop, length-replicate, length-take_of_le, take-append-drop,
  drop-drop, eq-nil_of_length, inl, inr, Bool-cases, ltb, ◌==◌, eq→==, if◌then◌else◌, Run, done,
  memcpy-front, memset, sz, stores, stores_lem,
}
use native.Mathlib.Nat.{mod-eq_of_lt, mul-div_cancel, eq-zero-or-pos}
use c_ssz.Types.{success}
use c_ssz.Merkle.{Packed, ssz_pack}

abbrev pub chunks_of : ℕ → ℕ
chunks_of n = (n + 31) / 32

abbrev blank : ℕ → List ℕ
blank n = replicate n 0

-- The product of two sizes passes the test for a wrap if it did not wrap.
no_wrap : (size count : ℕ) → (not (count == 0) && not (size * count / count == size)) ≡ false
no_wrap size count = elim (eq-zero-or-pos count) [
  | inl none ↦ rw (eq→== count 0 none) refl
  | inr some ↦ rw (eq→== (size * count / count) size (mul-div_cancel size some)) (ground arith)
]

module _ (bs rest out : List ℕ) (room : chunks_of (length bs) * 32 ≤ length out) where
  abbrev n : ℕ
  n = length bs

  abbrev copied : List ℕ
  copied = bs ++ drop n out

  filled :
      (if ltb n (chunks_of n * 32) then memset copied n 0 (chunks_of n * 32 - n) else done copied)
      ≡ done (bs ++ (blank (chunks_of n * 32 - n) ++ drop (chunks_of n * 32) out))
  unfolding memset
  filled = elim (Bool-cases (ltb n (chunks_of n * 32))) [
    | inl more ↦ rw more (
        ap (λ t. stores (bs ++ t) n (blank gap)) (sym (take-append-drop gap (drop n out)))
        ∙ stores_lem bs (take gap (drop n out)) (drop gap (drop n out)) n (blank gap) refl (
            length-replicate {A = ℕ} gap 0
            ∙ sym (length-take_of_le gap (drop n out) (omega (arith, length-drop n out, room))))
        ∙ ap (λ t. done (bs ++ (blank gap ++ t))) (drop-drop n gap out)
        ∙ ap (λ (k : ℕ). done (bs ++ (blank gap ++ drop k out))) total)
    | inr full ↦
        let none_left : 0 ≡ gap = ground arith in
        let same : n ≡ chunks_of n * 32 = ground arith in
        rw full (ap₂ (λ (g k : ℕ). done (bs ++ (blank g ++ drop k out))) none_left same)
  ]
    where
      gap : ℕ
      gap = chunks_of n * 32 - n

      total : n + gap ≡ chunks_of n * 32
      total = omega arith

  -- For `value_count` values of `value_size` bytes, short of the wrap at 64 bits, and an output with room
  -- for the chunks: `ssz_pack` succeeds, copies the bytes, puts zeros behind them up to the end of the
  -- last chunk, leaves the memory behind it, and reports the number of chunks, which is zero for no bytes.
  pub ssz_pack_lem :
      (size count told : ℕ)
      → n ≡ size * count
      → n + 31 < 2 ^ 64
      → ssz_pack (bs ++ rest) size count out told
        ≡ done (
          success,
          bs ++ (replicate (chunks_of n * 32 - n) 0 ++ drop (chunks_of n * 32) out),
          chunks_of n,
        )
  unfolding ssz_pack
  ssz_pack_lem size count told e h =
      rw (mod-eq_of_lt product, no_wrap size count)
        (rw (← e) (elim (Bool-cases (n == 0)) [
          | inl none ↦
              let no_bytes : bs ≡ [] = eq-nil_of_length bs (ground arith) in
              rw none (ap result (sym no_bytes))
          | inr some ↦
              rw (some, memcpy-front out bs rest n refl (omega (arith, room)), last)
                (rw filled refl)
        ]))
    where
      product : size * count < 2 ^ 64
      product = omega (arith, e, h)

      last : sz (n + 32 - 1) / 32 ≡ chunks_of n
      last = omega arith

      result : List ℕ → Run Packed
      result t = done (
        success,
        t ++ (blank (chunks_of (length t) * 32 - length t) ++ drop (chunks_of (length t) * 32) out),
        chunks_of (length t),
      )
