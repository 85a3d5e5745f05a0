-- ===== src/RoundTrip/Unions.antt =====
-- A union that is serialized and deserialized again comes back, if its payload does.
use c_ssz.Common.{ℕ, ◌+◌, ◌-◌, ◌^◌, ◌≤◌, ◌<◌, ◌≡◌, refl, ap, arith, bit_and, List, ◌∷◌, some, done}
use c_ssz.Common.{u8, sz, not-lt→ltb, ne→==, load}
use c_ssz.Common.Bits.{agree_below, all_below}
use c_ssz.Types.{success, SszUnion, UnionSerializeFn, UnionDeserializeFn}
use c_ssz.Serialize.Unions.{serialize_payload, serialize_union}
use c_ssz.Deserialize.Unions.{deserialize_payload, deserialize_union}

selector_kept : (s : ℕ) → s < 128 → u8 (bit_and s 0x7F) ≡ s
unfolding all_below
selector_kept s h = agree_below 128 (λ x. u8 (bit_and x 0x7F)) (λ x. x) refl s h

module _ {D : Type 0} (f : UnionSerializeFn D) (g : UnionDeserializeFn D) (u target : SszUnion D)
    (d : D) (x : ℕ) (buf out : List ℕ) (size used : ℕ) where
  -- For a selector from 1 to 127 and a payload: if the payload's serializer succeeds behind the first
  -- byte, in the space that is left, and reports `used` bytes (`used + 1` is below 2 ^ 64), and the payload's deserializer reads the
  -- payload from what it leaves, then `ssz_serialize_union` succeeds and reports one byte more, and
  -- `ssz_deserialize_union` gives a union with its deserializer the selector and the payload.
  pub union_round_trip :
      0 < u.selector
      → u.selector < 128
      → u.payload ≡ some d
      → u.serialize_fn ≡ some f
      → target.deserialize_fn ≡ some g
      → 1 ≤ size
      → used + 1 < 2 ^ 64
      → f d buf (size - 1) ≡ done (success, out, used)
      → g out used target.payload ≡ done (success, some d)
      → (bytes : List ℕ) × (serialize_union (some u) (some (x ∷ buf)) (some size)
          ≡ done (success, some bytes, some (1 + used)))
        × (deserialize_union (some bytes) (1 + used) (some target)
            ≡ done (success, some (record target { selector = u.selector; payload = some d })))
  unfolding serialize_union deserialize_union
  union_round_trip pos small carries with_f with_g space short writes reads = (
    u.selector ∷ out,
    rw (not-lt→ltb size 1 space, not-lt→ltb 127 u.selector (omega arith))
        (rw (ne→== u.selector 0 (omega arith), selector_kept u.selector small, carries, with_f)
          (unfold serialize_payload in
            rw writes (ap (λ (k : ℕ). done (success, some (u.selector ∷ out), some k)) wrapped))),
    rw (not-lt→ltb (1 + used) 1 (omega arith)) (
        unfold load in
        rw (not-lt→ltb 127 u.selector (omega arith), ne→== u.selector 0 (omega arith))
          (unfold deserialize_payload in
            rw (with_g, less)
              (rw reads (
                ap
                  (λ w. done (
                    success,
                    some (record target {
                      selector = u.selector;
                      payload = some d;
                      deserialize_fn = w;
                    }),
                  ))
                  with_g)))),
  )
    where
      wrapped : sz (1 + used) ≡ 1 + used
      wrapped = omega arith

      less : 1 + used - 1 ≡ used
      less = omega arith
