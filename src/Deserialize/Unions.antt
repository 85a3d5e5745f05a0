-- ===== src/Deserialize/Unions.antt =====
-- src/ssz_deserialize.c, `ssz_deserialize_union`. The function that reads the payload is the caller's.
use c_ssz.Common.{ℕ, ◌-◌, List, Option, none, some, Run, done, ◌>>=◌, load, drop}
use c_ssz.Common.{ltb, ◌==◌, if◌then◌else◌}
use c_ssz.Types.{SszError, success, error_deserialization, SszUnion}
use c_ssz.Deserialize.{unless_null}

module _ {D : Type 0} where
  -- From the test of `deserialize_fn` on; `u` has its new selector.
  unfoldable pub deserialize_payload :
      SszUnion D → List ℕ → ℕ → Run (SszError × Option (SszUnion D))
  deserialize_payload u subtype_buf subtype_size = elim u.deserialize_fn [
    | none ↦ done (error_deserialization, some u)
    | some fn ↦ (do
      (ret, payload) ← fn subtype_buf subtype_size u.payload
      done (ret, some (record u { payload = payload })))
  ]

  unfoldable pub deserialize_union :
      Option (List ℕ) → ℕ → Option (SszUnion D) → Run (SszError × Option (SszUnion D))
  unfolding load deserialize_payload
  deserialize_union buffer buffer_size out_union = unless_null buffer out_union λ bytes old.
      if ltb buffer_size 1 then done (error_deserialization, some old) else do
        selector ← load bytes 0
        if ltb 127 selector
            then done (error_deserialization, some old)
            else if selector == 0
            then done (success, some (record old { selector = selector; payload = none }))
            else deserialize_payload (record old { selector = selector }) (drop 1 bytes)
                (buffer_size - 1)
