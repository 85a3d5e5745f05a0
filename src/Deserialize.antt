-- ===== src/Deserialize.antt =====
-- src/ssz_deserialize.c: what its functions share. Each child has the functions of one SSZ type.
pub mod Uints
pub mod Bitfields
pub mod Unions
pub mod Vectors
pub mod Lists
use c_ssz.Common.{ℕ, List, Option, none, some, Run, done}
use c_ssz.Types.{SszError, error_deserialization}

-- `if (buffer == NULL || out == NULL) return SSZ_ERROR_DESERIALIZATION;`, and then the rest of the
-- function on the bytes and on the object that `out` names.
abbrev pub unless_null {ℓ} :
    {A : Type ℓ}
    → Option (List ℕ)
    → Option A
    → (List ℕ → A → Run (SszError × Option A))
    → Run (SszError × Option A)
unless_null none out body = done (error_deserialization, out)
unless_null (some bytes) none body = done (error_deserialization, none)
unless_null (some bytes) (some old) body = body bytes old

-- The same where the function also reports a count through `out_actual`.
abbrev pub unless_null_counted {ℓ} :
    {A : Type ℓ}
    → Option (List ℕ)
    → Option A
    → Option ℕ
    → (List ℕ → A → ℕ → Run (SszError × Option A × Option ℕ))
    → Run (SszError × Option A × Option ℕ)
unless_null_counted none out actual body = done (error_deserialization, out, actual)
unless_null_counted (some bytes) none actual body = done (error_deserialization, none, actual)
unless_null_counted (some bytes) (some old) none body = done (error_deserialization, some old, none)
unless_null_counted (some bytes) (some old) (some n) body = body bytes old n
