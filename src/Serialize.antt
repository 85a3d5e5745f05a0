-- ===== src/Serialize.antt =====
-- src/ssz_serialize.c: what its functions share. Each child has the functions of one SSZ type.
-- The buffers of a call do not overlap, as `restrict` says.
pub mod Emit
pub mod Uints
pub mod Bitfields
pub mod Unions
pub mod Vectors
pub mod Lists
use c_ssz.Common.{ℕ, List, Option, none, some, Run, done}
use c_ssz.Types.{SszError, success, error_serialization, Written}

-- `if (value == NULL || out_buf == NULL || out_size == NULL) return SSZ_ERROR_SERIALIZATION;`,
-- and then the rest of the function on what the pointers name.
abbrev pub unless_null {ℓ} :
    {A : Type ℓ}
    → Option A
    → Option (List ℕ)
    → Option ℕ
    → (A → List ℕ → ℕ → Run Written)
    → Run Written
unless_null none out_buf out_size body = done (error_serialization, out_buf, out_size)
unless_null (some v) none out_size body = done (error_serialization, none, out_size)
unless_null (some v) (some buf) none body = done (error_serialization, some buf, none)
unless_null (some v) (some buf) (some size) body = body v buf size

-- `return SSZ_ERROR_SERIALIZATION;` with nothing written.
abbrev pub rejected : List ℕ → ℕ → Run Written
rejected buf size = done (error_serialization, some buf, some size)

-- `*out_size = n; return SSZ_SUCCESS;`
abbrev pub finish : List ℕ → ℕ → Run Written
finish buf n = done (success, some buf, some n)
