-- ===== src/Serialize/Unions.antt =====
-- src/ssz_serialize.c, `ssz_serialize_union`. The function that serializes the payload is the caller's.
use c_ssz.Common.{ℕ, ◌+◌, ◌-◌, bit_and, List, ◌++◌, Option, none, some, ◌||◌}
use c_ssz.Common.{Run, done, ◌>>=◌, store, ltb, ◌==◌, if◌then◌else◌, u8, sz, take, drop}
use c_ssz.Types.{is_success, error_serialization, Written, UnionSerializeFn, SszUnion}
use c_ssz.Serialize.{unless_null, rejected, finish}

module _ {D : Type 0} where
  -- From `if (u->data != NULL)` on: the selector stands in `buf`, and `size` is still `*out_size`.
  unfoldable pub serialize_payload :
      Option D → Option (UnionSerializeFn D) → List ℕ → ℕ → Run Written
  serialize_payload none fn buf size = finish buf 1
  serialize_payload (some d) none buf size = done (error_serialization, some buf, some size)
  serialize_payload (some d) (some fn) buf size = do
    (ret, rest, space_remaining) ← fn d (drop 1 buf) (size - 1)
    if is_success ret
        then finish (take 1 buf ++ rest) (sz (1 + space_remaining))
        else done (ret, some (take 1 buf ++ rest), some size)

  -- `if (u->data != NULL)` for the selector 0.
  unfoldable pub serialize_none : Option D → List ℕ → ℕ → Run Written
  unfolding store
  serialize_none (some d) buf size = rejected buf size
  serialize_none none buf size = do buf' ← store buf 0 0; finish buf' 1

  unfoldable pub serialize_union : Option (SszUnion D) → Option (List ℕ) → Option ℕ → Run Written
  unfolding serialize_payload serialize_none store
  serialize_union u out_buf out_size = unless_null u out_buf out_size λ v buf size.
      if ltb size 1 || ltb 127 v.selector
      then rejected buf size
      else if v.selector == 0
      then serialize_none v.payload buf size
      else do
        buf' ← store buf 0 (u8 (bit_and v.selector 0x7F))
        serialize_payload v.payload v.serialize_fn buf' size
