-- ===== src/Generator/Basic.antt =====
-- The library's functions for basic types as serializers and deserializers of the macros.
use c_ssz.Common.{
  ℕ, ◌^◌, ◌<◌, ◌≡◌, ap, ap₂, ◌∙◌, sym, arith, List, ◌++◌, some, done, ◌>>=◌, length, drop,
  length-append, drop-append,
}
use c_ssz.Types.{success}
use c_ssz.Host.{le_bytes, length-le_bytes, le_bytes-All, le_value-le_bytes}
use c_ssz.Serialize.Emit.{emit-finish}
use c_ssz.Serialize.Uints.{serialize_uint32, serialize_uint64}
use c_ssz.Serialize.Uints.Encode.{serialize_uint32-emit, serialize_uint64-emit}
use c_ssz.Deserialize.Uints.{deserialize_uint32, deserialize_uint64}
use c_ssz.Deserialize.Uints.Decode.{uint32-Reader, uint64-Reader}
use c_ssz.Generator.{of_written, of_read}
use c_ssz.Generator.Codec.{Serializes, Deserializes}

drop-old :
    (n v : ℕ) (old post : List ℕ) → length old ≡ length (le_bytes n v) → drop n (old ++ post) ≡ post
drop-old n v old post e =
    ap (λ (k : ℕ). drop k (old ++ post)) (omega (arith, e, length-le_bytes n v))
    ∙ drop-append old post

pub uint32-Serializes :
    (v : ℕ)
    → Serializes
        (λ buf size. serialize_uint32 (some v) (some buf) (some size) >>= of_written)
        4
        (le_bytes 4 v)
unfolding of_written
uint32-Serializes v old post e =
    rw
      (serialize_uint32-emit v (old ++ post) 4
        (omega (arith, length-append old post, e, length-le_bytes 4 v)))
      (rw (emit-finish (le_bytes 4 v) (old ++ post) 4 4 (length-le_bytes 4 v) (omega arith)) (
        ap₂ (λ t (n : ℕ). done (success, le_bytes 4 v ++ t, n)) (drop-old 4 v old post e)
          (sym (length-le_bytes 4 v))))

pub uint64-Serializes :
    (v : ℕ)
    → Serializes
        (λ buf size. serialize_uint64 (some v) (some buf) (some size) >>= of_written)
        8
        (le_bytes 8 v)
unfolding of_written
uint64-Serializes v old post e =
    rw
      (serialize_uint64-emit v (old ++ post) 8
        (omega (arith, length-append old post, e, length-le_bytes 8 v)))
      (rw (emit-finish (le_bytes 8 v) (old ++ post) 8 8 (length-le_bytes 8 v) (omega arith)) (
        ap₂ (λ t (n : ℕ). done (success, le_bytes 8 v ++ t, n)) (drop-old 8 v old post e)
          (sym (length-le_bytes 8 v))))

pub uint32-Deserializes :
    (v old : ℕ)
    → v < 2 ^ 32
    → Deserializes
        (λ bytes size cell. deserialize_uint32 (some bytes) size (some cell) >>= of_read)
        (le_bytes 4 v)
        old
        v
unfolding of_read
uint32-Deserializes v old small post = rw (length-le_bytes 4 v) (
    rw (uint32-Reader.reads (le_bytes 4 v) post old (length-le_bytes 4 v) (le_bytes-All 4 v))
      (ap (λ (x : ℕ). done (success, x)) (le_value-le_bytes 4 v (omega arith))))

pub uint64-Deserializes :
    (v old : ℕ)
    → v < 2 ^ 64
    → Deserializes
        (λ bytes size cell. deserialize_uint64 (some bytes) size (some cell) >>= of_read)
        (le_bytes 8 v)
        old
        v
unfolding of_read
uint64-Deserializes v old small post = rw (length-le_bytes 8 v) (
    rw (uint64-Reader.reads (le_bytes 8 v) post old (length-le_bytes 8 v) (le_bytes-All 8 v))
      (ap (λ (x : ℕ). done (success, x)) (le_value-le_bytes 8 v (omega arith))))
