-- ===== src/Serialize/Lists/Encode.antt =====
-- The list serializers write the encodings of the elements one after the other, on either byte
-- order. What stands behind the elements in memory is not read.
use c_ssz.Common.{
  ℕ, ◌*◌, ◌^◌, ◌≤◌, ◌<◌, ◌≡◌, refl, ap, List, [], ◌++◌, some, Bool, map, length, ◌==◌,
}
use c_ssz.Common.{if◌then◌else◌, memcpy, loads_lem, Run, stores, length-map}
use c_ssz.Types.{Written}
use c_ssz.Host.{Endian, object_bytes}
use c_ssz.Serialize.{finish}
use c_ssz.Serialize.Emit.{emit_within, emit_within_lem, sequence_lem}
use c_ssz.Serialize.Uints.{bit, bytes16, bytes32, bytes64}
use c_ssz.Serialize.Uints.Encode.{bytes16_lem, bytes32_lem, bytes64_lem}
use c_ssz.Serialize.Vectors.{put_uints, put_wide, bool_loop}
use c_ssz.Serialize.Vectors.Loops.{
  encoding, length-encoding, put_uints_lem, put_wide_lem, bool_loop_lem,
}
use c_ssz.Serialize.Lists.{serialize_list_uint8, serialize_list_uint16, serialize_list_uint32}
use c_ssz.Serialize.Lists.{serialize_list_uint64, serialize_list_uint128, serialize_list_uint256}
use c_ssz.Serialize.Lists.{serialize_list_bool}

module _ (buf : List ℕ) (size : ℕ) (fits : size ≤ length buf) where
  -- What a list of `count` elements with the encoding `bs` leaves behind.
  abbrev pub encoded : ℕ → List ℕ → Run Written
  encoded count bs = if count == 0 then finish buf 0 else emit_within bs buf size

  -- Bytes are copied as they are.
  pub serialize_list_uint8_lem :
      (xs rest : List ℕ)
      → serialize_list_uint8 (some (xs ++ rest)) (length xs) (some buf) (some size)
        ≡ encoded (length xs) xs
  unfolding serialize_list_uint8
  serialize_list_uint8_lem xs rest =
      ap (λ r. if length xs == 0 then finish buf 0 else r)
        (emit_within_lem xs buf size (length xs) (memcpy buf 0 (xs ++ rest) (length xs)) refl copied
          fits)
    where
      copied : memcpy buf 0 (xs ++ rest) (length xs) ≡ stores buf 0 xs
      copied = unfold memcpy in rw (loads_lem [] xs rest 0 refl)

  -- A Boolean is the byte 0 or 1.
  pub serialize_list_bool_lem :
      (xs rest : List Bool)
      → serialize_list_bool (some (xs ++ rest)) (length xs) (some buf) (some size)
        ≡ encoded (length xs) (map bit xs)
  unfolding serialize_list_bool
  serialize_list_bool_lem xs rest =
      ap (λ r. if length xs == 0 then finish buf 0 else r)
        (emit_within_lem (map bit xs) buf size (length xs)
          (bool_loop (xs ++ rest) (length xs) 0 buf) (length-map xs bit)
          (bool_loop_lem [] xs rest (xs ++ rest) buf 0 refl refl) fits)

  pub serialize_list_uint16_lem :
      (e : Endian) (xs rest : List ℕ)
      → length xs * 2 < 2 ^ 64
      → serialize_list_uint16 e (some (xs ++ rest)) (length xs) (some buf) (some size)
        ≡ encoded (length xs) (encoding 2 xs)
  unfolding serialize_list_uint16
  serialize_list_uint16_lem e xs rest h =
      sequence_lem _ (encoding 2 xs) buf size (length xs) (length xs * 2)
        (λ total. put_uints e 2 (λ val. bytes16 val) (xs ++ rest) (length xs) total buf)
        (length-encoding 2 xs) h (put_uints_lem e 2 (λ val. bytes16 val) bytes16_lem xs rest buf h)
        fits

  pub serialize_list_uint32_lem :
      (e : Endian) (xs rest : List ℕ)
      → length xs * 4 < 2 ^ 64
      → serialize_list_uint32 e (some (xs ++ rest)) (length xs) (some buf) (some size)
        ≡ encoded (length xs) (encoding 4 xs)
  unfolding serialize_list_uint32
  serialize_list_uint32_lem e xs rest h =
      sequence_lem _ (encoding 4 xs) buf size (length xs) (length xs * 4)
        (λ total. put_uints e 4 (λ val. bytes32 val) (xs ++ rest) (length xs) total buf)
        (length-encoding 4 xs) h (put_uints_lem e 4 (λ val. bytes32 val) bytes32_lem xs rest buf h)
        fits

  pub serialize_list_uint64_lem :
      (e : Endian) (xs rest : List ℕ)
      → length xs * 8 < 2 ^ 64
      → serialize_list_uint64 e (some (xs ++ rest)) (length xs) (some buf) (some size)
        ≡ encoded (length xs) (encoding 8 xs)
  unfolding serialize_list_uint64
  serialize_list_uint64_lem e xs rest h =
      sequence_lem _ (encoding 8 xs) buf size (length xs) (length xs * 8)
        (λ total. put_uints e 8 (λ val. bytes64 val) (xs ++ rest) (length xs) total buf)
        (length-encoding 8 xs) h (put_uints_lem e 8 (λ val. bytes64 val) bytes64_lem xs rest buf h)
        fits

  pub serialize_list_uint128_lem :
      (e : Endian) (xs : List ℕ) (rest : List ℕ)
      → length xs * 16 < 2 ^ 64
      → serialize_list_uint128 e
          (some (object_bytes e 16 xs ++ rest))
          (length xs)
          (some buf)
          (some size)
        ≡ encoded (length xs) (encoding 16 xs)
  unfolding serialize_list_uint128
  serialize_list_uint128_lem e xs rest h =
      sequence_lem _ (encoding 16 xs) buf size (length xs) (length xs * 16)
        (λ total. put_wide e 16 (object_bytes e 16 xs ++ rest) (length xs) total buf)
        (length-encoding 16 xs) h (put_wide_lem e 16 xs rest buf h) fits

  pub serialize_list_uint256_lem :
      (e : Endian) (xs : List ℕ) (rest : List ℕ)
      → length xs * 32 < 2 ^ 64
      → serialize_list_uint256 e
          (some (object_bytes e 32 xs ++ rest))
          (length xs)
          (some buf)
          (some size)
        ≡ encoded (length xs) (encoding 32 xs)
  unfolding serialize_list_uint256
  serialize_list_uint256_lem e xs rest h =
      sequence_lem _ (encoding 32 xs) buf size (length xs) (length xs * 32)
        (λ total. put_wide e 32 (object_bytes e 32 xs ++ rest) (length xs) total buf)
        (length-encoding 32 xs) h (put_wide_lem e 32 xs rest buf h) fits
