-- ===== src/Deserialize/Vectors/Decode.antt =====
-- The vector deserializers read back the elements that an encoding stands for. Bytes behind the
-- encoding are not read, and cells of the output behind the last element stay as they are.
use c_ssz.Common.{ℕ, ◌*◌, ◌^◌, ◌≤◌, ◌<◌, ◌≡◌, refl, ◌∙◌, arith, List, [], ◌++◌, some, Bool, map}
use c_ssz.Common.{length, drop, All, done, memcpy-front}
use c_ssz.Common.{not, ◌==◌, if◌then◌else◌, sz}
use native.Mathlib.Nat.{mod-eq_of_lt, mul-one}
use c_ssz.Types.{success}
use c_ssz.Host.{Endian, object_bytes}
use c_ssz.Serialize.Uints.{bit}
use c_ssz.Serialize.Vectors.Loops.{encoding}
use c_ssz.Deserialize.Uints.{deserialize_uint16, deserialize_uint32, deserialize_uint64}
use c_ssz.Deserialize.Uints.{deserialize_uint128, deserialize_uint256}
use c_ssz.Deserialize.Uints.Decode.{uint16-Reader, uint32-Reader, uint64-Reader}
use c_ssz.Deserialize.Uints.Decode.{uint128-WideReader, uint256-WideReader}
use c_ssz.Deserialize.Vectors.{read_loop, read_wide_loop}
use c_ssz.Deserialize.Vectors.Loops.{read_loop_lem, read_wide_loop_lem, read_bool_loop_lem}
use c_ssz.Deserialize.Vectors.{
  deserialize_vector_uint8, deserialize_vector_uint16, deserialize_vector_uint32,
}
use c_ssz.Deserialize.Vectors.{
  deserialize_vector_uint64, deserialize_vector_uint128, deserialize_vector_uint256,
}
use c_ssz.Deserialize.Vectors.{deserialize_vector_bool}

-- The guards of a vector, passed by a count that is not 0 and the size that belongs to it.
guards {ℓ} :
    {A : Type ℓ} (bad : A) (count total : ℕ) (m : A)
    → 0 < count
    → total < 2 ^ 64
    → (if count == 0 then bad else if not (total == sz total) then bad else m) ≡ m
guards bad count total m pos small = rw (mod-eq_of_lt small) (ground arith)

module _ (post : List ℕ) where
  pub deserialize_vector_uint8_lem :
      (xs old : List ℕ)
      → 0 < length xs
      → length xs < 2 ^ 64
      → length xs ≤ length old
      → deserialize_vector_uint8 (some (xs ++ post)) (length xs) (length xs) (some old)
        ≡ done (success, some (xs ++ drop (length xs) old))
  unfolding deserialize_vector_uint8
  deserialize_vector_uint8_lem xs old pos h room =
      rw (mul-one (length xs), mod-eq_of_lt h)
        (rw (memcpy-front old xs post (length xs) refl room) (ground arith))

  pub deserialize_vector_bool_lem :
      (xs old : List Bool)
      → 0 < length xs
      → length xs ≤ length old
      → deserialize_vector_bool (some (map bit xs ++ post)) (length xs) (length xs) (some old)
        ≡ done (success, some (xs ++ drop (length xs) old))
  unfolding deserialize_vector_bool
  deserialize_vector_bool_lem xs old h room =
      rw (read_bool_loop_lem xs [] post (map bit xs ++ post) [] old old 0 refl refl refl refl room)
        (ground arith)

  pub deserialize_vector_uint16_lem :
      (xs old : List ℕ)
      → 0 < length xs
      → All (λ x. x < 256 ^ 2) xs
      → length xs * 2 < 2 ^ 64
      → length xs ≤ length old
      → deserialize_vector_uint16
          (some (encoding 2 xs ++ post))
          (length xs * 2)
          (length xs)
          (some old)
        ≡ done (success, some (xs ++ drop (length xs) old))
  unfolding deserialize_vector_uint16
  deserialize_vector_uint16_lem xs old h fits small room =
      guards _ (length xs) (length xs * 2)
        (read_loop 2 deserialize_uint16 (encoding 2 xs ++ post) (length xs) 0 old) h small
      ∙ read_loop_lem 2 (encoding 2 xs ++ post) post deserialize_uint16 uint16-Reader xs [] [] old
          old 0 refl refl refl refl room fits (omega arith)

  pub deserialize_vector_uint32_lem :
      (xs old : List ℕ)
      → 0 < length xs
      → All (λ x. x < 256 ^ 4) xs
      → length xs * 4 < 2 ^ 64
      → length xs ≤ length old
      → deserialize_vector_uint32
          (some (encoding 4 xs ++ post))
          (length xs * 4)
          (length xs)
          (some old)
        ≡ done (success, some (xs ++ drop (length xs) old))
  unfolding deserialize_vector_uint32
  deserialize_vector_uint32_lem xs old h fits small room =
      guards _ (length xs) (length xs * 4)
        (read_loop 4 deserialize_uint32 (encoding 4 xs ++ post) (length xs) 0 old) h small
      ∙ read_loop_lem 4 (encoding 4 xs ++ post) post deserialize_uint32 uint32-Reader xs [] [] old
          old 0 refl refl refl refl room fits (omega arith)

  pub deserialize_vector_uint64_lem :
      (xs old : List ℕ)
      → 0 < length xs
      → All (λ x. x < 256 ^ 8) xs
      → length xs * 8 < 2 ^ 64
      → length xs ≤ length old
      → deserialize_vector_uint64
          (some (encoding 8 xs ++ post))
          (length xs * 8)
          (length xs)
          (some old)
        ≡ done (success, some (xs ++ drop (length xs) old))
  unfolding deserialize_vector_uint64
  deserialize_vector_uint64_lem xs old h fits small room =
      guards _ (length xs) (length xs * 8)
        (read_loop 8 deserialize_uint64 (encoding 8 xs ++ post) (length xs) 0 old) h small
      ∙ read_loop_lem 8 (encoding 8 xs ++ post) post deserialize_uint64 uint64-Reader xs [] [] old
          old 0 refl refl refl refl room fits (omega arith)

  pub deserialize_vector_uint128_lem :
      (e : Endian) (xs old : List ℕ)
      → 0 < length xs
      → length xs * 16 < 2 ^ 64
      → length xs * 16 ≤ length old
      → deserialize_vector_uint128 e
          (some (encoding 16 xs ++ post))
          (length xs * 16)
          (length xs)
          (some old)
        ≡ done (success, some (object_bytes e 16 xs ++ drop (length xs * 16) old))
  unfolding deserialize_vector_uint128
  deserialize_vector_uint128_lem e xs old h small room =
      guards _ (length xs) (length xs * 16)
        (read_wide_loop 16 (deserialize_uint128 e) (encoding 16 xs ++ post) (length xs) 0 old) h
        small
      ∙ read_wide_loop_lem 16 (encoding 16 xs ++ post) post e (deserialize_uint128 e)
          (uint128-WideReader e) xs [] [] old old 0 refl refl refl refl room (omega arith)

  pub deserialize_vector_uint256_lem :
      (e : Endian) (xs old : List ℕ)
      → 0 < length xs
      → length xs * 32 < 2 ^ 64
      → length xs * 32 ≤ length old
      → deserialize_vector_uint256 e
          (some (encoding 32 xs ++ post))
          (length xs * 32)
          (length xs)
          (some old)
        ≡ done (success, some (object_bytes e 32 xs ++ drop (length xs * 32) old))
  unfolding deserialize_vector_uint256
  deserialize_vector_uint256_lem e xs old h small room =
      guards _ (length xs) (length xs * 32)
        (read_wide_loop 32 (deserialize_uint256 e) (encoding 32 xs ++ post) (length xs) 0 old) h
        small
      ∙ read_wide_loop_lem 32 (encoding 32 xs ++ post) post e (deserialize_uint256 e)
          (uint256-WideReader e) xs [] [] old old 0 refl refl refl refl room (omega arith)
