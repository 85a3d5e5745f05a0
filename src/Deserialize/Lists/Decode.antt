-- ===== src/Deserialize/Lists/Decode.antt =====
-- The list deserializers read back the elements that an encoding stands for. Bytes behind the
-- encoding are not read, and cells of the output behind the last element stay as they are.
use c_ssz.Common.{
  ℕ, ◌*◌, ◌/◌, ◌%◌, ◌^◌, ◌≤◌, ◌<◌, ◌≡◌, refl, ap, ◌∙◌, arith, List, [], ◌++◌, some, Bool, map,
}
use c_ssz.Common.{length, drop, All, done, ◌>>=◌, memcpy-front}
use c_ssz.Common.{ltb, not, ◌==◌, if◌then◌else◌}
use native.Mathlib.Nat.{mul-mod_left, mul-div_cancel}
use c_ssz.Types.{success}
use c_ssz.Host.{Endian, object_bytes}
use c_ssz.Serialize.Uints.{bit}
use c_ssz.Serialize.Vectors.Loops.{encoding}
use c_ssz.Deserialize.Uints.{deserialize_uint16, deserialize_uint32, deserialize_uint64}
use c_ssz.Deserialize.Uints.{deserialize_uint128, deserialize_uint256}
use c_ssz.Deserialize.Uints.Decode.{uint16-Reader, uint32-Reader, uint64-Reader}
use c_ssz.Deserialize.Uints.Decode.{uint128-WideReader, uint256-WideReader}
use c_ssz.Deserialize.Vectors.{read_loop, read_wide_loop}
use c_ssz.Deserialize.Vectors.Loops.{read_loop_lem, read_wide_loop_lem, read_bool_loop_lem}
use c_ssz.Deserialize.Lists.{
  deserialize_list_uint8, deserialize_list_uint16, deserialize_list_uint32,
}
use c_ssz.Deserialize.Lists.{
  deserialize_list_uint64, deserialize_list_uint128, deserialize_list_uint256,
}
use c_ssz.Deserialize.Lists.{deserialize_list_bool, count_on_success}

-- The guards of a list, passed by a whole number of elements within the limit.
guards {ℓ} :
    {A : Type ℓ} (bad : A) (count max_length w : ℕ) (m : ℕ → A)
    → 0 < w
    → count ≤ max_length
    → (if not (count * w % w == 0)
        then bad
        else if ltb max_length (count * w / w)
        then bad
        else m (count * w / w))
      ≡ m count
guards bad count max_length w m pos h =
    rw (mul-mod_left count w, mul-div_cancel count pos) (ground arith)

module _ (post : List ℕ) (max_length actual : ℕ) where
  pub deserialize_list_uint8_lem :
      (xs old : List ℕ)
      → length xs ≤ max_length
      → length xs ≤ length old
      → deserialize_list_uint8 (some (xs ++ post)) (length xs) max_length (some old) (some actual)
        ≡ done (success, some (xs ++ drop (length xs) old), some (length xs))
  unfolding deserialize_list_uint8
  deserialize_list_uint8_lem xs old h room =
      rw (memcpy-front old xs post (length xs) refl room) (ground arith)

  pub deserialize_list_bool_lem :
      (xs old : List Bool)
      → length xs ≤ max_length
      → length xs ≤ length old
      → deserialize_list_bool
          (some (map bit xs ++ post))
          (length xs)
          max_length
          (some old)
          (some actual)
        ≡ done (success, some (xs ++ drop (length xs) old), some (length xs))
  unfolding deserialize_list_bool
  deserialize_list_bool_lem xs old h room =
      rw (read_bool_loop_lem xs [] post (map bit xs ++ post) [] old old 0 refl refl refl refl room)
        (ground arith)

  pub deserialize_list_uint16_lem :
      (xs old : List ℕ)
      → length xs ≤ max_length
      → All (λ x. x < 256 ^ 2) xs
      → length xs * 2 < 2 ^ 64
      → length xs ≤ length old
      → deserialize_list_uint16
          (some (encoding 2 xs ++ post))
          (length xs * 2)
          max_length
          (some old)
          (some actual)
        ≡ done (success, some (xs ++ drop (length xs) old), some (length xs))
  unfolding deserialize_list_uint16
  deserialize_list_uint16_lem xs old h fits small room =
      guards _ (length xs) max_length 2
        (λ count. read_loop 2 deserialize_uint16 (encoding 2 xs ++ post) count 0 old >>= λ r.
          count_on_success count actual r)
        (omega arith) h
      ∙ ap (λ m. m >>= λ r. count_on_success (length xs) actual r)
          (read_loop_lem 2 (encoding 2 xs ++ post) post deserialize_uint16 uint16-Reader xs [] []
            old old 0 refl refl refl refl room fits (omega arith))

  pub deserialize_list_uint32_lem :
      (xs old : List ℕ)
      → length xs ≤ max_length
      → All (λ x. x < 256 ^ 4) xs
      → length xs * 4 < 2 ^ 64
      → length xs ≤ length old
      → deserialize_list_uint32
          (some (encoding 4 xs ++ post))
          (length xs * 4)
          max_length
          (some old)
          (some actual)
        ≡ done (success, some (xs ++ drop (length xs) old), some (length xs))
  unfolding deserialize_list_uint32
  deserialize_list_uint32_lem xs old h fits small room =
      guards _ (length xs) max_length 4
        (λ count. read_loop 4 deserialize_uint32 (encoding 4 xs ++ post) count 0 old >>= λ r.
          count_on_success count actual r)
        (omega arith) h
      ∙ ap (λ m. m >>= λ r. count_on_success (length xs) actual r)
          (read_loop_lem 4 (encoding 4 xs ++ post) post deserialize_uint32 uint32-Reader xs [] []
            old old 0 refl refl refl refl room fits (omega arith))

  pub deserialize_list_uint64_lem :
      (xs old : List ℕ)
      → length xs ≤ max_length
      → All (λ x. x < 256 ^ 8) xs
      → length xs * 8 < 2 ^ 64
      → length xs ≤ length old
      → deserialize_list_uint64
          (some (encoding 8 xs ++ post))
          (length xs * 8)
          max_length
          (some old)
          (some actual)
        ≡ done (success, some (xs ++ drop (length xs) old), some (length xs))
  unfolding deserialize_list_uint64
  deserialize_list_uint64_lem xs old h fits small room =
      guards _ (length xs) max_length 8
        (λ count. read_loop 8 deserialize_uint64 (encoding 8 xs ++ post) count 0 old >>= λ r.
          count_on_success count actual r)
        (omega arith) h
      ∙ ap (λ m. m >>= λ r. count_on_success (length xs) actual r)
          (read_loop_lem 8 (encoding 8 xs ++ post) post deserialize_uint64 uint64-Reader xs [] []
            old old 0 refl refl refl refl room fits (omega arith))

  pub deserialize_list_uint128_lem :
      (e : Endian) (xs old : List ℕ)
      → length xs ≤ max_length
      → length xs * 16 < 2 ^ 64
      → length xs * 16 ≤ length old
      → deserialize_list_uint128 e
          (some (encoding 16 xs ++ post))
          (length xs * 16)
          max_length
          (some old)
          (some actual)
        ≡ done (success, some (object_bytes e 16 xs ++ drop (length xs * 16) old), some (length xs))
  unfolding deserialize_list_uint128
  deserialize_list_uint128_lem e xs old h small room =
      guards _ (length xs) max_length 16
        (λ count.
          read_wide_loop 16 (deserialize_uint128 e) (encoding 16 xs ++ post) count 0 old >>= λ r.
          count_on_success count actual r)
        (omega arith) h
      ∙ ap (λ m. m >>= λ r. count_on_success (length xs) actual r)
          (read_wide_loop_lem 16 (encoding 16 xs ++ post) post e (deserialize_uint128 e)
            (uint128-WideReader e) xs [] [] old old 0 refl refl refl refl room (omega arith))

  pub deserialize_list_uint256_lem :
      (e : Endian) (xs old : List ℕ)
      → length xs ≤ max_length
      → length xs * 32 < 2 ^ 64
      → length xs * 32 ≤ length old
      → deserialize_list_uint256 e
          (some (encoding 32 xs ++ post))
          (length xs * 32)
          max_length
          (some old)
          (some actual)
        ≡ done (success, some (object_bytes e 32 xs ++ drop (length xs * 32) old), some (length xs))
  unfolding deserialize_list_uint256
  deserialize_list_uint256_lem e xs old h small room =
      guards _ (length xs) max_length 32
        (λ count.
          read_wide_loop 32 (deserialize_uint256 e) (encoding 32 xs ++ post) count 0 old >>= λ r.
          count_on_success count actual r)
        (omega arith) h
      ∙ ap (λ m. m >>= λ r. count_on_success (length xs) actual r)
          (read_wide_loop_lem 32 (encoding 32 xs ++ post) post e (deserialize_uint256 e)
            (uint256-WideReader e) xs [] [] old old 0 refl refl refl refl room (omega arith))
