-- ===== src/Serialize/Uints/Encode.antt =====
-- The integer serializers write the little-endian bytes of the value, on either byte order.
use c_ssz.Common.{ℕ, ◌+◌, ◌-◌, ◌^◌, ◌≤◌, ◌<◌, ◌≡◌, refl, sym, ap, ◌∙◌, arith}
use c_ssz.Common.{
  List, [], ◌∷◌, ◌++◌, some, reverse, append_assoc, length, length-append, load-append,
}
use c_ssz.Common.{Run, done, ◌>>=◌, >>=_congr, >>=-done, load, store, stores, memcpy, loads_lem}
use c_ssz.Common.{ltb, if◌then◌else◌}
use c_ssz.Types.{Written}
use c_ssz.Host.{Endian, little, big, le_bytes, host_order, host_bytes, length-le_bytes}
use c_ssz.Host.{host_order-host_order, length-reverse, length-host_bytes}
use c_ssz.Serialize.{rejected, finish}
use c_ssz.Serialize.Emit.{emit, emit_lem}
use c_ssz.Serialize.Uints.{swap_loop, copy_wide, bytes16, bytes32, bytes64, serialize_uint8}
use c_ssz.Serialize.Uints.{serialize_uint16, serialize_uint32, serialize_uint64, serialize_uint128}
use c_ssz.Serialize.Uints.{serialize_uint256}
use mathlib.Core.List.{reverse-append, reverse-reverse}

-- The swap reads a block from its end: it assigns the reversed block.
pub swap_loop_lem :
    (w : ℕ) (pre rs rest src : List ℕ) (base i : ℕ) (dst : List ℕ)
    → src ≡ pre ++ (reverse rs ++ rest)
    → base ≡ length pre
    → length rs + i ≡ w
    → swap_loop w src base (length rs) i dst ≡ stores dst (base + i) rs
unfolding swap_loop stores
swap_loop_lem w pre [] rest src base i dst es eb ew = refl
swap_loop_lem w pre (x ∷ rs) rest src base i dst es eb ew = rw loaded (
    >>=_congr (store dst (base + i) x) (λ q. swap_loop w src base (length rs) (i + 1) q)
      (λ q. stores q (base + i + 1) rs)
      λ q.
        swap_loop_lem w pre rs (x ∷ rest) src base (i + 1) q split eb (omega arith)
        ∙ ap (λ (n : ℕ). stores q n rs) (omega arith))
  where
    split : src ≡ pre ++ (reverse rs ++ x ∷ rest)
    split = es ∙ rw (reverse-append (x ∷ []) rs) (rw (append_assoc (reverse rs) (x ∷ []) rest))

    loaded : load src (base + (w - 1 - i)) ≡ done x
    loaded =
        rw (split, ← append_assoc pre (reverse rs) (x ∷ rest))
          (load-append (pre ++ reverse rs) x rest (base + (w - 1 - i))
            (omega (arith, length-append pre (reverse rs), length-reverse rs)))

-- The copy of a wide integer turns the host's order into SSZ's, and back: both are one reversal.
pub copy_wide_lem :
    (e : Endian) (w : ℕ) (xs post buf : List ℕ)
    → length xs ≡ w
    → copy_wide e w (xs ++ post) buf ≡ stores buf 0 (host_order e xs)
unfolding copy_wide memcpy host_order
copy_wide_lem little w xs post buf h = rw (← h) (rw (loads_lem [] xs post 0 refl))
copy_wide_lem big w xs post buf h =
    rw (← h, ← length-reverse xs)
      (swap_loop_lem (length (reverse xs)) [] (reverse xs) post (xs ++ post) 0 0 buf
        (rw (reverse-reverse xs)) refl (omega arith))

pub bytes16_lem : (v : ℕ) → bytes16 v ≡ le_bytes 2 v
unfolding le_bytes
bytes16_lem v = ground arith

pub bytes32_lem : (v : ℕ) → bytes32 v ≡ le_bytes 4 v
unfolding le_bytes
bytes32_lem v = ground arith

pub bytes64_lem : (v : ℕ) → bytes64 v ≡ le_bytes 8 v
unfolding le_bytes
bytes64_lem v = ground arith

module _ (v : ℕ) (buf : List ℕ) (size : ℕ) (fits : size ≤ length buf) where
  abbrev write : ℕ → List ℕ → Run Written
  write w bs = if ltb size w then rejected buf size else (stores buf 0 bs >>= λ q. finish q w)

  pub serialize_uint8-emit :
      v < 2 ^ 8 → serialize_uint8 (some v) (some buf) (some size) ≡ emit (le_bytes 1 v) buf size
  unfolding serialize_uint8 stores
  serialize_uint8-emit h =
      ap (λ m. if ltb size 1 then rejected buf size else (m >>= λ q. finish q 1))
        (sym (>>=-done (store buf 0 v)))
      ∙ ap (write 1) one_byte
      ∙ emit_lem (le_bytes 1 v) buf size 1 (length-le_bytes 1 v) fits
    where
      one_byte : v ∷ [] ≡ le_bytes 1 v
      one_byte = unfold le_bytes in ground arith

  pub serialize_uint16-emit :
      serialize_uint16 (some v) (some buf) (some size) ≡ emit (le_bytes 2 v) buf size
  unfolding serialize_uint16
  serialize_uint16-emit =
      ap (write 2) (bytes16_lem v) ∙ emit_lem (le_bytes 2 v) buf size 2 (length-le_bytes 2 v) fits

  pub serialize_uint32-emit :
      serialize_uint32 (some v) (some buf) (some size) ≡ emit (le_bytes 4 v) buf size
  unfolding serialize_uint32
  serialize_uint32-emit =
      ap (write 4) (bytes32_lem v) ∙ emit_lem (le_bytes 4 v) buf size 4 (length-le_bytes 4 v) fits

  pub serialize_uint64-emit :
      serialize_uint64 (some v) (some buf) (some size) ≡ emit (le_bytes 8 v) buf size
  unfolding serialize_uint64
  serialize_uint64-emit =
      ap (write 8) (bytes64_lem v) ∙ emit_lem (le_bytes 8 v) buf size 8 (length-le_bytes 8 v) fits

  -- The copy from the host's memory, as assignments of the little-endian bytes.
  host_copy :
      (e : Endian) (w : ℕ) (post : List ℕ)
      → copy_wide e w (host_bytes e w v ++ post) buf ≡ stores buf 0 (le_bytes w v)
  unfolding host_bytes
  host_copy e w post =
      copy_wide_lem e w (host_bytes e w v) post buf (length-host_bytes e w v)
      ∙ rw (host_order-host_order e (le_bytes w v))

  pub serialize_uint128-emit :
      (e : Endian) (post : List ℕ)
      → serialize_uint128 e (some (host_bytes e 16 v ++ post)) (some buf) (some size)
        ≡ emit (le_bytes 16 v) buf size
  unfolding serialize_uint128
  serialize_uint128-emit e post =
      ap (λ m. if ltb size 16 then rejected buf size else (m >>= λ q. finish q 16))
        (host_copy e 16 post)
      ∙ emit_lem (le_bytes 16 v) buf size 16 (length-le_bytes 16 v) fits

  pub serialize_uint256-emit :
      (e : Endian) (post : List ℕ)
      → serialize_uint256 e (some (host_bytes e 32 v ++ post)) (some buf) (some size)
        ≡ emit (le_bytes 32 v) buf size
  unfolding serialize_uint256
  serialize_uint256-emit e post =
      ap (λ m. if ltb size 32 then rejected buf size else (m >>= λ q. finish q 32))
        (host_copy e 32 post)
      ∙ emit_lem (le_bytes 32 v) buf size 32 (length-le_bytes 32 v) fits
