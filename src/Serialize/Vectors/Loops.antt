-- ===== src/Serialize/Vectors/Loops.antt =====
-- What the copying loops of the vector and list serializers assign, on either byte order.
use c_ssz.Common.{ℕ, ◌+◌, ◌*◌, ◌^◌, ◌<◌, ◌≡◌, refl, sym, ap, ◌∙◌, arith}
use c_ssz.Common.{List, [], ◌∷◌, ◌++◌, append_assoc, Bool, map, length, length-append, concat_map}
use c_ssz.Common.{length-concat_map, concat_map-append, load, load-append, done, ◌>>=◌, >>=_congr}
use c_ssz.Common.{stores, store, stores-append, memcpy, loads_lem, sz}
use c_ssz.Host.{Endian, little, big, le_bytes, host_bytes, object_bytes, length-le_bytes}
use c_ssz.Host.{length-host_bytes}
use c_ssz.Serialize.Uints.{bit, swap_loop}
use c_ssz.Serialize.Uints.Encode.{swap_loop_lem}
use c_ssz.Serialize.Vectors.{put_loop, put_uints, wide_loop, put_wide, bool_loop}

-- The SSZ encoding of a sequence of integers.
abbrev pub encoding : ℕ → List ℕ → List ℕ
encoding w xs = concat_map (le_bytes w) xs

pub length-encoding : (w : ℕ) (xs : List ℕ) → length (encoding w xs) ≡ length xs * w
length-encoding w xs = length-concat_map (le_bytes w) w (length-le_bytes w) xs

-- One element written at `i * w` and the others behind it are one row of assignments.
stores-encoding :
    (w x : ℕ) (xs buf : List ℕ) (i : ℕ)
    → stores buf (i * w) (encoding w (x ∷ xs))
      ≡ (stores buf (i * w) (le_bytes w x) >>= λ q. stores q ((i + 1) * w) (encoding w xs))
stores-encoding w x xs buf i =
    stores-append buf (i * w) (le_bytes w x) (encoding w xs)
    ∙ >>=_congr (stores buf (i * w) (le_bytes w x)) _ _
        λ q. ap (λ (n : ℕ). stores q n (encoding w xs)) (omega (arith, length-le_bytes w x))

-- The front element of a tail of the source moves behind what has been read.
pub read_one {ℓ} :
    {A : Type ℓ} (pre : List A) (x : A) (ys src : List A)
    → src ≡ pre ++ x ∷ ys
    → src ≡ (pre ++ x ∷ []) ++ ys
read_one pre x ys src es = es ∙ sym (append_assoc pre (x ∷ []) ys)

put_loop_lem :
    (w : ℕ) (bytes : ℕ → List ℕ)
    → ((v : ℕ) → bytes v ≡ le_bytes w v)
    → (pre xs rest src buf : List ℕ) (i : ℕ) → src ≡ pre ++ (xs ++ rest)
    → i ≡ length pre
    → (i + length xs) * w < 2 ^ 64
    → put_loop w bytes src (length xs) i buf ≡ stores buf (i * w) (encoding w xs)
unfolding put_loop stores
put_loop_lem w bytes same pre [] rest src buf i es ei h = refl
put_loop_lem w bytes same pre (x ∷ xs) rest src buf i es ei h =
    rw (loaded, same x, no_wrap)
      (>>=_congr (stores buf (i * w) (le_bytes w x)) _ _ (λ q.
          put_loop_lem w bytes same (pre ++ x ∷ []) xs rest src q (i + 1)
            (read_one pre x (xs ++ rest) src es) (omega (arith, length-append pre (x ∷ [])))
            (omega arith))
        ∙ sym (stores-encoding w x xs buf i))
  where
    loaded : load src i ≡ done x
    loaded = rw es (load-append pre x (xs ++ rest) i ei)

    no_wrap : sz (i * w) ≡ i * w
    no_wrap = omega arith

-- Integers of up to 64 bits.
pub put_uints_lem :
    (e : Endian) (w : ℕ) (bytes : ℕ → List ℕ)
    → ((v : ℕ) → bytes v ≡ le_bytes w v)
    → (xs rest buf : List ℕ) → length xs * w < 2 ^ 64
    → put_uints e w bytes (xs ++ rest) (length xs) (length xs * w) buf
      ≡ stores buf 0 (encoding w xs)
unfolding put_uints memcpy
put_uints_lem little w bytes same xs rest buf h =
    rw (concat_map-append (host_bytes little w) xs rest, ← length-encoding w xs)
      (rw (loads_lem [] (encoding w xs) (concat_map (host_bytes little w) rest) 0 refl))
put_uints_lem big w bytes same xs rest buf h =
    put_loop_lem w bytes same [] xs rest (xs ++ rest) buf 0 refl refl (omega arith)
    ∙ ap (λ (n : ℕ). stores buf n (encoding w xs)) (omega arith)

-- Wide integers, of which `object_bytes` is the host's representation.
wide_loop_lem :
    (w : ℕ) (pre xs rest src buf : List ℕ) (i : ℕ)
    → src ≡ pre ++ (object_bytes big w xs ++ rest)
    → i * w ≡ length pre
    → (i + length xs) * w < 2 ^ 64
    → wide_loop w src (length xs) i buf ≡ stores buf (i * w) (encoding w xs)
unfolding wide_loop stores object_bytes
wide_loop_lem w pre [] rest src buf i es ei h = refl
wide_loop_lem w pre (x ∷ xs) rest src buf i es ei h =
    rw (no_wrap, swapped)
      (>>=_congr (stores buf (i * w) (le_bytes w x)) _ _ (λ q.
          wide_loop_lem w (pre ++ host_bytes big w x) xs rest src q (i + 1)
            (split ∙ sym (append_assoc pre (host_bytes big w x) (object_bytes big w xs ++ rest)))
            (omega (arith, length-append pre (host_bytes big w x), length-host_bytes big w x))
            (omega arith))
        ∙ sym (stores-encoding w x xs buf i))
  where
    no_wrap : sz (i * w) ≡ i * w
    no_wrap = omega arith

    split : src ≡ pre ++ (host_bytes big w x ++ (object_bytes big w xs ++ rest))
    split = es ∙ ap (λ t. pre ++ t) (append_assoc (host_bytes big w x) (object_bytes big w xs) rest)

    swapped : swap_loop w src (i * w) w 0 buf ≡ stores buf (i * w) (le_bytes w x)
    swapped =
        ap (λ (n : ℕ). swap_loop w src (i * w) n 0 buf) (sym (length-le_bytes w x))
        ∙ swap_loop_lem w pre (le_bytes w x) (object_bytes big w xs ++ rest) src (i * w) 0 buf split
            ei (omega (arith, length-le_bytes w x))
        ∙ ap (λ (n : ℕ). stores buf n (le_bytes w x)) (omega arith)

pub put_wide_lem :
    (e : Endian) (w : ℕ) (xs rest buf : List ℕ)
    → length xs * w < 2 ^ 64
    → put_wide e w (object_bytes e w xs ++ rest) (length xs) (length xs * w) buf
      ≡ stores buf 0 (encoding w xs)
unfolding put_wide memcpy object_bytes
put_wide_lem little w xs rest buf h =
    rw (← length-encoding w xs) (rw (loads_lem [] (encoding w xs) rest 0 refl))
put_wide_lem big w xs rest buf h =
    wide_loop_lem w [] xs rest (object_bytes big w xs ++ rest) buf 0 refl (omega arith)
      (omega arith)
    ∙ ap (λ (n : ℕ). stores buf n (encoding w xs)) (omega arith)

pub bool_loop_lem :
    (pre xs rest src : List Bool) (buf : List ℕ) (i : ℕ)
    → src ≡ pre ++ (xs ++ rest)
    → i ≡ length pre
    → bool_loop src (length xs) i buf ≡ stores buf i (map bit xs)
unfolding bool_loop stores
bool_loop_lem pre [] rest src buf i es ei = refl
bool_loop_lem pre (x ∷ xs) rest src buf i es ei = rw loaded (
    >>=_congr (store buf i (bit x)) _ _ λ q.
      bool_loop_lem (pre ++ x ∷ []) xs rest src q (i + 1) (read_one pre x (xs ++ rest) src es)
        (omega (arith, length-append pre (x ∷ []))))
  where
    loaded : load src i ≡ done x
    loaded = rw es (load-append pre x (xs ++ rest) i ei)
