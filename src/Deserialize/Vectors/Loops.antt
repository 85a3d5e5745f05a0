-- ===== src/Deserialize/Vectors/Loops.antt =====
-- What the reading loops of the vector and list deserializers store, for any reader of one element
-- that keeps the law of its interface.
use c_ssz.Common.{ℕ, suc, ◌+◌, ◌*◌, ◌^◌, ◌≤◌, ◌<◌, ◌≡◌, refl, sym, ap, ◌∙◌, arith}
use c_ssz.Common.{List, [], ◌∷◌, ◌++◌, append_assoc, Bool, true, false, map, length, length-append}
use c_ssz.Common.{Option, some, All, take, drop, drop-append, take-append, sz}
use c_ssz.Common.{length-drop, drop-drop, load, store, load-append, store-append, Run, done}
use native.Mathlib.Nat.{mod-eq_of_lt, zero-mul}
use c_ssz.Types.{SszError, success}
use c_ssz.Host.{Endian, le_bytes, host_bytes, object_bytes, length-le_bytes}
use c_ssz.Host.{length-host_bytes, le_bytes-All, le_value-le_bytes}
use c_ssz.Serialize.Uints.{bit}
use c_ssz.Serialize.Vectors.Loops.{encoding, read_one}
use c_ssz.Deserialize.Uints.{bool_of_byte}
use c_ssz.Deserialize.Uints.Decode.{Reader, WideReader}
use c_ssz.Deserialize.Vectors.{put_back, read_loop, rejoin, read_wide_loop, read_bool_loop}

-- The rest of the buffer at the place that the loop computes.
drop_at :
    (buffer pre ys : List ℕ) (n : ℕ)
    → buffer ≡ pre ++ ys
    → n ≡ length pre
    → n < 2 ^ 64
    → drop (sz n) buffer ≡ ys
drop_at buffer pre ys n eb en h = rw (mod-eq_of_lt h, en, eb) (drop-append pre ys)

pub bool_of_byte-bit : (b : Bool) → bool_of_byte (bit b) ≡ some b
unfolding bool_of_byte
bool_of_byte-bit true = refl
bool_of_byte-bit false = refl

module _ (w : ℕ) (buffer post : List ℕ) where
  pub read_loop_lem :
      (read : Option (List ℕ) → ℕ → Option ℕ → Run (SszError × Option ℕ))
      → Reader w read
      → (xs pre front old out : List ℕ) (i : ℕ) → buffer ≡ pre ++ (encoding w xs ++ post)
      → i * w ≡ length pre
      → out ≡ front ++ old
      → i ≡ length front
      → length xs ≤ length old
      → All (λ x. x < 256 ^ w) xs
      → (i + length xs) * w < 2 ^ 64
      → read_loop w read buffer (length xs) i out
        ≡ done (success, some (front ++ (xs ++ drop (length xs) old)))
  unfolding read_loop put_back
  read_loop_lem read r [] pre front old out i eb ei eo ef room fits h = rw eo
  read_loop_lem read r (x ∷ xs) pre front [] out i eb ei eo ef room fits h = absurd (omega arith)
  read_loop_lem read r (x ∷ xs) pre front (o ∷ old) out i eb ei eo ef room (hx, fits) h =
      rw (loaded, source, taken, stored)
        (read_loop_lem read r xs (pre ++ le_bytes w x) (front ++ x ∷ []) old (front ++ x ∷ old)
            (i + 1) (split ∙ sym (append_assoc pre (le_bytes w x) (encoding w xs ++ post)))
            (omega (arith, length-append pre (le_bytes w x), length-le_bytes w x))
            (sym (append_assoc front (x ∷ []) old)) (omega (arith, length-append front (x ∷ [])))
            (omega arith) fits (omega arith)
          ∙ ap (λ t. done (success, some t))
              (append_assoc front (x ∷ []) (xs ++ drop (length xs) old)))
    where
      split : buffer ≡ pre ++ (le_bytes w x ++ (encoding w xs ++ post))
      split = eb ∙ ap (λ t. pre ++ t) (append_assoc (le_bytes w x) (encoding w xs) post)

      loaded : load out i ≡ done o
      loaded = rw eo (load-append front o old i ef)

      source : drop (sz (i * w)) buffer ≡ le_bytes w x ++ (encoding w xs ++ post)
      source = drop_at buffer pre _ (i * w) split ei (omega arith)

      taken :
          read (some (le_bytes w x ++ (encoding w xs ++ post))) w (some o) ≡ done (success, some x)
      taken =
          r.reads (le_bytes w x) (encoding w xs ++ post) o (length-le_bytes w x) (le_bytes-All w x)
          ∙ ap (λ (v : ℕ). done (success, some v)) (le_value-le_bytes w x hx)

      stored : store out i x ≡ done (front ++ x ∷ old)
      stored = rw eo (store-append front o old i x ef)

  pub read_wide_loop_lem :
      (e : Endian) (read : Option (List ℕ) → ℕ → Option (List ℕ) → Run (SszError × Option (List ℕ)))
      → WideReader e w read
      → (xs pre front old out : List ℕ) (i : ℕ) → buffer ≡ pre ++ (encoding w xs ++ post)
      → i * w ≡ length pre
      → out ≡ front ++ old
      → i * w ≡ length front
      → length xs * w ≤ length old
      → (i + length xs) * w < 2 ^ 64
      → read_wide_loop w read buffer (length xs) i out
        ≡ done (success, some (front ++ (object_bytes e w xs ++ drop (length xs * w) old)))
  unfolding read_wide_loop rejoin object_bytes
  read_wide_loop_lem e read r [] pre front old out i eb ei eo ef room h = rw (eo, zero-mul w)
  read_wide_loop_lem e read r (x ∷ xs) pre front old out i eb ei eo ef room h =
      rw (source, target, taken)
        (ap (λ t. read_wide_loop w read buffer (length xs) (i + 1) t) joined
          ∙ read_wide_loop_lem e read r xs (pre ++ le_bytes w x) (front ++ host_bytes e w x)
              (drop w old) ((front ++ host_bytes e w x) ++ drop w old) (i + 1)
              (split ∙ sym (append_assoc pre (le_bytes w x) (encoding w xs ++ post)))
              (omega (arith, length-append pre (le_bytes w x), length-le_bytes w x)) refl
              (omega (arith, length-append front (host_bytes e w x), length-host_bytes e w x))
              (omega (arith, length-drop w old)) (omega arith)
          ∙ ap (λ t. done (success, some t)) regroup)
    where
      split : buffer ≡ pre ++ (le_bytes w x ++ (encoding w xs ++ post))
      split = eb ∙ ap (λ t. pre ++ t) (append_assoc (le_bytes w x) (encoding w xs) post)

      source : drop (sz (i * w)) buffer ≡ le_bytes w x ++ (encoding w xs ++ post)
      source = drop_at buffer pre _ (i * w) split ei (omega arith)

      target : drop (sz (i * w)) out ≡ old
      target = drop_at out front old (i * w) eo ef (omega arith)

      taken :
          read (some (le_bytes w x ++ (encoding w xs ++ post))) w (some old)
          ≡ done (success, some (host_bytes e w x ++ drop w old))
      taken =
          unfold host_bytes in
          r.reads_wide (le_bytes w x) (encoding w xs ++ post) old (length-le_bytes w x)
            (omega arith)

      joined :
          take (sz (i * w)) out ++ (host_bytes e w x ++ drop w old)
          ≡ (front ++ host_bytes e w x) ++ drop w old
      joined =
          rw (mod-eq_of_lt {n = i * w} {m = 2 ^ 64} (omega arith), ef, eo, take-append front old)
            (sym (append_assoc front (host_bytes e w x) (drop w old)))

      regroup :
          (front ++ host_bytes e w x) ++ (object_bytes e w xs ++ drop (length xs * w) (drop w old))
          ≡ front ++ ((host_bytes e w x ++ object_bytes e w xs) ++ drop (suc (length xs) * w) old)
      regroup =
          append_assoc front (host_bytes e w x) _
          ∙ ap (λ t. front ++ t)
              (sym (append_assoc (host_bytes e w x) (object_bytes e w xs) _)
                ∙ ap (λ t. (host_bytes e w x ++ object_bytes e w xs) ++ t)
                    (drop-drop w (length xs * w) old ∙ ap (λ (n : ℕ). drop n old) (omega arith)))

read_bool_step :
    (buffer : List ℕ) (left i b : ℕ) (v : Bool) (out out' : List Bool)
    → load buffer i ≡ done b
    → bool_of_byte b ≡ some v
    → store out i v ≡ done out'
    → read_bool_loop buffer (suc left) i out ≡ read_bool_loop buffer left (i + 1) out'
unfolding read_bool_loop
read_bool_step buffer left i b v out out' hl hb hs = ground arith

pub read_bool_loop_lem :
    (xs : List Bool) (pre post buffer : List ℕ) (front old out : List Bool) (i : ℕ)
    → buffer ≡ pre ++ (map bit xs ++ post)
    → i ≡ length pre
    → out ≡ front ++ old
    → i ≡ length front
    → length xs ≤ length old
    → read_bool_loop buffer (length xs) i out
      ≡ done (success, some (front ++ (xs ++ drop (length xs) old)))
unfolding read_bool_loop
read_bool_loop_lem [] pre post buffer front old out i eb ei eo ef room = rw eo
read_bool_loop_lem (x ∷ xs) pre post buffer front [] out i eb ei eo ef room = absurd (omega arith)
read_bool_loop_lem (x ∷ xs) pre post buffer front (o ∷ old) out i eb ei eo ef room =
    read_bool_step buffer (length xs) i (bit x) x out (front ++ x ∷ old) loaded (bool_of_byte-bit x)
      stored
    ∙ (read_bool_loop_lem xs (pre ++ bit x ∷ []) post buffer (front ++ x ∷ []) old
          (front ++ x ∷ old) (i + 1) (read_one pre (bit x) (map bit xs ++ post) buffer eb)
          (omega (arith, length-append pre (bit x ∷ []))) (sym (append_assoc front (x ∷ []) old))
          (omega (arith, length-append front (x ∷ []))) (omega arith)
        ∙ ap (λ t. done (success, some t))
            (append_assoc front (x ∷ []) (xs ++ drop (length xs) old)))
  where
    loaded : load buffer i ≡ done (bit x)
    loaded = rw eb (load-append pre (bit x) (map bit xs ++ post) i ei)

    stored : store out i x ≡ done (front ++ x ∷ old)
    stored = rw eo (store-append front o old i x ef)
