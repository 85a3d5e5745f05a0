-- ===== src/Generator/Offsets.antt =====
-- The table of offsets that stands in front of objects of variable size.
use c_ssz.Common.{
  ℕ, zero, suc, ◌+◌, ◌*◌, ◌^◌, ◌<◌, ◌≡◌, refl, sym, ap, ◌∙◌, arith, List, [], ◌∷◌, ◌++◌,
  append_assoc,
}
use c_ssz.Common.{
  length, take, drop, length-append, take-append-drop, length-take_of_le, length-drop,
}
use c_ssz.Common.{done, sz, u32}
use c_ssz.Types.{success}
use c_ssz.Host.{le_bytes, length-le_bytes}
use c_ssz.Generator.Variable.{put_offset, clear_table}
use c_ssz.Generator.Basic.{uint32-Serializes}
use c_ssz.Generator.Codec.{joined, write_with-Writes}

-- The table for encodings that stand one after the other from `at` on.
abbrev pub offsets_from : ℕ → List (List ℕ) → List ℕ
offsets_from at [] = []
offsets_from at (bs ∷ rest) = le_bytes 4 at ++ offsets_from (at + length bs) rest

-- The encoding of a list of objects of variable size.
abbrev pub variable_bytes : List (List ℕ) → List ℕ
variable_bytes encodings = offsets_from (length encodings * 4) encodings ++ joined encodings

pub length-offsets_from :
    (at : ℕ) (encodings : List (List ℕ)) → length (offsets_from at encodings) ≡ length encodings * 4
length-offsets_from at [] = refl
length-offsets_from at (bs ∷ rest) = omega (
  arith,
  length-append (le_bytes 4 at) (offsets_from (at + length bs) rest),
  length-le_bytes 4 at,
  length-offsets_from (at + length bs) rest,
)

pub put_offset_lem :
    (v at : ℕ) (pre old post : List ℕ)
    → at ≡ length pre
    → length old ≡ 4
    → at + 4 < 2 ^ 64
    → put_offset v at (pre ++ (old ++ post)) ≡ done (success, pre ++ (le_bytes 4 v ++ post))
unfolding put_offset
put_offset_lem v at pre old post e el small = rw e (
    rw
      (write_with-Writes 4 _ (le_bytes 4 v) (uint32-Serializes v) pre old post
        (el ∙ sym (length-le_bytes 4 v)) (omega (arith, length-le_bytes 4 v)))
      refl)

-- Cells behind others in two parts.
pub table_split_at :
    (n : ℕ) (front table post : List ℕ)
    → front ++ (table ++ post) ≡ front ++ (take n table ++ (drop n table ++ post))
table_split_at n front table post =
    ap (λ t. front ++ t)
      (ap (λ t. t ++ post) (sym (take-append-drop n table))
        ∙ append_assoc (take n table) (drop n table) post)

pub clear_table_lem :
    (left i start : ℕ) (pre table post : List ℕ)
    → start + i * 4 ≡ length pre
    → length table ≡ left * 4
    → start + (i + left) * 4 < 2 ^ 32
    → (table' : List ℕ) × (length table' ≡ left * 4)
      × (clear_table start left i (pre ++ (table ++ post))
          ≡ done (success, pre ++ (table' ++ post)))
unfolding clear_table
clear_table_lem zero i start pre table post e el small = (table, el, refl)
clear_table_lem (suc left) i start pre table post e el small =
    let (table', el', run) =
      clear_table_lem left (i + 1) start (pre ++ le_bytes 4 0) (drop 4 table) post
        (omega (arith, e, length-append pre (le_bytes 4 0), length-le_bytes 4 0))
        (omega (arith, length-drop 4 table, el)) (omega arith) in
    (
      le_bytes 4 0 ++ table',
      omega (arith, length-append (le_bytes 4 0) table', length-le_bytes 4 0, el'),
      rw (table_split_at 4 pre table post) (
          rw
            (put_offset_lem 0 (sz (start + u32 (i * 4))) pre (take 4 table) (drop 4 table ++ post)
              place (length-take_of_le 4 table (omega (arith, el))) (omega (arith, place, e)))
            (ap (λ t. clear_table start left (i + 1) t)
                (sym (append_assoc pre (le_bytes 4 0) (drop 4 table ++ post)))
              ∙ run
              ∙ ap (λ t. done (success, t)) (joined_again table'))),
    )
  where
    place : sz (start + u32 (i * 4)) ≡ length pre
    place = omega (arith, e)

    joined_again :
        (t : List ℕ) → (pre ++ le_bytes 4 0) ++ (t ++ post) ≡ pre ++ ((le_bytes 4 0 ++ t) ++ post)
    joined_again t =
        append_assoc pre (le_bytes 4 0) (t ++ post)
        ∙ ap (λ u. pre ++ u) (sym (append_assoc (le_bytes 4 0) t post))
