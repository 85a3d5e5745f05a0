-- ===== src/Generator/Unrolled.antt =====
-- The lists of the macros handle four elements in a round of their loop. That is the plain loop over
-- the elements.
use c_ssz.Common.{
  ℕ, zero, suc, ◌+◌, ◌-◌, ◌*◌, ◌/◌, ◌%◌, ◌^◌, ◌≡◌, refl, sym, ap, ap₂, ◌∙◌, arith, List, [], ◌∷◌,
  ◌++◌, append_assoc,
}
use c_ssz.Common.{
  length, take, drop, length-append, drop-append, Run, done, ◌>>=◌, >>=_congr, >>=_assoc,
  load-append, if◌then◌else◌, Bool-cases, inl, inr, some, ltb, ne→==, take-append-drop,
  length-take_of_le, length-drop,
}
use c_ssz.Types.{SszError, success, error_serialization, is_success}
use c_ssz.Generator.{SerializeFn, Writer, write_with, and_then}
use c_ssz.Generator.Lists.{write_element, write_groups, write_rest, serialize_list}

-- The same result from every buffer and offset.
abbrev SameWriter : Writer → Writer → Type 0
SameWriter f g = (out_buf : List ℕ) (offset : ℕ) → f out_buf offset ≡ g out_buf offset

abbrev trans_writer : (f g h : Writer) → SameWriter f g → SameWriter g h → SameWriter f h
trans_writer f g h p q out_buf offset = p out_buf offset ∙ q out_buf offset

and_then_congr : (f g g' : Writer) → SameWriter g g' → SameWriter (and_then f g) (and_then f g')
unfolding and_then
and_then_congr f g g' same out_buf offset =
    >>=_congr (f out_buf offset) _ _
      (λ (err, buf, at). ap (λ t. if is_success err then t else done (err, buf, at)) (same buf at))

and_then_assoc :
    (f g h : Writer) → SameWriter (and_then (and_then f g) h) (and_then f (and_then g h))
unfolding and_then
and_then_assoc f g h out_buf offset =
    >>=_assoc (f out_buf offset) _ _
    ∙ >>=_congr (f out_buf offset) _ _ (λ (err, buf, at). elim (Bool-cases (is_success err)) [
      | inl fine ↦ rw fine refl
      | inr failed ↦ rw failed (rw failed refl)
    ])

and_then_first : (f f' g : Writer) → SameWriter f f' → SameWriter (and_then f g) (and_then f' g)
unfolding and_then
and_then_first f f' g same out_buf offset =
    ap (λ m. m >>= λ (err, buf, at). if is_success err then g buf at else done (err, buf, at))
      (same out_buf offset)

-- The first statement of a sequence in front of all that follows.
push :
    (f f' g h rest : Writer)
    → SameWriter f f'
    → SameWriter (and_then g h) rest
    → SameWriter (and_then (and_then f g) h) (and_then f' rest)
push f f' g h rest same follows out_buf offset =
    and_then_assoc f g h out_buf offset
    ∙ and_then_first f f' (and_then g h) same out_buf offset
    ∙ and_then_congr f' (and_then g h) rest follows out_buf offset

-- The end of the macro's function.
abbrev pub finish_list : ℕ → SszError × List ℕ × ℕ → Run (SszError × List ℕ × ℕ)
finish_list out_size (err, out_buf, offset) =
    if is_success err
    then (if ltb (2 ^ 64 - 1) offset
        then done (error_serialization, out_buf, out_size)
        else done (success, out_buf, offset))
    else done (err, out_buf, out_size)

module _ {A : Type 0} (ser_func : A → SerializeFn) where
  -- The plain loop over a list.
  unfoldable pub write_all : List A → Writer
  write_all [] out_buf offset = done (success, out_buf, offset)
  write_all (x ∷ xs) out_buf offset =
      and_then (write_with 0 (ser_func x)) (write_all xs) out_buf offset

  write_element_lem :
      (pre post : List A) (x : A) (k : ℕ)
      → k ≡ length pre
      → SameWriter (write_element ser_func (pre ++ x ∷ post) k) (write_with 0 (ser_func x))
  unfolding write_element
  write_element_lem pre post x k e out_buf offset = rw (load-append pre x post k e)

  write_rest_lem :
      (pre xs post : List A) (i : ℕ)
      → i ≡ length pre
      → SameWriter (write_rest ser_func (length xs) i (pre ++ (xs ++ post))) (write_all xs)
  unfolding write_rest write_all
  write_rest_lem pre [] post i e out_buf offset = refl
  write_rest_lem pre (x ∷ xs) post i e out_buf offset =
      and_then_first (write_element ser_func (pre ++ x ∷ (xs ++ post)) i)
        (write_with 0 (ser_func x)) _ (write_element_lem pre (xs ++ post) x i e) out_buf offset
      ∙ and_then_congr (write_with 0 (ser_func x)) _ _
          (λ buf at.
            ap (λ t. write_rest ser_func (length xs) (i + 1) t buf at)
              (sym (append_assoc pre (x ∷ []) (xs ++ post)))
            ∙ write_rest_lem (pre ++ x ∷ []) xs post (i + 1)
                (omega (arith, length-append pre (x ∷ []))) buf at)
          out_buf offset

  -- Whole groups, and then what follows.
  write_groups_lem :
      (left : ℕ) (xs ys post : List A) (after : Writer)
      → length xs ≡ 4 * left
      → SameWriter after (write_all ys)
      → SameWriter (and_then (write_groups ser_func left (xs ++ post)) after) (write_all (xs ++ ys))
  unfolding write_groups write_all
  write_groups_lem zero [] ys post after e same out_buf offset =
      unfold and_then in same out_buf offset
  write_groups_lem zero (a ∷ xs) ys post after e same out_buf offset = absurd (omega arith)
  write_groups_lem (suc left) [] ys post after e same out_buf offset = absurd (omega arith)
  write_groups_lem (suc left) (a ∷ []) ys post after e same out_buf offset = absurd (omega arith)
  write_groups_lem (suc left) (a ∷ b ∷ []) ys post after e same out_buf offset =
      absurd (omega arith)
  write_groups_lem (suc left) (a ∷ b ∷ c ∷ []) ys post after e same out_buf offset =
      absurd (omega arith)
  write_groups_lem (suc left) (a ∷ b ∷ c ∷ d ∷ xs) ys post after e same out_buf offset =
      push _ _ _ after _ (write_element_lem [] (b ∷ c ∷ d ∷ (xs ++ post)) a 0 refl)
        (push _ _ _ after _ (write_element_lem (a ∷ []) (c ∷ d ∷ (xs ++ post)) b 1 refl) (
          push _ _ _ after _ (write_element_lem (a ∷ b ∷ []) (d ∷ (xs ++ post)) c 2 refl) (
            push _ _ _ after _ (write_element_lem (a ∷ b ∷ c ∷ []) (xs ++ post) d 3 refl)
              (write_groups_lem left xs ys post after (omega arith) same))))
        out_buf offset

  module _ (xs post : List A) where
    abbrev q : ℕ
    q = length xs / 4

    abbrev whole : List A
    whole = take (q * 4) xs

    abbrev others : List A
    others = drop (q * 4) xs

    split : xs ++ post ≡ whole ++ (others ++ post)
    split = ap (λ t. t ++ post) (sym (take-append-drop (q * 4) xs)) ∙ append_assoc whole others post

    length-whole : length whole ≡ q * 4
    length-whole = length-take_of_le (q * 4) xs (omega arith)

    behind : drop (q * 4) (xs ++ post) ≡ others ++ post
    behind =
        ap₂ (λ (n : ℕ) t. drop n t) (sym length-whole) split ∙ drop-append whole (others ++ post)

    remainder_lem :
        SameWriter
          (write_rest ser_func (length xs % 4) 0 (drop (q * 4) (xs ++ post)))
          (write_all others)
    remainder_lem out_buf offset =
        ap₂ (λ (n : ℕ) t. write_rest ser_func n 0 t out_buf offset) count behind
        ∙ write_rest_lem [] others post 0 refl out_buf offset
      where
        count : length xs % 4 ≡ length others
        count = omega (arith, length-drop (q * 4) xs)

    rounds_lem :
        SameWriter
          (and_then
            (write_groups ser_func q (xs ++ post))
            (write_rest ser_func (length xs % 4) 0 (drop (q * 4) (xs ++ post))))
          (write_all xs)
    rounds_lem out_buf offset =
        ap
          (λ t.
            and_then (write_groups ser_func q t)
              (write_rest ser_func (length xs % 4) 0 (drop (q * 4) (xs ++ post))) out_buf offset)
          split
        ∙ write_groups_lem q whole others (others ++ post) _ (omega (arith, length-whole))
            remainder_lem out_buf offset
        ∙ ap (λ t. write_all t out_buf offset) (take-append-drop (q * 4) xs)

  -- For an array with at least the list's elements: DEFINE_SERIALIZE_LIST, with its rounds of four and
  -- its remainder, returns and leaves what the plain loop over the elements returns and leaves, errors
  -- and faults included; it succeeds with the offset that this loop ends with, and fails where the loop
  -- fails, with the size that it was told left as it was.
  pub serialize_list-write_all :
      (xs post : List A) (out_buf : List ℕ) (out_size : ℕ)
      → serialize_list ser_func (length xs) (some (xs ++ post)) out_buf out_size
        ≡ (write_all xs out_buf 0 >>= finish_list out_size)
  unfolding serialize_list write_all
  serialize_list-write_all [] post out_buf out_size = refl
  serialize_list-write_all (x ∷ xs) post out_buf out_size =
      rw (ne→== (suc (length xs)) 0 (omega arith))
        (ap (λ m. m >>= finish_list out_size) (rounds_lem (x ∷ xs) post out_buf 0))
