-- ===== src/Utils/Zero.antt =====
-- `is_zero` tells whether memory holds zeros only.
use c_ssz.Common.{
  ℕ, ◌+◌, ◌≡◌, refl, sym, ap, ◌∙◌, arith, List, [], ◌∷◌, ◌++◌, append_assoc, Bool, true, ◌&&◌,
  length,
}
use c_ssz.Common.{length-append, done, load-append, ◌==◌, Bool-cases, inl, inr}
use c_ssz.Utils.{is_zero, is_zero_loop}

-- Whether every cell is zero, without an index.
unfoldable pub zeros : List ℕ → Bool
zeros [] = true
zeros (b ∷ bs) = (b == 0) && zeros bs

is_zero_loop_lem :
    (pre bs post : List ℕ) (j : ℕ)
    → j ≡ length pre
    → is_zero_loop (pre ++ (bs ++ post)) (length bs) j ≡ done (zeros bs)
unfolding is_zero_loop zeros
is_zero_loop_lem pre [] post j e = refl
is_zero_loop_lem pre (b ∷ bs) post j e =
    rw (load-append pre b (bs ++ post) j e) (elim (Bool-cases (b == 0)) [
      | inl is ↦ rw is (
          ap (λ t. is_zero_loop t (length bs) (j + 1))
            (sym (append_assoc pre (b ∷ []) (bs ++ post)))
          ∙ is_zero_loop_lem (pre ++ b ∷ []) bs post (j + 1)
              (omega (arith, length-append pre (b ∷ []))))
      | inr other ↦ rw other refl
    ])

-- Of memory that holds the bytes at its front, `is_zero` reads no more than these, and tells
-- whether all are zero.
pub is_zero_lem : (bs post : List ℕ) → is_zero (bs ++ post) (length bs) ≡ done (zeros bs)
unfolding is_zero
is_zero_lem bs post = is_zero_loop_lem [] bs post 0 refl
