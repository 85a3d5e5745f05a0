-- ===== src/Common/Mem.antt =====
-- Objects in memory as lists of cells. An access outside the object is a fault.
use Prim.Native.Nat.{ℕ, zero, suc, ◌+◌, ◌≤◌}
use mathlib.Core.Path.{◌≡◌, refl, sym, ap, ◌∙◌}
use mathlib.Core.List.{List, [], ◌∷◌, ◌++◌, append_assoc}
use native.Mathlib.Omega.{arith}
use c_ssz.Common.Lists.{length, take, drop, replicate, length-append}
use c_ssz.Common.Lists.{take-append-drop, length-take_of_le, length-drop}
use c_ssz.Common.Exec.{Run, done, fault, ◌>>=◌, >>=_assoc, >>=_congr, >>=-done}

module _ {ℓ} {A : Type ℓ} where
  unfoldable pub load : List A → ℕ → Run A
  load [] i = fault
  load (x ∷ xs) zero = done x
  load (x ∷ xs) (suc i) = load xs i

  unfoldable pub store : List A → ℕ → A → Run (List A)
  store [] i v = fault
  store (x ∷ xs) zero v = done (v ∷ xs)
  store (x ∷ xs) (suc i) v = do ys ← store xs i v; done (x ∷ ys)

  -- The assignments `p[i] = v; p[i + 1] = v'; …`.
  unfoldable pub stores : List A → ℕ → List A → Run (List A)
  unfolding store
  stores p i [] = done p
  stores p i (v ∷ vs) = do q ← store p i v; stores q (i + 1) vs

  unfoldable pub loads : List A → ℕ → ℕ → Run (List A)
  unfolding load
  loads p i zero = done []
  loads p i (suc n) = do x ← load p i; rest ← loads p (i + 1) n; done (x ∷ rest)

  -- `memcpy(dst + at, src, n)` and `memset(dst + at, v, n)`, counted in cells.
  unfoldable pub memcpy : List A → ℕ → List A → ℕ → Run (List A)
  unfolding loads stores
  memcpy dst at src n = do vs ← loads src 0 n; stores dst at vs

  unfoldable pub memset : List A → ℕ → A → ℕ → Run (List A)
  unfolding stores
  memset dst at v n = stores dst at (replicate n v)

  pub load-append :
      (pre : List A) (x : A) (post : List A) (i : ℕ)
      → i ≡ length pre
      → load (pre ++ x ∷ post) i ≡ done x
  unfolding load
  load-append [] x post zero e = refl
  load-append [] x post (suc i) e = absurd (omega arith)
  load-append (y ∷ pre) x post zero e = absurd (omega arith)
  load-append (y ∷ pre) x post (suc i) e = load-append pre x post i (omega arith)

  pub store-append :
      (pre : List A) (x : A) (post : List A) (i : ℕ) (v : A)
      → i ≡ length pre
      → store (pre ++ x ∷ post) i v ≡ done (pre ++ v ∷ post)
  unfolding store
  store-append [] x post zero v e = refl
  store-append [] x post (suc i) v e = absurd (omega arith)
  store-append (y ∷ pre) x post zero v e = absurd (omega arith)
  store-append (y ∷ pre) x post (suc i) v e = rw (store-append pre x post i v (omega arith))

  pub stores-append :
      (p : List A) (i : ℕ) (vs ws : List A)
      → stores p i (vs ++ ws) ≡ (stores p i vs >>= λ q. stores q (i + length vs) ws)
  unfolding stores
  stores-append p i [] ws = ap (λ (j : ℕ). stores p j ws) (omega arith)
  stores-append p i (v ∷ vs) ws =
      >>=_congr (store p i v) (λ q. stores q (i + 1) (vs ++ ws)) (λ q. after q)
        (λ q. stores-append q (i + 1) vs ws ∙ >>=_congr (stores q (i + 1) vs) _ _ shift)
      ∙ sym (>>=_assoc (store p i v) (λ q. stores q (i + 1) vs) _)
    where
      after : List A → Run (List A)
      after q = stores q (i + 1) vs >>= λ r. stores r (i + suc (length vs)) ws

      shift : (q : List A) → stores q (i + 1 + length vs) ws ≡ stores q (i + suc (length vs)) ws
      shift q = ap (λ (j : ℕ). stores q j ws) (omega arith)

  pub stores-one : (p : List A) (i : ℕ) (v : A) → stores p i (v ∷ []) ≡ store p i v
  unfolding stores
  stores-one p i v = >>=-done (store p i v)

  -- A run of assignments inside the object replaces the cells that it names, and no other.
  pub stores_lem :
      (pre old post : List A) (i : ℕ) (vs : List A)
      → i ≡ length pre
      → length vs ≡ length old
      → stores (pre ++ (old ++ post)) i vs ≡ done (pre ++ (vs ++ post))
  unfolding stores
  stores_lem pre [] post i [] e h = refl
  stores_lem pre [] post i (v ∷ vs) e h = absurd (omega arith)
  stores_lem pre (o ∷ old) post i [] e h = absurd (omega arith)
  stores_lem pre (o ∷ old) post i (v ∷ vs) e h = rw (store-append pre o (old ++ post) i v e) (
      rw (sym (append_assoc pre (v ∷ []) (old ++ post))) (
        stores_lem (pre ++ v ∷ []) old post (i + 1) vs (omega (arith, length-append pre (v ∷ [])))
          (omega arith)
        ∙ ap done (append_assoc pre (v ∷ []) (vs ++ post))))

  pub loads_lem :
      (pre xs post : List A) (i : ℕ)
      → i ≡ length pre
      → loads (pre ++ (xs ++ post)) i (length xs) ≡ done xs
  unfolding loads
  loads_lem pre [] post i e = refl
  loads_lem pre (x ∷ xs) post i e =
      let rest =
        rw (append_assoc pre (x ∷ []) (xs ++ post)) at
          (loads_lem (pre ++ x ∷ []) xs post (i + 1) (omega (arith, length-append pre (x ∷ [])))) in
      simp (load-append pre x (xs ++ post) i e, rest)

  -- The same at an index within the object.
  pub stores_at :
      (buf vs : List A) (i : ℕ)
      → i + length vs ≤ length buf
      → stores buf i vs ≡ done (take i buf ++ (vs ++ drop (length vs) (drop i buf)))
  stores_at buf vs i h =
      ap (λ t. stores t i vs)
        (sym (
          ap (λ t. take i buf ++ t) (take-append-drop (length vs) (drop i buf))
          ∙ take-append-drop i buf))
      ∙ stores_lem (take i buf) (take (length vs) (drop i buf)) (drop (length vs) (drop i buf)) i vs
          (sym (length-take_of_le i buf (omega arith)))
          (sym (length-take_of_le (length vs) (drop i buf) (omega (arith, length-drop i buf))))

  -- The same from the object's front.
  pub stores-front :
      (buf vs : List A)
      → length vs ≤ length buf
      → stores buf 0 vs ≡ done (vs ++ drop (length vs) buf)
  stores-front buf vs h = rw (take-append-drop (length vs) buf) at (
      stores_lem [] (take (length vs) buf) (drop (length vs) buf) 0 vs refl
        (omega (arith, length-take_of_le (length vs) buf h)))

  -- Assignments behind those that gave `q` are the second part of one row.
  pub stores_after :
      (p q vs ws : List A)
      → stores p 0 vs ≡ done q
      → stores q (length vs) ws ≡ stores p 0 (vs ++ ws)
  stores_after p q vs ws e =
      sym (stores-append p 0 vs ws ∙ rw e (ap (λ (n : ℕ). stores q n ws) (omega arith)))

  pub memcpy-front :
      (buf vs post : List A) (n : ℕ)
      → n ≡ length vs
      → n ≤ length buf
      → memcpy buf 0 (vs ++ post) n ≡ done (vs ++ drop n buf)
  unfolding memcpy
  memcpy-front buf vs post n e h =
      rw e (rw (loads_lem [] vs post 0 refl) (stores-front buf vs (omega arith)))
