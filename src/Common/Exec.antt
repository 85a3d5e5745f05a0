-- ===== src/Common/Exec.antt =====
-- How a run of C code ends. `fault` is behaviour that C leaves undefined: a read or a write outside
-- an object, or through a null pointer, or signed arithmetic that overflows. `hang` is a loop that outlives its fuel.
use mathlib.Core.Path.{◌≡◌, refl}

pub data Run {ℓ} (A : Type ℓ) : Type ℓ where
  done : A → Run A
  fault : Run A
  hang : Run A

infixl 5 ◌>>=◌
abbrev pub ◌>>=◌ {ℓ κ} : {A : Type ℓ} {B : Type κ} → Run A → (A → Run B) → Run B
done a >>= f = f a
fault >>= f = fault
hang >>= f = hang

pub >>=_assoc {ℓ κ μ} :
    {A : Type ℓ} {B : Type κ} {C : Type μ} (m : Run A) (f : A → Run B) (g : B → Run C)
    → ((m >>= f) >>= g) ≡ (m >>= λ a. f a >>= g)
>>=_assoc (done a) f g = refl
>>=_assoc fault f g = refl
>>=_assoc hang f g = refl

pub >>=-done {ℓ} : {A : Type ℓ} (m : Run A) → (m >>= λ a. done a) ≡ m
>>=-done (done a) = refl
>>=-done fault = refl
>>=-done hang = refl

pub >>=_congr {ℓ κ} :
    {A : Type ℓ} {B : Type κ} (m : Run A) (f g : A → Run B)
    → ((a : A) → f a ≡ g a)
    → (m >>= f) ≡ (m >>= g)
>>=_congr (done a) f g h = h a
>>=_congr fault f g h = refl
>>=_congr hang f g h = refl
