-- ===== src/Base/Outcome.antt =====
-- What a routine on C buffers can come to.
use mathlib.Core.Path.{◌≡◌, refl}

-- `done`: it returns with its results. `fail`: it returns its error value. `fault`: it reads or
-- writes outside a buffer. `hang`: the fuel of a loop ran out.
pub data Outcome {ℓ} (A : Type ℓ) : Type ℓ where
  done : A → Outcome A
  fail : Outcome A
  fault : Outcome A
  hang : Outcome A

infixl 5 ◌>>=◌
abbrev pub ◌>>=◌ {ℓ κ} : {A : Type ℓ} {B : Type κ} → Outcome A → (A → Outcome B) → Outcome B
done a >>= f = f a
fail >>= f = fail
fault >>= f = fault
hang >>= f = hang

-- The routine returns, well or with its error value.
abbrev pub Returns {ℓ} : {A : Type ℓ} → Outcome A → Type 0
Returns (done a) = Unit
Returns fail = Unit
Returns fault = ⊥
Returns hang = ⊥

pub >>=-Returns {ℓ κ} :
    {A : Type ℓ} {B : Type κ} (m : Outcome A) (f : A → Outcome B)
    → Returns m
    → ((a : A) → m ≡ done a → Returns (f a))
    → Returns (m >>= f)
>>=-Returns (done a) f r h = h a refl
>>=-Returns fail f r h = tt
>>=-Returns fault f r h = r
>>=-Returns hang f r h = r
