-- ===== src/Base/Run.antt =====
-- A call that need not return: `none` means that the fuel ran out.
use mathlib.Core.Path.{◌≡◌, refl}
use mathlib.Core.Option.{Option, none, some}
use mathlib.Core.Logic.{◌≢◌}
use mathlib.Core.List.{List, [], ◌∷◌}
use dais.Base.Outcome.{CoreResult, ok, err}

abbrev pub Run {ℓ} : Type ℓ → Type ℓ
Run A = Option (CoreResult A)

infixl 5 ◌>>=◌
abbrev pub ◌>>=◌ {ℓ κ} : {A : Type ℓ} {B : Type κ} → Run A → (A → Run B) → Run B
none >>= f = none
some (ok a) >>= f = f a
some (err e) >>= f = some (err e)

-- The step of a call that returns.
abbrev pub done {ℓ} : {A : Type ℓ} → CoreResult A → Run A
done r = some r

abbrev pub return {ℓ} : {A : Type ℓ} → A → Run A
return a = some (ok a)

-- `iter().map(f).collect::<CoreResult<Vec<_>>>()`
module _ {ℓ κ} {A : Type ℓ} {B : Type κ} where
  unfoldable pub collect : (A → Run B) → List A → Run (List B)
  collect f [] = return []
  collect f (x ∷ xs) = do y ← f x; ys ← collect f xs; return (y ∷ ys)

-- Inversion of a bind that returns a value.
pub >>=-eq-return {ℓ κ} :
    {A : Type ℓ} {B : Type κ} (m : Run A) (f : A → Run B) {b : B}
    → (m >>= f) ≡ return b
    → (a : A) × (m ≡ return a) × (f a ≡ return b)
>>=-eq-return none f h = cc
>>=-eq-return (some (ok a)) f h = (a, refl, h)
>>=-eq-return (some (err e)) f h = cc

-- A call that returns, with a value or with an error.
abbrev pub Returns {ℓ} : {A : Type ℓ} → Run A → Type ℓ
Returns m = m ≢ none

pub >>=-Returns {ℓ κ} :
    {A : Type ℓ} {B : Type κ} (m : Run A) (f : A → Run B)
    → Returns m
    → ((a : A) → Returns (f a))
    → Returns (m >>= f)
>>=-Returns none f h k = absurd (h refl)
>>=-Returns (some (ok a)) f h k = k a
>>=-Returns (some (err e)) f h k = λ p. cc

pub done-injective {ℓ} :
    {A : Type ℓ} (r s : CoreResult A) → ◌≡◌ {A = Run A} (done r) (done s) → r ≡ s
done-injective r s h = cc
