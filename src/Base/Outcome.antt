-- ===== src/Base/Outcome.antt =====
-- core/src/error.rs: `CoreError` and `CoreResult`, with the combinators of `Result` that the core
-- library uses.
use mathlib.Core.Path.{◌≡◌, refl}
use mathlib.Core.Logic.{◌⊎◌, inl, inr}
use mathlib.Core.Option.{Option, none, some}
use mathlib.Core.List.{List, [], ◌∷◌}
use dais.Base.Texts.{Text}

-- `Platform` carries the platform's own error; the model keeps its message.
pub data CoreError : Type 0 where
  platform : Text → CoreError
  invalid_activity : Text → CoreError
  invalid_at_proto : Text → CoreError
  serialization : Text → CoreError
  signature_error : Text → CoreError
  not_found : Text → CoreError
  unauthorized : Text → CoreError
  internal : Text → CoreError

-- Rust's `Result<A, E>`.
pub data Result {ℓ κ} (E : Type κ) (A : Type ℓ) : Type (ℓ ⊔ κ) where
  ok : A → Result E A
  err : E → Result E A

abbrev pub CoreResult {ℓ} : Type ℓ → Type ℓ
CoreResult A = Result CoreError A

-- The operator `?`.
infixl 5 ◌>>=◌ ◌>>◌
abbrev pub ◌>>=◌ {ℓ κ} :
    {A : Type ℓ} {B : Type κ} → CoreResult A → (A → CoreResult B) → CoreResult B
ok a >>= f = f a
err e >>= f = err e

abbrev pub ◌>>◌ {ℓ κ} : {A : Type ℓ} {B : Type κ} → CoreResult A → CoreResult B → CoreResult B
m >> k = m >>= λ _. k

-- `Result::map_err`, from an error of a library to one of ours.
abbrev pub map_err {ℓ} : {E : Type 0} {A : Type ℓ} → (E → CoreError) → Result E A → CoreResult A
map_err f (ok a) = ok a
map_err f (err e) = err (f e)

-- `Option::ok_or_else`.
abbrev pub ok_or {ℓ} : {A : Type ℓ} → CoreError → Option A → CoreResult A
ok_or e none = err e
ok_or e (some a) = ok a

-- `iter().map(f).collect::<CoreResult<Vec<_>>>()`: the first error ends it.
module _ {ℓ κ} {A : Type ℓ} {B : Type κ} where
  unfoldable pub collect : (A → CoreResult B) → List A → CoreResult (List B)
  collect f [] = ok []
  collect f (x ∷ xs) = do y ← f x; ys ← collect f xs; ok (y ∷ ys)

pub Result-cases {ℓ κ} :
    {E : Type κ} {A : Type ℓ} (r : Result E A) → ((a : A) × (r ≡ ok a)) ⊎ ((e : E) × (r ≡ err e))
Result-cases (ok a) = inl (a, refl)
Result-cases (err e) = inr (e, refl)

-- Inversion of a successful bind, for proofs where the parts stay shut.
pub >>=-eq-ok {ℓ κ} :
    {A : Type ℓ} {B : Type κ} (call : CoreResult A) (next : A → CoreResult B) {last : B}
    → (call >>= next) ≡ ok last
    → (value : A) × (call ≡ ok value) × (next value ≡ ok last)
>>=-eq-ok (err error) next made = cc
>>=-eq-ok (ok value) next made = (value, refl, made)

ok-injective_at {ℓ} : {A : Type ℓ} (a b : A) → ◌≡◌ {A = CoreResult A} (ok a) (ok b) → a ≡ b
ok-injective_at a b h = cc

pub ok-injective {ℓ} : {A : Type ℓ} {a b : A} → ◌≡◌ {A = CoreResult A} (ok a) (ok b) → a ≡ b
ok-injective {a} {b} h = ok-injective_at a b h
