-- ===== src/Activitypub/Signatures/Attempt.antt =====
-- Results whose error is a text, and the other crates that core/src/activitypub/signatures.rs uses.
use dais.Base.{
  ℕ, Text, Bytes, List, [], ◌∷◌, Option, none, some, Bool, Result, ok, err, text_eq, if◌then◌else◌,
}

abbrev pub Attempt : Type 0 → Type 0
Attempt A = Result Text A

infixl 5 ◌>>=◌ ◌>>◌
abbrev pub ◌>>=◌ : {A B : Type 0} → Attempt A → (A → Attempt B) → Attempt B
ok a >>= f = f a
err e >>= f = err e

abbrev pub ◌>>◌ : {A B : Type 0} → Attempt A → Attempt B → Attempt B
m >> k = m >>= λ _. k

abbrev pub map_err : {A : Type 0} → (Text → Text) → Attempt A → Attempt A
map_err f (ok a) = ok a
map_err f (err e) = err (f e)

abbrev pub ok_or : {A : Type 0} → Text → Option A → Attempt A
ok_or e none = err e
ok_or e (some a) = ok a

-- A map of headers, as the list of its entries.
abbrev pub Headers : Type 0
Headers = List (Text × Text)

unfoldable pub get_header : Text → Headers → Option Text
get_header name [] = none
get_header name ((key, value) ∷ more) =
    let rest = get_header name more in if text_eq key name then some value else rest

-- The crate `rsa`, with private keys `S`, public keys `P` and signatures `G`; decoding by `base64`; and
-- `str::to_lowercase`, which takes the tables of Unicode.
pub record Rsa (S P G : Type 0) : Type 0 where
  pub private_key : Text → Attempt S
  pub public_key : Text → Attempt P
  pub sign : S → Bytes → G
  pub verify : P → Bytes → G → Bool
  pub signature_bytes : G → Bytes
  pub signature_of : Bytes → Attempt G
  pub decode64 : Text → Attempt Bytes
  pub to_lowercase : Text → Text

-- The crate `chrono`, with moments `T`: `parse_from_rfc2822`, and the seconds between two moments,
-- `signed_duration_since(..).num_seconds().abs()`.
pub record Chrono (T : Type 0) : Type 0 where
  pub parse_rfc2822 : Text → Attempt T
  pub seconds_between : T → T → ℕ
