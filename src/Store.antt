-- ===== src/Store.antt =====
-- A database that is written to (core/src/traits/database.rs), as the state of a handler: the list
-- of the statements that it has run, the latest first. The answer to a statement depends on those
-- before it. A statement that fails leaves the database as it was.
pub mod Keeps
use dais.Base.{Text, List, [], ◌∷◌, Result, ok, err, CoreResult, CoreError, platform, map_err, Bool}
use dais.Json.{Value, Members}
use dais.Activitypub.Federation.{Database}

pub record Statement (N : Type 0) : Type 0 where
  pub sql : Text
  pub params : List (Value N)

abbrev pub History : Type 0 → Type 0
History N = List (Statement N)

-- `execute` of `DatabaseProvider`: the rows, or the text of the platform's error.
pub record Store (N : Type 0) : Type 0 where
  pub execute : History N → Text → List (Value N) → Result Text (List (Members N))

-- How a handler ends: with a value, with an error, or with a panic.
pub data Outcome (A : Type 0) : Type 0 where
  finished : A → Outcome A
  failed : CoreError → Outcome A
  panicked : Outcome A

abbrev pub Exec : Type 0 → Type 0 → Type 0
Exec N A = History N → Outcome A × History N

module _ {A : Type 0} where
  abbrev pub outcome : CoreResult A → Outcome A
  outcome (ok a) = finished a
  outcome (err e) = failed e

module _ {N A : Type 0} where
  unfoldable pub pure : A → Exec N A
  pure a h = (finished a, h)

  unfoldable pub throw : CoreError → Exec N A
  throw e h = (failed e, h)

  unfoldable pub panic : Exec N A
  panic h = (panicked, h)

  -- The operator `?` on a result.
  unfoldable pub lift : CoreResult A → Exec N A
  lift r h = (outcome r, h)

  -- A call that only reads the database as it is.
  unfoldable pub reads : Store N → (Database N → CoreResult A) → Exec N A
  reads store f h = (outcome (f (record { execute = store.execute h })), h)

  -- A call of a clock or a generator, whose answer depends on the moment.
  unfoldable pub gets : (History N → A) → Exec N A
  gets f h = (finished (f h), h)

module _ {N A B : Type 0} where
  abbrev pub continue : Outcome A → (A → Exec N B) → Exec N B
  continue (finished a) f h = f a h
  continue (failed e) f h = (failed e, h)
  continue panicked f h = (panicked, h)

  infixl 5 ◌>>=◌ ◌>>◌
  unfoldable pub ◌>>=◌ : Exec N A → (A → Exec N B) → Exec N B
  ◌>>=◌ m f h = let (r, h') = m h in continue r f h'

  abbrev pub ◌>>◌ : Exec N A → Exec N B → Exec N B
  m >> k = m >>= λ _. k

module _ {N : Type 0} where
  -- A statement that changes the database, and is remembered unless it fails.
  unfoldable pub written : Statement N → Result Text (List (Members N)) → Exec N (Unit {0})
  written st (ok rows) h = (finished tt, st ∷ h)
  written st (err e) h = (failed (platform e), h)

  unfoldable pub perform : Store N → Text → List (Value N) → Exec N (Unit {0})
  unfolding written
  perform store sql params h =
      written (record { sql = sql; params = params }) (store.execute h sql params) h

  -- A statement that only reads.
  unfoldable pub query : Store N → Text → List (Value N) → Exec N (List (Members N))
  query store sql params h = (outcome (map_err platform (store.execute h sql params)), h)

  -- A loop over a list.
  unfoldable pub for_each : {A : Type 0} → (A → Exec N (Unit {0})) → List A → Exec N (Unit {0})
  unfolding pure ◌>>=◌
  for_each f [] = pure tt
  for_each f (a ∷ more) = f a >>= λ u. for_each f more
