-- ===== src/Store/Keeps.antt =====
-- What a handler may write: one rule for each way to build a handler.
use dais.Base.{
  Text, List, [], ◌∷◌, Bool, true, false, ◌≡◌, refl, All, CoreError, CoreResult, ok, err,
  if◌then◌else◌, Result-cases, inl, inr,
}
use dais.Json.{Value}
use dais.Activitypub.Federation.{Database}
use dais.Store.{
  Statement, History, Store, Outcome, finished, failed, panicked, Exec, pure, throw, panic, lift,
  reads, gets, continue, ◌>>=◌, written, perform, query, for_each,
}

-- Every statement that `m` writes has the property `P`.
pub record Keeps {N A : Type 0} (P : Statement N → Type 0) (m : Exec N A) : Type 0 where
  pub at : (h : History N) → All P h → All P (m h).1

module _ {N A : Type 0} {P : Statement N → Type 0} where
  pub Keeps-pure : (a : A) → Keeps P (pure a)
  unfolding pure
  Keeps-pure a = record { at = λ h p. p }

  pub Keeps-throw : (e : CoreError) → Keeps P (throw {A = A} e)
  unfolding throw
  Keeps-throw e = record { at = λ h p. p }

  pub Keeps-panic : Keeps P (panic {A = A})
  unfolding panic
  Keeps-panic = record { at = λ h p. p }

  pub Keeps-lift : (r : CoreResult A) → Keeps P (lift r)
  unfolding lift
  Keeps-lift r = record { at = λ h p. p }

  pub Keeps-reads : (store : Store N) (f : Database N → CoreResult A) → Keeps P (reads store f)
  unfolding reads
  Keeps-reads store f = record { at = λ h p. p }

  pub Keeps-gets : (f : History N → A) → Keeps P (gets f)
  unfolding gets
  Keeps-gets f = record { at = λ h p. p }

  pub Keeps-if :
      (b : Bool) (m k : Exec N A)
      → (b ≡ true → Keeps P m)
      → (b ≡ false → Keeps P k)
      → Keeps P (if b then m else k)
  Keeps-if true m k km kk = km refl
  Keeps-if false m k km kk = kk refl

module _ {N A B : Type 0} {P : Statement N → Type 0} where
  Keeps-continue :
      (r : Outcome A) (f : A → Exec N B) → ((a : A) → Keeps P (f a)) → Keeps P (continue r f)
  Keeps-continue (finished a) f k = record { at = λ h p. (k a).at h p }
  Keeps-continue (failed e) f k = record { at = λ h p. p }
  Keeps-continue panicked f k = record { at = λ h p. p }

  pub Keeps-bind :
      (m : Exec N A) (f : A → Exec N B) → Keeps P m → ((a : A) → Keeps P (f a)) → Keeps P (m >>= f)
  unfolding ◌>>=◌
  Keeps-bind m f km kf = record {
    at = λ h p. let (r, h') = m h in (Keeps-continue r f kf).at h' (km.at h p);
  }

module _ {N : Type 0} {P : Statement N → Type 0} where
  pub Keeps-query :
      (store : Store N) (sql : Text) (params : List (Value N)) → Keeps P (query store sql params)
  unfolding query
  Keeps-query store sql params = record { at = λ h p. p }

  pub Keeps-perform :
      (store : Store N) (sql : Text) (params : List (Value N))
      → P (record { sql = sql; params = params })
      → Keeps P (perform store sql params)
  unfolding perform written
  Keeps-perform store sql params q = record {
    at = λ h p. elim (Result-cases (store.execute h sql params)) [
      | inl (rows, e) ↦ rw e (q, p)
      | inr (error, e) ↦ rw e p
    ];
  }

  pub Keeps-for_each :
      {A : Type 0} (f : A → Exec N (Unit {0})) (l : List A)
      → ((a : A) → Keeps P (f a))
      → Keeps P (for_each f l)
  unfolding for_each
  Keeps-for_each f [] k = Keeps-pure tt
  Keeps-for_each f (a ∷ more) k = Keeps-bind (f a) _ (k a) (λ u. Keeps-for_each f more k)

pub ruleset keeps_rules = (
  Keeps-pure, Keeps-throw, Keeps-panic, Keeps-lift, Keeps-reads, Keeps-gets, Keeps-if, Keeps-bind,
  Keeps-query, Keeps-perform, Keeps-for_each,
)

-- Every statement that `m` writes has the property `P`, when it is called after the statements `h`.
pub record KeepsAt {N A : Type 0} (P : Statement N → Type 0) (m : Exec N A) (h : History N)
    : Type 0 where
  pub after : All P h → All P (m h).1

module _ {N A : Type 0} {P : Statement N → Type 0} where
  pub KeepsAt-Keeps : (m : Exec N A) (h : History N) → Keeps P m → KeepsAt P m h
  KeepsAt-Keeps m h k = record { after = λ p. k.at h p }

  pub KeepsAt-if :
      (b : Bool) (m k : Exec N A) (h : History N)
      → (b ≡ true → KeepsAt P m h)
      → (b ≡ false → KeepsAt P k h)
      → KeepsAt P (if b then m else k) h
  KeepsAt-if true m k h km kk = km refl
  KeepsAt-if false m k h km kk = kk refl

module _ {N A B : Type 0} {P : Statement N → Type 0} where
  -- A call that writes nothing leaves the rest of the handler at the same moment.
  pub KeepsAt-lift :
      (r : CoreResult A) (f : A → Exec N B) (h : History N)
      → ((a : A) → r ≡ ok a → KeepsAt P (f a) h)
      → KeepsAt P (lift r >>= f) h
  unfolding lift ◌>>=◌
  KeepsAt-lift (ok a) f h k = record { after = λ p. (k a refl).after p }
  KeepsAt-lift (err e) f h k = record { after = λ p. p }

  pub KeepsAt-reads :
      (store : Store N) (q : Database N → CoreResult A) (f : A → Exec N B) (h : History N)
      → ((a : A) → q (record { execute = store.execute h }) ≡ ok a → KeepsAt P (f a) h)
      → KeepsAt P (reads store q >>= f) h
  unfolding reads lift ◌>>=◌
  KeepsAt-reads store q f h k = record {
    after = (KeepsAt-lift (q (record { execute = store.execute h })) f h k).after;
  }
