-- ===== src/Migrations/Traces.antt =====
-- What an application of a migration (core/src/migrations.rs) leaves in the database.
use dais.Base.{
  Text, bytes, List, [], ◌∷◌, ◌++◌, false, ◌≡◌, refl, ◌⊎◌, inl, inr, sym, append-nil, CoreError,
  internal, platform, Result-cases,
}
use dais.Json.{Value}
use dais.Formats.{Formats}
use dais.Store.{Store, Statement, History, finished, failed, perform, written, ◌>>=◌}
use dais.Migrations.{
  DatabaseDialect, Migration, show_version, statements_of, convert_placeholders, is_applied, ran,
  run_statements, record_migration, apply_new, apply,
}

-- The history after statements without parameters have run in their order.
abbrev pub after_all : {N : Type 0} → List Text → History N → History N
after_all [] h = h
after_all (sql ∷ more) h = after_all more (record { sql = sql; params = [] } ∷ h)

module _ {C F N : Type 0} (x : Formats C F N) (store : Store N) (dialect : DatabaseDialect) where
  -- The statements all run, or a front of them does and the next one fails.
  run_statements-cases :
      (failing : Text) (sqls : List Text) (h : History N)
      → (run_statements x store dialect failing sqls h ≡ (finished tt, after_all sqls h))
        ⊎ ((e : CoreError) × (ps : List Text) × (qs : List Text) × (sqls ≡ ps ++ qs)
            × (run_statements x store dialect failing sqls h ≡ (failed e, after_all ps h)))
  unfolding run_statements ran ◌>>=◌
  run_statements-cases failing [] h = inl refl
  run_statements-cases failing (sql ∷ more) h = elim (Result-cases (store.execute h sql [])) [
    | inr (e, fails) ↦ inr (internal (failing ++ e), [], sql ∷ more, refl, rw (fails, ran) refl)
    | inl (rows, runs) ↦
        elim (run_statements-cases failing more (record { sql = sql; params = [] } ∷ h)) [
          | inl all ↦ inl (rw (runs, ran) all)
          | inr (e, ps, qs, cut, stops) ↦ inr (e, sql ∷ ps, qs, rw cut refl, rw (runs, ran) stops)
        ]
  ]

  -- The record of a migration.
  abbrev pub record_of : Migration → Statement N
  record_of migration = record {
    sql =
        convert_placeholders (bytes "INSERT INTO schema_migrations (version, name) VALUES (?1, ?2)")
          dialect;
    params = Value.number (x.from_i64 migration.version) ∷ Value.string migration.name ∷ [];
  }

  abbrev pub up_statements : Migration → List Text
  up_statements migration = statements_of (convert_placeholders migration.up_sql dialect)

  record_migration-cases :
      (migration : Migration) (h : History N)
      → (record_migration x store dialect migration h ≡ (finished tt, record_of migration ∷ h))
        ⊎ ((e : CoreError) × (record_migration x store dialect migration h ≡ (failed e, h)))
  unfolding record_migration perform written
  record_migration-cases migration h =
      elim (Result-cases (store.execute h (record_of migration).sql (record_of migration).params)) [
        | inl (rows, e) ↦ inl (rw (e, written) refl)
        | inr (error, e) ↦ inr (platform error, rw (e, written) refl)
      ]

  apply_new-cases :
      (migration : Migration) (h : History N)
      → (apply_new x store dialect migration h
          ≡ (finished tt, record_of migration ∷ after_all (up_statements migration) h))
        ⊎ ((e : CoreError) × (ps : List Text) × (qs : List Text) × (up_statements migration
              ≡ ps ++ qs)
            × (apply_new x store dialect migration h ≡ (failed e, after_all ps h)))
  unfolding apply_new ◌>>=◌
  apply_new-cases migration h =
      elim (run_statements-cases
        (bytes "Migration " ++ (show_version migration.version ++ bytes " failed: "))
        (up_statements migration) h) [
          | inr (e, ps, qs, cut, stops) ↦ inr (e, ps, qs, cut, rw stops refl)
          | inl all ↦
              elim (record_migration-cases migration (after_all (up_statements migration) h)) [
                | inl recorded ↦ inl (rw (all, recorded) refl)
                | inr (e, fails) ↦
                    inr (e, up_statements migration, [], sym (append-nil _), rw (all, fails) refl)
              ]
        ]

  -- A migration that is not yet applied either runs all its statements in their order, and its record
  -- last of all, or fails behind a front of its statements, with no record.
  pub apply-cases :
      (migration : Migration) (h asked : History N)
      → is_applied x store dialect migration.version h ≡ (finished false, asked)
      → (apply x store dialect migration h
          ≡ (finished tt, record_of migration ∷ after_all (up_statements migration) asked))
        ⊎ ((e : CoreError) × (ps : List Text) × (qs : List Text) × (up_statements migration
              ≡ ps ++ qs)
            × (apply x store dialect migration h ≡ (failed e, after_all ps asked)))
  unfolding apply ◌>>=◌
  apply-cases migration h asked fresh = rw fresh (apply_new-cases migration asked)
