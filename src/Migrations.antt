-- ===== src/Migrations.antt =====
-- core/src/migrations.rs and `convert_placeholders` of core/src/sql/mod.rs: migrations are applied once
-- each, and recorded. The lines that are printed are left out.
mod Traces
mod Tests
use dais.Base.{
  ℕ, zero, suc, ◌+◌, ◌-◌, ◌%◌, ◌^◌, Text, bytes, List, [], ◌∷◌, ◌++◌, Option, none, some, Bool,
  true, false, not, ltb, leb, CoreError, internal, Result, ok, err, if◌then◌else◌, split, trim,
  decimal, ok_or, starts_with, drop, length,
}
use dais.Ipld.{ℤ, pos, negsuc}
use dais.Json.{Value, Members, get_member}
use dais.Formats.{Formats}
use dais.Store.{
  Store, Statement, Outcome, finished, failed, Exec, History, pure, throw, lift, query, perform,
  ◌>>=◌, ◌>>◌,
}

pub data DatabaseDialect : Type 0 where
  sqlite postgresql mysql : DatabaseDialect

pub record Migration : Type 0 where
  pub version : ℤ
  pub name : Text
  pub up_sql : Text
  pub down_sql : Option Text

-- `replace` of a pattern of two characters or more
unfoldable pub replace_text : ℕ → Text → Text → Text → Text
replace_text zero pattern by t = t
replace_text (suc fuel) pattern by [] = []
replace_text (suc fuel) pattern by (c ∷ t) = elim (starts_with (c ∷ t) pattern) [
  | true ↦ by ++ replace_text fuel pattern by (drop (length pattern) (c ∷ t))
  | false ↦ c ∷ replace_text fuel pattern by t
]

-- The placeholders from a number down to 1.
replace_all : (ℕ → Text) → ℕ → Text → Text
unfolding replace_text
replace_all by zero sql = sql
replace_all by (suc i) sql =
    replace_all by i (replace_text (length sql) (bytes "?" ++ decimal (suc i)) (by (suc i)) sql)

unfoldable pub convert_placeholders : Text → DatabaseDialect → Text
unfolding replace_all
convert_placeholders sql sqlite = sql
convert_placeholders sql postgresql = replace_all (λ i. bytes "$" ++ decimal i) 20 sql
convert_placeholders sql mysql = replace_all (λ i. bytes "?") 20 sql

unfoldable pub create_table : DatabaseDialect → Text
create_table sqlite =
    bytes
      "\n                CREATE TABLE IF NOT EXISTS schema_migrations (\n                    version INTEGER PRIMARY KEY,\n                    name TEXT NOT NULL,\n                    applied_at TEXT NOT NULL DEFAULT CURRENT_TIMESTAMP\n                )\n            "
create_table postgresql =
    bytes
      "\n                CREATE TABLE IF NOT EXISTS schema_migrations (\n                    version INTEGER PRIMARY KEY,\n                    name TEXT NOT NULL,\n                    applied_at TIMESTAMP NOT NULL DEFAULT CURRENT_TIMESTAMP\n                )\n            "
create_table mysql =
    bytes
      "\n                CREATE TABLE IF NOT EXISTS schema_migrations (\n                    version INT PRIMARY KEY,\n                    name TEXT NOT NULL,\n                    applied_at TIMESTAMP NOT NULL DEFAULT CURRENT_TIMESTAMP\n                )\n            "

-- A number as the code prints it.
show_version : ℤ → Text
show_version (pos n) = decimal n
show_version (negsuc n) = bytes "-" ++ decimal (suc n)

-- `as i32`, which wraps.
unfoldable pub as_i32 : ℤ → ℤ
as_i32 (pos n) =
    if ltb (n % 2 ^ 32) (2 ^ 31) then pos (n % 2 ^ 32) else negsuc (2 ^ 32 - 1 - n % 2 ^ 32)
as_i32 (negsuc n) =
    if ltb (n % 2 ^ 32) (2 ^ 31) then negsuc (n % 2 ^ 32) else pos (2 ^ 32 - 1 - n % 2 ^ 32)

parts : Text × List Text → List Text
parts (part, more) = part ∷ more

-- `trim`, and the empty statements left out
unfoldable pub kept : List Text → List Text
kept [] = []
kept (part ∷ more) = elim (trim part) [ [] ↦ kept more | c ∷ t ↦ (c ∷ t) ∷ kept more ]

-- The statements of a text of SQL.
unfoldable pub statements_of : Text → List Text
unfolding parts
statements_of sql = kept (parts (split 59 sql))

is_positive : ℤ → Bool
is_positive (pos n) = ltb 0 n
is_positive (negsuc n) = false

module _ {C F N : Type 0} (x : Formats C F N) (store : Store N) (dialect : DatabaseDialect) where
  unfoldable pub ensure_migrations_table : Exec N (Unit {0})
  ensure_migrations_table = perform store (create_table dialect) []

  -- `get(column).and_then(|v| v.as_i64()).unwrap_or(0)`
  integer_of : Option (Value N) → ℤ
  integer_of (some (Value.number n)) = elim (x.as_i64 n) [ some i ↦ i | none ↦ pos 0 ]
  integer_of o = pos 0

  first_integer : Text → List (Members N) → ℤ
  first_integer column [] = pos 0
  first_integer column (row ∷ rows) = integer_of (get_member column row)

  unfoldable pub current_version : Exec N ℤ
  unfolding first_integer integer_of
  current_version = do
    ensure_migrations_table
    rows ← query store (bytes "SELECT MAX(version) as version FROM schema_migrations") []
    pure (as_i32 (first_integer (bytes "version") rows))

  unfoldable pub is_applied : ℤ → Exec N Bool
  unfolding first_integer integer_of is_positive
  is_applied version = do
    ensure_migrations_table
    rows ←
        query store
          (convert_placeholders
            (bytes "SELECT COUNT(*) as count FROM schema_migrations WHERE version = ?1") dialect)
          (Value.number (x.from_i64 version) ∷ [])
    pure (is_positive (first_integer (bytes "count") rows))

  -- A statement of a migration, whose error is told with the migration.
  unfoldable pub ran : Text → Text → Result Text (List (Members N)) → Exec N (Unit {0})
  ran failing sql (ok rows) h = (finished tt, record { sql = sql; params = [] } ∷ h)
  ran failing sql (err e) h = (failed (internal (failing ++ e)), h)

  unfoldable pub run_statements : Text → List Text → Exec N (Unit {0})
  run_statements failing [] h = (finished tt, h)
  run_statements failing (sql ∷ more) h =
      (ran failing sql (store.execute h sql []) >>= λ u. run_statements failing more) h

  unfoldable pub record_migration : Migration → Exec N (Unit {0})
  record_migration migration =
      perform store
        (convert_placeholders
          (bytes "INSERT INTO schema_migrations (version, name) VALUES (?1, ?2)") dialect)
        (Value.number (x.from_i64 migration.version) ∷ Value.string migration.name ∷ [])

  unfoldable pub apply_new : Migration → Exec N (Unit {0})
  unfolding show_version
  apply_new migration =
      run_statements (bytes "Migration " ++ (show_version migration.version ++ bytes " failed: "))
        (statements_of (convert_placeholders migration.up_sql dialect))
      >> record_migration migration

  unfoldable pub apply : Migration → Exec N (Unit {0})
  apply migration = do
    applied ← is_applied migration.version
    if applied then pure tt else apply_new migration

  migrate_each : List Migration → Exec N (Unit {0})
  migrate_each [] = pure tt
  migrate_each (migration ∷ more) = do
    applied ← is_applied migration.version
    if not applied then apply migration else pure tt
    migrate_each more

  unfoldable pub migrate : List Migration → Exec N (Unit {0})
  unfolding migrate_each
  migrate migrations = do ensure_migrations_table; migrate_each migrations

  rollback_applied : Migration → Exec N (Unit {0})
  unfolding show_version
  rollback_applied migration = do
    down_sql ← lift (
        ok_or
          (internal (
            bytes "Migration "
            ++ (show_version migration.version ++ bytes " has no down migration")))
          migration.down_sql)
    run_statements
        (bytes "Rollback of migration " ++ (show_version migration.version ++ bytes " failed: "))
        (statements_of (convert_placeholders down_sql dialect))
    perform store
        (convert_placeholders (bytes "DELETE FROM schema_migrations WHERE version = ?1") dialect)
        (Value.number (x.from_i64 migration.version) ∷ [])

  unfoldable pub rollback : Migration → Exec N (Unit {0})
  unfolding rollback_applied
  rollback migration = do
    applied ← is_applied migration.version
    if not applied then pure tt else rollback_applied migration
