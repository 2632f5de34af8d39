-- ===== src/Migrations/Tests.antt =====
-- A migration of two statements.
use dais.Base.{ℕ, Text, bytes, [], ◌∷◌, ◌++◌, none, false, ok, ◌≡◌, ◌⊎◌, refl, List, CoreError}
use dais.Ipld.{pos}
use dais.Sample.{sample}
use dais.Store.{Store, finished, failed}
use dais.Migrations.{DatabaseDialect, Migration, create_table, statements_of, apply}
use dais.Migrations.Traces.{after_all, record_of, up_statements, apply-cases}

abbrev empty_store : Store ℕ
empty_store = record { execute = λ h sql ps. ok [] }

abbrev two_tables : Migration
two_tables = record {
  version = pos 1;
  name = bytes "first";
  up_sql = bytes "CREATE TABLE a (x); \n CREATE TABLE b (y);";
  down_sql = none;
}

run_two :
    statements_of two_tables.up_sql ≡ bytes "CREATE TABLE a (x)" ∷ bytes "CREATE TABLE b (y)" ∷ []
unfolding statements_of dais.Migrations.kept dais.Base.trim dais.Base.trim_end dais.Base.trim_start
    dais.Base.split bytes dais.Base.is_blank
run_two = refl

-- A semicolon within a literal ends a statement too.
run_literal :
    statements_of (bytes "INSERT INTO a VALUES ('x;y')")
    ≡ bytes "INSERT INTO a VALUES ('x" ∷ bytes "y')" ∷ []
unfolding statements_of dais.Migrations.kept dais.Base.trim dais.Base.trim_end dais.Base.trim_start
    dais.Base.split bytes dais.Base.is_blank
run_literal = refl

apply-cases_example :
    (apply sample empty_store DatabaseDialect.sqlite two_tables [] ≡ (
      finished tt,
      record_of sample empty_store DatabaseDialect.sqlite two_tables
          ∷ after_all
              (up_statements sample empty_store DatabaseDialect.sqlite two_tables)
              (record { sql = create_table DatabaseDialect.sqlite; params = [] } ∷ []),
    ))
    ⊎ ((e : CoreError) × (ps : List Text) × (qs : List Text) × (up_statements sample empty_store
            DatabaseDialect.sqlite two_tables
          ≡ ps ++ qs)
        × (apply sample empty_store DatabaseDialect.sqlite two_tables [] ≡ (
          failed e,
          after_all ps (record { sql = create_table DatabaseDialect.sqlite; params = [] } ∷ []),
        )))
unfolding dais.Migrations.is_applied dais.Store.◌>>=◌ dais.Migrations.ensure_migrations_table
    dais.Store.perform dais.Store.query dais.Store.pure
apply-cases_example =
    apply-cases sample empty_store DatabaseDialect.sqlite two_tables []
      (record { sql = create_table DatabaseDialect.sqlite; params = [] } ∷ []) refl
