-- ===== src/Database.antt =====
-- internal/database/migration.go: the runner of the SQL migrations and its store.
pub mod Files
pub mod Pending
pub mod Recorded
use motekarindo_panel.Base.{
  ℕ, ◌-◌, zero, suc, Bool, true, false, Option, none, some, List, [], ◌∷◌, ◌++◌, any, map, length,
  ◌==◌, if◌then◌else◌,
}
use motekarindo_panel.Base.Text.{Text, txt}
use motekarindo_panel.Base.Text.Decimal.{decimal}
use motekarindo_panel.Base.Error.{Error, driver, wrap, Result, ok, err}
use motekarindo_panel.Base.Act.{Act, ◌>>=◌, ◌>>◌}
use motekarindo_panel.Base.Sql.{Conn, Sql, exec, transaction}

pub record Migration : Type 0 where
  pub version : ℕ
  pub name : Text
  pub path : Text
  pub sql : Text

-- MigrationStore; the map of the applied versions is the list of those that are true in it.
pub record MigrationStore (S : Type 0) : Type 0 where
  pub ensure : Act S (Unit {0})
  pub applied_versions : Act S (List ℕ)
  pub apply : Migration → Act S (Unit {0})

abbrev pub is_applied : List ℕ → Migration → Bool
is_applied applied m = any (λ v. v == m.version) applied

-- %06d
unfoldable pub zeros : ℕ → Text
zeros zero = []
zeros (suc n) = b'0' ∷ zeros n

unfoldable pub padded : ℕ → Text
unfolding zeros decimal
padded n = zeros (6 - length (decimal n)) ++ decimal n

abbrev pub apply_error : Migration → Error → Error
apply_error m e = wrap (txt "apply migration " ++ (padded m.version ++ (b'_' ∷ m.name))) e

-- What `Up` returns: the migrations that ran, and the error, if any.
abbrev pub Outcome : Type 0
Outcome = List Migration × Option Error

abbrev pub ran_first : {S : Type 0} → Migration → Outcome × S → Outcome × S
ran_first m ((ran, e), s) = ((m ∷ ran, e), s)

abbrev pub after_apply :
    {S : Type 0} → Migration → (S → Outcome × S) → Result (Unit {0}) × S → Outcome × S
after_apply m rest (ok u, s) = ran_first m (rest s)
after_apply m rest (err e, s) = (([], some (apply_error m e)), s)

-- The loop over the migrations.
unfoldable pub apply_pending :
    {S : Type 0} → MigrationStore S → List ℕ → List Migration → S → Outcome × S
apply_pending store applied [] s = (([], none), s)
apply_pending store applied (m ∷ migrations) s =
    if is_applied applied m
    then apply_pending store applied migrations s
    else after_apply m (λ s'. apply_pending store applied migrations s') (store.apply m s)

abbrev pub after_versions :
    {S : Type 0} → MigrationStore S → List Migration → Result (List ℕ) × S → Outcome × S
after_versions store migrations (ok applied, s) = apply_pending store applied migrations s
after_versions store migrations (err e, s) = (([], some e), s)

unfoldable pub up : {S : Type 0} → MigrationStore S → List Migration → S → Outcome × S
unfolding apply_pending ◌>>=◌
up store migrations s = after_versions store migrations ((store.ensure >> store.applied_versions) s)

-- The table schema_migrations, if it is there, and all that the migrations change.
pub record Schema (D : Type 0) : Type 0 where
  pub schema_migrations : Option (List (ℕ × Text))
  pub others : D

-- `script` is what the server does with the text of a migration.
module _ {D : Type 0} (script : Text → Schema D → Result (Unit {0}) × Schema D) where
  -- CREATE TABLE IF NOT EXISTS
  unfoldable pub create_if_missing : Schema D → Result (Unit {0}) × Schema D
  create_if_missing t = elim t.schema_migrations [
    | none ↦ (ok tt, record t { schema_migrations = some [] })
    | some rows ↦ (ok tt, t)
  ]

  abbrev pub no_table : Error
  no_table = driver (txt "relation \"schema_migrations\" does not exist")

  unfoldable pub select_versions : Schema D → Result (List ℕ) × Schema D
  select_versions t = elim t.schema_migrations [
    | none ↦ (err no_table, t)
    | some rows ↦ (ok (map (λ r. r.0) rows), t)
  ]

  -- The version is the primary key.
  unfoldable pub insert_version : Migration → Schema D → Result (Unit {0}) × Schema D
  insert_version m t = elim t.schema_migrations [
    | none ↦ (err no_table, t)
    | some rows ↦
        if any (λ r. r.0 == m.version) rows
        then (err (driver (txt "duplicate key value")), t)
        else (ok tt, record t { schema_migrations = some ((m.version, m.name) ∷ rows) })
  ]

  unfoldable pub apply_migration : Migration → Sql (Schema D) (Unit {0})
  unfolding insert_version
  apply_migration m = transaction (do exec (script m.sql); exec (insert_version m))

  unfoldable pub sql_migration_store : MigrationStore (Conn (Schema D))
  unfolding create_if_missing select_versions apply_migration
  sql_migration_store = record {
    ensure = exec create_if_missing;
    applied_versions = exec select_versions;
    apply = apply_migration;
  }
