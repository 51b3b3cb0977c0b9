-- ===== src/Database/Pending.antt =====
-- What the loop over the migrations has recorded (internal/database/migration.go).
use motekarindo_panel.Base.{
  ◌≡◌, refl, sym, ap, subst, ◌∙◌, ℕ, none, some, List, [], ◌∷◌, ◌++◌, any, arith, inl, inr,
  Bool-cases, ◌==◌, if◌then◌else◌,
}
use motekarindo_panel.Base.Text.{Text}
use motekarindo_panel.Base.Error.{Error, Result, Result-cases, ok, err}
use motekarindo_panel.Base.Act.{>>=-eq-ok}
use motekarindo_panel.Base.Sql.{Conn, exec, exec-eq-ok, transaction-eq-ok, transaction_err}
use motekarindo_panel.Database.{
  Migration, is_applied, Outcome, ran_first, after_apply, apply_pending, Schema, insert_version,
  apply_migration, sql_migration_store,
}

-- The migrations that are not applied, in their order.
pub pending : List ℕ → List Migration → List Migration
pending applied [] = []
pending applied (m ∷ migrations) =
    if is_applied applied m then pending applied migrations else m ∷ pending applied migrations

-- The rows of the migrations that ran, one after the other, on those before.
pub recorded : List Migration → List (ℕ × Text) → List (ℕ × Text)
recorded [] rows = rows
recorded (m ∷ ran) rows = recorded ran ((m.version, m.name) ∷ rows)

-- A migration's script does not touch schema_migrations.
abbrev pub IsApart : {D : Type 0} → (Text → Schema D → Result (Unit {0}) × Schema D) → Type 0
IsApart {D} script =
    (text : Text) (t : Schema D) → (script text t).1.schema_migrations ≡ t.schema_migrations

module _ {D : Type 0} (script : Text → Schema D → Result (Unit {0}) × Schema D)
    (apart : IsApart script) where
  insert_version-eq-ok :
      (m : Migration) (t : Schema D) (rows : List (ℕ × Text)) (u : Unit {0})
      → t.schema_migrations ≡ some rows
      → (insert_version script m t).0 ≡ ok u
      → (insert_version script m t).1.schema_migrations ≡ some ((m.version, m.name) ∷ rows)
  unfolding insert_version
  insert_version-eq-ok m t rows u e h = elim (Bool-cases (any (λ r. r.0 == m.version) rows)) [
    | inl k ↦ absurd (ground (arith, rw (e, k) at h))
    | inr k ↦ rw (e, k) refl
  ]

  apply_migration-eq-ok :
      (m : Migration) (c : Conn (Schema D)) (rows : List (ℕ × Text)) (u : Unit {0})
      → c.tables.schema_migrations ≡ some rows
      → (apply_migration script m c).0 ≡ ok u
      → (apply_migration script m c).1.tables.schema_migrations ≡ some ((m.version, m.name) ∷ rows)
  unfolding apply_migration
  apply_migration-eq-ok m c rows u e h =
      let (b, tables, ran, left) = transaction-eq-ok _ c u h in
      let (v, scripted, h1, q) = >>=-eq-ok (exec (script m.sql)) _ b u ran in
      let (done, after) = exec-eq-ok (script m.sql) b v scripted in
      let (inserted, end) = exec-eq-ok (insert_version script m) _ u h1 in
      let versions = λ (t : Schema D). t.schema_migrations in
      let start = ap versions after ∙ apart m.sql b.tables ∙ ap versions tables ∙ e in
      ap versions left
      ∙ ap (λ (x : Conn (Schema D)). x.tables.schema_migrations) q
      ∙ ap versions end
      ∙ insert_version-eq-ok m _ rows u start inserted

  apply_migration-err :
      (m : Migration) (c : Conn (Schema D)) (e : Error)
      → (apply_migration script m c).0 ≡ err e
      → (apply_migration script m c).1.tables ≡ c.tables
  unfolding apply_migration
  apply_migration-err m c e h = transaction_err _ c h

  -- The versions recorded before, and what an outcome has added to them.
  pub record IsRecorded (rows : List (ℕ × Text)) (todo : List Migration)
      (o : Outcome × Conn (Schema D)) : Type 0 where
    pub rest : List Migration
    pub is_stored : o.1.tables.schema_migrations ≡ some (recorded o.0.0 rows)
    pub is_front : todo ≡ o.0.0 ++ rest
    pub is_all : o.0.1 ≡ none → rest ≡ []

  after_apply-ok :
      (m : Migration) (rest : Conn (Schema D) → Outcome × Conn (Schema D))
      (x : Result (Unit {0}) × Conn (Schema D)) (u : Unit {0})
      → x.0 ≡ ok u
      → after_apply m rest x ≡ ran_first m (rest x.1)
  after_apply-ok m rest (ok v, s) u h = refl
  after_apply-ok m rest (err e, s) u h = ground (arith, h)

  IsRecorded-ran :
      (m : Migration) (rows : List (ℕ × Text)) (todo : List Migration)
      (o : Outcome × Conn (Schema D))
      → IsRecorded ((m.version, m.name) ∷ rows) todo o
      → IsRecorded rows (m ∷ todo) (ran_first m o)
  unfolding recorded
  IsRecorded-ran m rows todo ((ran, e), s) h = record {
    rest = h.rest;
    is_stored = h.is_stored;
    is_front = ap (λ x. m ∷ x) h.is_front;
    is_all = h.is_all;
  }

  IsRecorded-failed :
      (m : Migration) (rest : Conn (Schema D) → Outcome × Conn (Schema D)) (rows : List (ℕ × Text))
      (todo : List Migration) (x : Result (Unit {0}) × Conn (Schema D)) (e : Error)
      → x.0 ≡ err e
      → x.1.tables.schema_migrations ≡ some rows
      → IsRecorded rows todo (after_apply m rest x)
  unfolding recorded
  IsRecorded-failed m rest rows todo (ok u, s) e h k = absurd (ground (arith, h))
  IsRecorded-failed m rest rows todo (err x, s) e h k = record {
    rest = todo;
    is_stored = k;
    is_front = refl;
    is_all = λ n. absurd (ground (arith, n));
  }

  pub apply_pending-IsRecorded :
      (applied : List ℕ) (migrations : List Migration) (c : Conn (Schema D))
      (rows : List (ℕ × Text))
      → c.tables.schema_migrations ≡ some rows
      → IsRecorded rows
          (pending applied migrations)
          (apply_pending (sql_migration_store script) applied migrations c)
  unfolding apply_pending pending sql_migration_store recorded
  apply_pending-IsRecorded applied [] c rows h = record {
    rest = [];
    is_stored = h;
    is_front = refl;
    is_all = λ e. refl;
  }
  apply_pending-IsRecorded applied (m ∷ migrations) c rows h =
      let next =
        λ (s : Conn (Schema D)). apply_pending (sql_migration_store script) applied migrations s in
      elim (Bool-cases (is_applied applied m)) [
        | inl k ↦ rw k (apply_pending-IsRecorded applied migrations c rows h)
        | inr k ↦ rw k (elim (Result-cases (apply_migration script m c).0) [
          | inl (u, e) ↦
              subst (IsRecorded rows (m ∷ pending applied migrations))
                (sym (after_apply-ok m next (apply_migration script m c) u e))
                (IsRecorded-ran m rows (pending applied migrations) _ (
                  apply_pending-IsRecorded applied migrations (apply_migration script m c).1
                    ((m.version, m.name) ∷ rows) (apply_migration-eq-ok m c rows u h e)))
          | inr (x, e) ↦
              IsRecorded-failed m next rows (m ∷ pending applied migrations)
                (apply_migration script m c) x e
                (ap (λ (t : Schema D). t.schema_migrations) (apply_migration-err m c x e) ∙ h)
        ])
      ]
