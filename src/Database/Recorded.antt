-- ===== src/Database/Recorded.antt =====
-- What a run of the migrations has recorded (internal/database/migration.go).
use motekarindo_panel.Base.{
  ◌≡◌, refl, sym, ap, subst, ◌∙◌, ℕ, none, some, List, [], map, arith, inl, inr, Option-cases, ◌⊎◌,
}
use motekarindo_panel.Base.Text.{Text}
use motekarindo_panel.Base.Error.{Error, Result, Result-cases, ok, err, ok-injective}
use motekarindo_panel.Base.Act.{◌>>◌, >>=-eq-ok}
use motekarindo_panel.Base.Sql.{Conn, exec, exec-eq-ok}
use motekarindo_panel.Base.Sql.Keeps.{Keeps, Keeps-exec, Keeps-bind}
use motekarindo_panel.Database.{
  Migration, Outcome, apply_pending, after_versions, up, Schema, create_if_missing, select_versions,
  sql_migration_store,
}
use motekarindo_panel.Database.Pending.{pending, IsApart, IsRecorded, apply_pending-IsRecorded}

-- The rows of schema_migrations, of which there are none before it is created.
abbrev pub rows_of : {D : Type 0} → Schema D → List (ℕ × Text)
rows_of t = elim t.schema_migrations [ none ↦ [] | some rows ↦ rows ]

module _ {D : Type 0} (script : Text → Schema D → Result (Unit {0}) × Schema D)
    (apart : IsApart script) where
  -- An error before any migration.
  abbrev pub HasFailed : List (ℕ × Text) → Outcome × Conn (Schema D) → Type 0
  HasFailed rows o = (e : Error) × (o.0 ≡ ([], some e)) × (rows_of o.1.tables ≡ rows)

  create_if_missing-rows :
      (t : Schema D) → (create_if_missing script t).1.schema_migrations ≡ some (rows_of t)
  unfolding create_if_missing
  create_if_missing-rows t = elim (Option-cases t.schema_migrations) [
    | inl e ↦ rw e refl
    | inr (rows, e) ↦ rw e refl
  ]

  select_versions-eq-ok :
      (t : Schema D) (rows : List (ℕ × Text)) (applied : List ℕ)
      → t.schema_migrations ≡ some rows
      → (select_versions script t).0 ≡ ok applied
      → (applied ≡ map (λ r. r.0) rows)
        × ((select_versions script t).1.schema_migrations ≡ some rows)
  unfolding select_versions
  select_versions-eq-ok t rows applied e h = (sym (ok-injective (rw e at h)), rw e refl)

  start-Keeps :
      (rows : List (ℕ × Text))
      → Keeps
          (λ (t : Schema D). rows_of t ≡ rows)
          (exec (create_if_missing script) >> exec (select_versions script))
  unfolding create_if_missing select_versions
  start-Keeps rows =
      Keeps-bind _ _
        (Keeps-exec _ (λ t h. elim (Option-cases t.schema_migrations) [
          | inl e ↦ rw e (rw e at h)
          | inr (r, e) ↦ rw e (rw e at h)
        ]))
        (λ u. Keeps-exec _ (λ t h. elim (Option-cases t.schema_migrations) [
          | inl e ↦ rw e (rw e at h)
          | inr (r, e) ↦ rw e (rw e at h)
        ]))

  after_versions-ok :
      (migrations : List Migration) (x : Result (List ℕ) × Conn (Schema D)) (applied : List ℕ)
      → x.0 ≡ ok applied
      → after_versions (sql_migration_store script) migrations x
        ≡ apply_pending (sql_migration_store script) applied migrations x.1
  after_versions-ok migrations (ok a, s) applied h =
      ap (λ l. apply_pending (sql_migration_store script) l migrations s) (ok-injective h)
  after_versions-ok migrations (err e, s) applied h = ground (arith, h)

  HasFailed-of :
      (rows : List (ℕ × Text)) (migrations : List Migration) (x : Result (List ℕ) × Conn (Schema D))
      (e : Error)
      → x.0 ≡ err e
      → rows_of x.1.tables ≡ rows
      → HasFailed rows (after_versions (sql_migration_store script) migrations x)
  HasFailed-of rows migrations (ok a, s) e h k = absurd (ground (arith, h))
  HasFailed-of rows migrations (err x, s) e h k = (x, refl, k)

  start-eq-ok :
      (c : Conn (Schema D)) (applied : List ℕ)
      → ((exec (create_if_missing script) >> exec (select_versions script)) c).0 ≡ ok applied
      → (applied ≡ map (λ r. r.0) (rows_of c.tables))
        × (((exec (create_if_missing script) >> exec (select_versions script))
              c).1.tables.schema_migrations
            ≡ some (rows_of c.tables))
  start-eq-ok c applied h =
      let (u, made, h1, q) = >>=-eq-ok (exec (create_if_missing script)) _ c applied h in
      let (_, after) = exec-eq-ok (create_if_missing script) c u made in
      let (read, left) = exec-eq-ok (select_versions script) _ applied h1 in
      let versions = λ (t : Schema D). t.schema_migrations in
      let created = ap versions after ∙ create_if_missing-rows c.tables in
      let (same_versions, kept) = select_versions-eq-ok _ (rows_of c.tables) applied created read in
      (same_versions, ap (λ (x : Conn (Schema D)). versions x.tables) q ∙ ap versions left ∙ kept)

  -- Whatever `Up` returns over the store, the migrations that it names are the first of those that
  -- schema_migrations did not have, in their order, and all of them where there is no error; and what
  -- is recorded is what was, with just these; or the store failed before and nothing is recorded.
  pub up-IsRecorded :
      (migrations : List Migration) (c : Conn (Schema D))
      → IsRecorded script apart
          (rows_of c.tables)
          (pending (map (λ r. r.0) (rows_of c.tables)) migrations)
          (up (sql_migration_store script) migrations c)
        ⊎ HasFailed (rows_of c.tables) (up (sql_migration_store script) migrations c)
  unfolding up sql_migration_store
  up-IsRecorded migrations c =
      let start = exec (create_if_missing script) >> exec (select_versions script) in
      let rows = rows_of c.tables in
      elim (Result-cases (start c).0) [
        | inl (applied, e) ↦
            let (same_versions, kept) = start-eq-ok c applied e in
            inl (
              subst (IsRecorded script apart rows (pending (map (λ r. r.0) rows) migrations))
                (sym (after_versions-ok migrations (start c) applied e))
                (subst
                  (λ l.
                    IsRecorded script apart rows (pending l migrations)
                      (apply_pending (sql_migration_store script) applied migrations (start c).1))
                  same_versions
                  (apply_pending-IsRecorded script apart applied migrations (start c).1 rows kept)))
        | inr (x, e) ↦
            inr (HasFailed-of rows migrations (start c) x e ((start-Keeps rows).after c refl))
      ]
