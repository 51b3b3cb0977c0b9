-- ===== src/Jobs/Queue/Enqueued.antt =====
-- What `Queue.Enqueue` (internal/jobs/jobs.go) does over the SQL store, on every branch.
use motekarindo_panel.Base.{ℕ, ◌≡◌, true, false, some, ◌∷◌, any}
use motekarindo_panel.Base.Text.{Text}
use motekarindo_panel.Base.Error.{Error, sentinel, driver, invalid_job, Result, ok, err}
use motekarindo_panel.Base.Act
use motekarindo_panel.Base.Act.{Act}
use motekarindo_panel.Base.Sql.{Conn, exec, next_fault}
use motekarindo_panel.Json.{Codec}
use motekarindo_panel.Schema.{Time, Tables}
use motekarindo_panel.Jobs.{Job, EnqueueInput}
use motekarindo_panel.Jobs.Queue.{enqueue}
use motekarindo_panel.Jobs.Queue.Checks.{sql_queue}
use motekarindo_panel.Jobs.SqlStore.Rows.{row_of, insert_job, clashes}
use motekarindo_panel.Jobs.SqlStore
use motekarindo_panel.Jobs.SqlStore.Claim.{Locks}
use motekarindo_panel.Jobs.Queue.Acceptable.{is_acceptable, IsJobOf}

module _ (json : Codec) (locks : Locks) (token : Text) (now : Time) (lease : ℕ)
    (input : EnqueueInput) (c : Conn Tables) where
  -- `Enqueue` over the SQL store, with what the generator of ids returns.
  abbrev enqueued : Result Text → Result Job × Conn Tables
  enqueued new_id = enqueue json (sql_queue locks token now new_id lease) input c

  -- What becomes of an input.
  pub data Enqueued (new_id : Result Text) (out : Result Job × Conn Tables) : Type 0 where
    refused :
        is_acceptable json input ≡ false
        → out ≡ (err (sentinel invalid_job), c)
        → Enqueued new_id out
    nameless :
        {e : Error}
        → is_acceptable json input ≡ true
        → new_id ≡ err e
        → out ≡ (err e, c)
        → Enqueued new_id out
    stored :
        {id : Text} (job : Job)
        → is_acceptable json input ≡ true
        → new_id ≡ ok id
        → IsJobOf now id input job
        → any (clashes (row_of job)) c.tables.jobs ≡ false
        → out.0 ≡ ok job
        → out.1.tables ≡ record c.tables { jobs = row_of job ∷ c.tables.jobs }
        → Enqueued new_id out
    taken :
        {id : Text} (job : Job)
        → is_acceptable json input ≡ true
        → new_id ≡ ok id
        → IsJobOf now id input job
        → any (clashes (row_of job)) c.tables.jobs ≡ true
        → ((m : Text) × (out.0 ≡ err (driver m)))
        → out.1.tables ≡ c.tables
        → Enqueued new_id out
    cut_off :
        {m : Text}
        → is_acceptable json input ≡ true
        → next_fault c.faults ≡ some m
        → out.0 ≡ err (driver m)
        → out.1.tables ≡ c.tables
        → Enqueued new_id out

  -- The INSERT of a job that was made, and its outcome.
  inserted : Job → Result (Unit {0}) × Conn Tables
  inserted job = exec (insert_job (row_of job)) c

  tables_of : Result Job × Conn Tables → Tables
  tables_of out = out.1.tables
