-- ===== src/Audit.antt =====
-- internal/audit: `Writer.Record`, and the table that `SQLStore.Write` writes to.
pub mod Check
pub mod Laws
pub mod Listing
use motekarindo_panel.Base.{Bool, some, List, ◌∷◌, if◌then◌else◌}
use motekarindo_panel.Base.Text.{Text, txt}
use motekarindo_panel.Base.Error.{driver, Result, ok, err}
use motekarindo_panel.Base.Act.{pure, lift, ◌>>=◌, ◌>>◌}
use motekarindo_panel.Base.Sql.{Sql, exec}
use motekarindo_panel.Schema.{Time, AuditRow, Tables}
use Check.{Event, trim_event, check_event, audit_row, or_empty}

-- `accepts` is the server's judgement of a new row: the unique id, the reference to a user, and
-- the syntax of an address. `new_id` and `now` are what the writer's generator and clock return.
module _ (accepts : AuditRow → Bool) where
  unfoldable pub insert_event : Event → Tables → Result (Unit {0}) × Tables
  insert_event e t =
      let row = audit_row e in
      if accepts row
      then (ok tt, record t { audit_events = row ∷ t.audit_events })
      else (err (driver (txt "audit event refused")), t)

  unfoldable pub write : Event → Sql Tables (Unit {0})
  write e = exec (insert_event e)

  unfoldable pub complete : Time → Event → Text → Event
  complete now e id = record e { id = id; metadata = some (or_empty e.metadata); created_at = now }

  unfoldable pub record_event : Time → Result Text → Event → Sql Tables Event
  record_event now new_id event = do
    let trimmed = trim_event event
    lift (check_event trimmed)
    id ← lift new_id
    let e = complete now trimmed id
    write e
    pure e
