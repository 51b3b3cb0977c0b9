-- ===== src/Tests.antt =====
-- Concrete inputs for the tests, and the tests of the modules in the children.
mod Store
mod Finalize
mod Others
mod Changes
mod Reading
mod Sessions
mod Admins
mod Actions
mod Requests
mod Scripts
use motekarindo_panel.Base.{ℕ, Bool, true, false, not, Option, none, some, List, [], ◌∷◌}
use motekarindo_panel.Base.Text.{Text, txt, is_empty}
use motekarindo_panel.Base.Sql.{Conn}
use motekarindo_panel.Json.{Codec, object, end}
use motekarindo_panel.Schema.{no_tables, Time, queued, running, JobRow, Tables}
use motekarindo_panel.Jobs.{Job}
use motekarindo_panel.Jobs.SqlStore.Rows.{scan_job}
use motekarindo_panel.Jobs.SqlStore.Claim.{Locks}

-- A reader of JSON that takes every text for an empty object.
abbrev pub lenient : Codec
lenient = record { valid = λ s. not (is_empty s); unmarshal = λ s. some (object end) }

abbrev pub no_locks : Locks
no_locks = record { row_locked = λ id. false; key_locked = λ key. false }

abbrev pub queued_row : Text → Time → JobRow
queued_row id run_after = record {
  id = id;
  type = txt "site.create";
  status = queued;
  resource_key = txt "site:1";
  idempotency_key = id;
  payload = txt "{}";
  attempts = 0;
  max_attempts = 3;
  retryable = true;
  claim_token = none;
  run_after = run_after;
  lease_expires_at = none;
  started_at = none;
  finished_at = none;
  result_code = none;
  result = none;
  created_at = 1;
  updated_at = 1;
}

-- A row that runs under the token until the instant.
abbrev pub running_row : Text → Text → Time → JobRow
running_row id token lease = record (queued_row id 1) {
  status = running;
  attempts = 1;
  claim_token = some token;
  lease_expires_at = some lease;
  started_at = some 2;
}

abbrev pub tables_of : List JobRow → Tables
tables_of rows = record no_tables { jobs = rows }

abbrev pub conn_of : List JobRow → Conn Tables
conn_of rows = record { tables = tables_of rows; faults = [] }

abbrev pub job_of : JobRow → Job
job_of r = scan_job r
