-- ===== src/Jobs/SqlStore/Rows.antt =====
-- Statements on the table jobs by row, and the passage between rows and Go's `Job`
-- (internal/jobs/sqlstore.go, and the constraints of services/migrations).
pub mod Laws
use motekarindo_panel.Base.{
  ℕ, ◌+◌, Bool, true, ◌&&◌, ◌||◌, not, Option, none, some, List, [], ◌∷◌, ◌++◌, map, any, all, leb,
  if◌then◌else◌, length,
}
use motekarindo_panel.Base.Text.{Text, txt, same}
use motekarindo_panel.Base.Error.{driver, Result, ok, err}
use motekarindo_panel.Schema.{Time, JobRow, LogRow, Tables, job_checks}
use motekarindo_panel.Jobs.{Job}
use motekarindo_panel.Jobs.Finish.{is_level}

abbrev pub modify {ℓ} : {A : Type ℓ} → (A → Bool) → (A → A) → List A → List A
modify p f = map (λ r. if p r then f r else r)

abbrev pub count_if {ℓ} : {A : Type ℓ} → (A → Bool) → List A → ℕ
count_if p [] = 0
count_if p (x ∷ xs) = (if p x then 1 else 0) + count_if p xs

-- UPDATE jobs SET … WHERE …: the rows affected, or the refusal of a row by a constraint.
unfoldable pub update_jobs : (JobRow → Bool) → (JobRow → JobRow) → Tables → Result ℕ × Tables
update_jobs hit set t =
    if all (λ r. not (hit r) || job_checks (set r)) t.jobs
    then (ok (count_if hit t.jobs), record t { jobs = modify hit set t.jobs })
    else (err (driver (txt "check constraint violated")), t)

-- The primary key and jobs_idempotency_key_idx.
abbrev pub clashes : JobRow → JobRow → Bool
clashes r s = same r.id s.id || same r.idempotency_key s.idempotency_key

-- INSERT INTO jobs
unfoldable pub insert_job : JobRow → Tables → Result (Unit {0}) × Tables
insert_job row t =
    if job_checks row && not (any (clashes row) t.jobs)
    then (ok tt, record t { jobs = row ∷ t.jobs })
    else (err (driver (txt "constraint violated")), t)

-- SELECT … FROM jobs WHERE id = $1
unfoldable pub find_job : Text → List JobRow → Option JobRow
unfolding same
find_job id [] = none
find_job id (r ∷ rows) = if same r.id id then some r else find_job id rows

-- job_logs_level_check and job_logs_message_length_check
unfoldable pub log_checks : Text → Text → Bool
unfolding is_level
log_checks level message = is_level level && leb (length message) 1024

-- INSERT INTO job_logs
unfoldable pub insert_log : Text → Text → Text → Time → Tables → Result (Unit {0}) × Tables
insert_log job_id level message created_at t =
    let row : LogRow = record {
      job_id = job_id;
      level = level;
      message = message;
      created_at = created_at;
    } in
    if log_checks level message
    then (ok tt, record t { job_logs = t.job_logs ++ row ∷ [] })
    else (err (driver (txt "check constraint violated")), t)

-- The columns that `Enqueue` writes; the others have their defaults.
unfoldable pub row_of : Job → JobRow
row_of job = record {
  id = job.id;
  type = job.type;
  status = job.status;
  resource_key = job.resource_key;
  idempotency_key = job.idempotency_key;
  payload = job.payload;
  attempts = job.attempts;
  max_attempts = job.max_attempts;
  retryable = true;
  claim_token = none;
  run_after = job.run_after;
  lease_expires_at = none;
  started_at = none;
  finished_at = none;
  result_code = none;
  result = none;
  created_at = job.created_at;
  updated_at = job.updated_at;
}

abbrev pub or_empty_text : Option Text → Text
or_empty_text none = []
or_empty_text (some s) = s

abbrev pub or_zero : Option Time → Time
or_zero none = 0
or_zero (some t) = t

-- scanJob
unfoldable pub scan_job : JobRow → Job
scan_job r = record {
  id = r.id;
  type = r.type;
  status = r.status;
  resource_key = r.resource_key;
  idempotency_key = r.idempotency_key;
  payload = r.payload;
  attempts = r.attempts;
  max_attempts = r.max_attempts;
  retryable = r.retryable;
  claim_token = or_empty_text r.claim_token;
  run_after = r.run_after;
  lease_expires_at = or_zero r.lease_expires_at;
  started_at = or_zero r.started_at;
  finished_at = or_zero r.finished_at;
  result_code = or_empty_text r.result_code;
  result = or_empty_text r.result;
  created_at = r.created_at;
  updated_at = r.updated_at;
}
