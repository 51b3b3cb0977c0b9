-- ===== src/Jobs/SqlStore.antt =====
-- internal/jobs/sqlstore.go: the statements on the tables jobs, job_logs and audit_events.
pub mod Rows
pub mod Claim
pub mod Checked
pub mod Exclusion
pub mod Separation
pub mod Finalize
pub mod History
pub mod Listing
pub mod Takeover
pub mod Transition
pub mod Mutated
pub mod Admitted
use motekarindo_panel.Base.{
  ℕ, Bool, true, false, ◌&&◌, ◌||◌, not, Option, none, some, List, [], ◌∷◌, ◌==◌, if◌then◌else◌,
}
use motekarindo_panel.Base.Text.{Text, txt, same, is_empty, to_lower}
use motekarindo_panel.Base.Error.{
  sentinel, job_not_found, invalid_transition, Result, ok, err, refuse,
}
use motekarindo_panel.Base.Act.{pure, fail, lift, ◌>>=◌, ◌>>◌}
use motekarindo_panel.Base.Sql.{Conn, Sql, exec, transaction}
use motekarindo_panel.Schema.{
  Time, Status, queued, running, succeeded, failed, cancelled, is_queued, is_running, is_cancelled,
  JobRow, AuditRow, Tables,
}
use motekarindo_panel.Audit.{record_event}
use motekarindo_panel.Audit.Check.{Event, action_job_retried, action_job_cancelled}
use motekarindo_panel.Jobs.{Job, Log, JobResult, Mutation, Store}
use motekarindo_panel.Jobs.Ident.{valid_job_id}
use Rows.{update_jobs, insert_job, find_job, insert_log, row_of, scan_job}
use Claim.{Locks, claim}

unfoldable pub enqueue : Job → Sql Tables (Unit {0})
enqueue job = exec (insert_job (row_of job))

unfoldable pub claim_one : Locks → Text → Time → Time → Sql Tables Job
claim_one locks token now lease = exec (claim locks token now lease)

-- requireUpdatedRow
unfoldable pub require_updated_row : ℕ → Result (Unit {0})
require_updated_row rows = if rows == 1 then ok tt else err (sentinel invalid_transition)

-- WHERE id = $1 AND status = 'running' AND claim_token = $2
abbrev pub holds_claim : Text → Option Text → Bool
holds_claim token none = false
holds_claim token (some t) = same t token

unfoldable pub is_claimed_by : Job → JobRow → Bool
unfolding same
is_claimed_by job r =
    same r.id job.id && is_running r.status && holds_claim job.claim_token r.claim_token

abbrev pub null_if_empty : Text → Option Text
null_if_empty s = if is_empty s then none else some s

unfoldable pub succeed_row : JobResult → Time → JobRow → JobRow
succeed_row result finished_at r = record r {
  status = succeeded;
  retryable = false;
  claim_token = none;
  lease_expires_at = none;
  result_code = some result.code;
  result = null_if_empty result.body;
  finished_at = some finished_at;
  updated_at = finished_at;
}

unfoldable pub insert_logs : Text → List Log → Time → Sql Tables (Unit {0})
insert_logs job_id [] created_at = pure tt
insert_logs job_id (log ∷ logs) created_at = do
  exec (insert_log job_id log.level log.message created_at)
  insert_logs job_id logs created_at

unfoldable pub mark_succeeded : Job → Time → JobResult → Sql Tables (Unit {0})
mark_succeeded job finished_at result = transaction do
  rows ← exec (update_jobs (is_claimed_by job) (succeed_row result finished_at))
  lift (require_updated_row rows)
  insert_logs job.id result.logs finished_at

unfoldable pub fail_row : Bool → Bool → Time → Time → Time → JobRow → JobRow
fail_row final retryable run_after updated_at finished_at r = record r {
  status = if final then failed else queued;
  run_after = run_after;
  finished_at = if final then some finished_at else none;
  retryable = retryable;
  claim_token = none;
  lease_expires_at = none;
  started_at = if final then r.started_at else none;
  updated_at = updated_at;
}

unfoldable pub mark_failed : Job → Bool → Bool → Time → Time → Time → Text → Sql Tables (Unit {0})
mark_failed job final retryable run_after updated_at finished_at message = transaction do
  rows ←
      exec (
        update_jobs (is_claimed_by job) (fail_row final retryable run_after updated_at finished_at))
  lift (require_updated_row rows)
  if is_empty message then pure tt else exec (insert_log job.id (txt "error") message updated_at)

-- The implementation of the interface `Store`.
abbrev pub sql_store : Locks → Text → Store (Conn Tables)
sql_store locks token = record {
  enqueue = enqueue;
  claim_one = claim_one locks token;
  mark_succeeded = mark_succeeded;
  mark_failed = mark_failed;
}

-- sql.ErrNoRows becomes ErrJobNotFound.
abbrev pub found : {A : Type 0} → (JobRow → A) → Option JobRow → Result A
found scan none = err (sentinel job_not_found)
found scan (some r) = ok (scan r)

unfoldable pub get_job : Text → Tables → Result Job × Tables
unfolding find_job scan_job
get_job id t = (found scan_job (find_job (to_lower id) t.jobs), t)

-- The server compares ids as values, and prints them in lower case.
unfoldable pub get : Text → Sql Tables Job
get id = if valid_job_id id then exec (get_job id) else fail (sentinel job_not_found)

-- SELECT status, retryable FROM jobs WHERE id = $1 FOR UPDATE
unfoldable pub select_state : Text → Tables → Result (Status × Bool) × Tables
unfolding find_job
select_state id t = (found (λ r. (r.status, r.retryable)) (find_job (to_lower id) t.jobs), t)

unfoldable pub same_status : Status → Status → Bool
same_status queued queued = true
same_status running running = true
same_status succeeded succeeded = true
same_status failed failed = true
same_status cancelled cancelled = true
same_status _ _ = false

-- The UPDATE of `mutate`, to the status `to`.
unfoldable pub mutate_row : Status → Time → JobRow → JobRow
mutate_row to now r = record r {
  status = to;
  attempts = if is_queued to then 0 else r.attempts;
  retryable = is_queued to;
  run_after = if is_queued to then now else r.run_after;
  started_at = none;
  finished_at = if is_cancelled to then some now else none;
  result_code = none;
  result = none;
  updated_at = now;
}

unfoldable pub job_event : Text → Text → Mutation → Event
job_event id action mutation = record {
  id = [];
  actor_user_id = mutation.actor_user_id;
  action = action;
  target_type = txt "job";
  target_id = id;
  ip_address = mutation.ip_address;
  user_agent = mutation.user_agent;
  metadata = none;
  created_at = 0;
}

-- `now` and `event_id` are what the clock and the generator of the audit writer return.
module _ (accepts : AuditRow → Bool) (now : Time) (event_id : Result Text) where
  unfoldable pub mutate_body : Text → Mutation → Status → Status → Text → Sql Tables (Unit {0})
  mutate_body id mutation from to action = do
    state ← exec (select_state id)
    lift (
        refuse (not (same_status state.0 from) || (same action action_job_retried && not state.1))
          (sentinel invalid_transition))
    exec (update_jobs (λ r. same r.id (to_lower id)) (mutate_row to now))
    record_event accepts now event_id (job_event id action mutation)
    pure tt

  unfoldable pub mutate : Text → Mutation → Status → Status → Text → Sql Tables (Unit {0})
  mutate id mutation from to action =
      if valid_job_id id
      then transaction (mutate_body id mutation from to action)
      else fail (sentinel job_not_found)

  unfoldable pub retry : Text → Mutation → Sql Tables (Unit {0})
  retry id mutation = mutate id mutation failed queued action_job_retried

  unfoldable pub cancel : Text → Mutation → Sql Tables (Unit {0})
  cancel id mutation = mutate id mutation queued cancelled action_job_cancelled
