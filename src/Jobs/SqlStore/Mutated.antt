-- ===== src/Jobs/SqlStore/Mutated.antt =====
-- What `Retry` and `Cancel` (internal/jobs/sqlstore.go) make of the job, of the other jobs, and of the
-- claims to come.
use motekarindo_panel.Base.{◌≡◌, ◌≤◌, true, false, Option, none, some}
use motekarindo_panel.Base.Text.{Text, same}
use motekarindo_panel.Schema.{Time, queued, failed, cancelled, JobRow, Tables}
use motekarindo_panel.Jobs.SqlStore.Rows.{find_job}
use motekarindo_panel.Jobs.SqlStore.Claim.{is_due}

-- An update of the rows of an id that keeps the ids is found under the id, and under no other.
module _ (id : Text) (set : JobRow → JobRow) (kept : (r : JobRow) → (set r).id ≡ r.id) where
  abbrev map_job : Option JobRow → Option JobRow
  map_job none = none
  map_job (some r) = some (set r)

-- The other jobs are as they were.
abbrev pub AreKept : Text → Tables → Tables → Type 0
AreKept id t t' = (k : Text) → same id k ≡ false → find_job k t'.jobs ≡ find_job k t.jobs

-- The job of the id before and after a retry: it had failed and may be retried; it waits with all its
-- attempts, as if it had never run, and is due at once.
pub record IsRequeued (id : Text) (now : Time) (t t' : Tables) : Type 0 where
  pub before : JobRow
  pub after : JobRow
  pub is_found : find_job id t.jobs ≡ some before
  pub was_failed : before.status ≡ failed
  pub was_retryable : before.retryable ≡ true
  pub is_left : find_job id t'.jobs ≡ some after
  pub is_waiting : (after.status ≡ queued) × (after.attempts ≡ 0) × (after.retryable ≡ true)
  pub is_unrun :
      (after.started_at ≡ none)
      × (after.finished_at ≡ none)
      × (after.result_code ≡ none)
      × (after.result ≡ none)
  pub is_same_job :
      (after.type ≡ before.type)
      × (after.payload ≡ before.payload)
      × (after.resource_key ≡ before.resource_key)
      × (after.idempotency_key ≡ before.idempotency_key)
      × (after.max_attempts ≡ before.max_attempts)
  pub is_claimable : 1 ≤ before.max_attempts → is_due now after ≡ true
  pub others : AreKept id t t'

-- The job of the id before and after a cancellation: it waited; it is at its end, and no claim takes it
-- at any time.
pub record IsCancelled (id : Text) (now : Time) (t t' : Tables) : Type 0 where
  pub before : JobRow
  pub after : JobRow
  pub is_found : find_job id t.jobs ≡ some before
  pub was_queued : before.status ≡ queued
  pub is_left : find_job id t'.jobs ≡ some after
  pub is_ended :
      (after.status ≡ cancelled) × (after.finished_at ≡ some now) × (after.retryable ≡ false)
  pub is_never_due : (later : Time) → is_due later after ≡ false
  pub others : AreKept id t t'
