-- ===== src/Jobs/SqlStore/Admitted.antt =====
-- The CHECKs of the table jobs refuse no update of the store (internal/jobs/sqlstore.go) with what the
-- queue lets through.
use motekarindo_panel.Base.{◌≡◌, Bool, true, some, List, All}
use motekarindo_panel.Base.Text.{Text, same}
use motekarindo_panel.Base.Error.{ok}
use motekarindo_panel.Json.{Codec}
use motekarindo_panel.Schema.{Time, queued, failed, cancelled, JobRow, Tables, job_checks}
use motekarindo_panel.Jobs.{Job, JobResult}
use motekarindo_panel.Jobs.Finish.{normalize_result}
use motekarindo_panel.Jobs.SqlStore.{is_claimed_by, succeed_row, fail_row, mutate_row}
use motekarindo_panel.Jobs.SqlStore.Rows.{update_jobs, find_job, count_if}
use motekarindo_panel.Jobs.SqlStore.Claim.{expire_row}

-- An update of the rows of a condition is carried out on all of them.
abbrev pub IsUpdated : (JobRow → Bool) → (JobRow → JobRow) → Tables → Type 0
IsUpdated hit set t = (update_jobs hit set t).0 ≡ ok (count_if hit t.jobs)

-- No CHECK of the table refuses what the store writes: a normalised result, a failure, a change of the
-- status by Retry or Cancel, the expiry of a lease.
pub record Admits (json : Codec) (t : Tables) : Type 0 where
  pub success :
      (job : Job) (raw result : JobResult) (at : Time)
      → normalize_result json raw ≡ ok result
      → IsUpdated (is_claimed_by job) (succeed_row result at) t
  pub failure :
      (job : Job) (final retryable : Bool) (run_after at finished_at : Time)
      → IsUpdated (is_claimed_by job) (fail_row final retryable run_after at finished_at) t
  pub requeue :
      (id : Text) (r : JobRow) (at : Time)
      → find_job id t.jobs ≡ some r
      → r.status ≡ failed
      → IsUpdated (λ s. same s.id id) (mutate_row queued at) t
  pub cancellation :
      (id : Text) (r : JobRow) (at : Time)
      → find_job id t.jobs ≡ some r
      → r.status ≡ queued
      → IsUpdated (λ s. same s.id id) (mutate_row cancelled at) t
  pub expiry : (now : Time) → All (λ r. job_checks (expire_row now r) ≡ true) t.jobs
