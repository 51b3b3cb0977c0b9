-- ===== src/Tests/Store.antt =====
-- Tests of the store's claims and histories (internal/jobs/sqlstore.go).
use motekarindo_panel.Base.{◌≡◌, ◌≤◌, arith, refl, false, [], ◌∷◌}
use motekarindo_panel.Base.Text.{txt, same}
use motekarindo_panel.Base.Error.{ok}
use motekarindo_panel.Base.Sql.{Conn, exec}
use motekarindo_panel.Schema.{job_checks, JobRow, Tables}
use motekarindo_panel.Jobs.SqlStore.{claim_one}
use motekarindo_panel.Jobs.SqlStore.Rows.{scan_job}
use motekarindo_panel.Jobs.SqlStore.Claim.{
  claim, claim_row, is_candidate, is_due, holds_resource, pick, next, lease_next, expire,
  expire_row, spent_by_lease,
}
use motekarindo_panel.Jobs.SqlStore.Claim.Outcome.{Outcome}
use motekarindo_panel.Jobs.SqlStore.Exclusion.{IsSeparate}
use motekarindo_panel.Jobs.SqlStore.Finalize.{IsLost}
use motekarindo_panel.Jobs.SqlStore.Takeover.{claim_one-IsLost}
use motekarindo_panel.Jobs.SqlStore.History.{
  enqueueing, claiming, perform, start, wait, call, Reached, Reached-IsSeparate,
}
use motekarindo_panel.Tests.{no_locks, queued_row, running_row, conn_of, job_of}

abbrev row_a : JobRow
row_a = queued_row (txt "a") 1

abbrev row_b : JobRow
row_b = queued_row (txt "b") 2

-- Two jobs of one resource are stored, one is claimed, and its lease runs out.
abbrev after : Conn Tables
after =
    perform 5 (claiming no_locks (txt "t1") 15)
      (perform 5 (enqueueing (job_of row_b)) (perform 5 (enqueueing (job_of row_a)) (conn_of [])))

five_le : 5 ≤ 99
five_le = ground arith

abbrev history : Reached 99 after
history = wait {now = 5} {later = 99} five_le (
    call (claiming no_locks (txt "t1") 15)
      (call (enqueueing (job_of row_b)) (call (enqueueing (job_of row_a)) (start 5 []))))

Reached-IsSeparate_example : IsSeparate 99 after.tables
Reached-IsSeparate_example = Reached-IsSeparate 99 after history

-- The row that a worker leased until 4, which is claimed at 5 again.
abbrev lapsed_row : JobRow
lapsed_row = running_row (txt "a") (txt "t1") 4

abbrev taken_row : JobRow
taken_row = claim_row (txt "t2") 5 15 lapsed_row

taken : (claim_one no_locks (txt "t2") 5 15 (conn_of (lapsed_row ∷ []))).0 ≡ ok (job_of taken_row)
unfolding claim_one exec claim claim_row is_candidate is_due holds_resource pick next lease_next
    expire expire_row spent_by_lease job_checks scan_job same
taken = refl

same_token : same (txt "t2") (job_of lapsed_row).claim_token ≡ false
unfolding same scan_job
same_token = refl

same_id : (job_of lapsed_row).id ≡ (job_of taken_row).id
unfolding scan_job claim_row
same_id = refl

claim_one-IsLost_example :
    IsLost (job_of lapsed_row) (claim_one no_locks (txt "t2") 5 15 (conn_of (lapsed_row ∷ []))).1
claim_one-IsLost_example =
    claim_one-IsLost no_locks (txt "t2") 5 15 (job_of lapsed_row) (job_of taken_row)
      (conn_of (lapsed_row ∷ [])) same_token taken same_id
