-- ===== src/Tests/Finalize.antt =====
-- Tests of what ends a job: the store's finalisation (internal/jobs/sqlstore.go) and the worker's
-- rounds (internal/jobs/worker.go).
use motekarindo_panel.Base.{ℕ, zero, suc, ◌≡◌, refl, true, false, [], ◌∷◌}
use motekarindo_panel.Base.Text.{txt, same}
use motekarindo_panel.Base.Error.{Result, ok, err, plain}
use motekarindo_panel.Base.Act.{◌>>=◌}
use motekarindo_panel.Base.Sql.{Conn, exec, transaction}
use motekarindo_panel.Schema.{job_checks, JobRow, Tables}
use motekarindo_panel.Jobs.{JobResult, RuntimeQueue}
use motekarindo_panel.Jobs.SqlStore.{
  mark_succeeded, mark_failed, succeed_row, fail_row, is_claimed_by, require_updated_row,
  insert_logs,
}
use motekarindo_panel.Jobs.SqlStore.Rows.{update_jobs, insert_log, log_checks, scan_job}
use motekarindo_panel.Jobs.SqlStore.Finalize.{
  IsFinal, IsUnclaimed, mark_succeeded-IsFinal, mark_failed-IsFinal,
}
use motekarindo_panel.Jobs.Worker.{Round, run_once, retry_finalization}
use motekarindo_panel.Jobs.Worker.Rounds.{Told, run_once-Told, Retried, retry_finalization-Retried}
use motekarindo_panel.Tests.{lenient, queued_row, running_row, tables_of, conn_of, job_of}

abbrev row : JobRow
row = running_row (txt "a") (txt "t1") 9

abbrev other : JobRow
other = queued_row (txt "b") 1

abbrev conn : Conn Tables
conn = conn_of (other ∷ row ∷ [])

abbrev done : JobResult
done = record { code = txt "ok"; body = []; logs = [] }

succeeds : (mark_succeeded (job_of row) 7 done conn).0 ≡ ok tt
unfolding mark_succeeded transaction exec ◌>>=◌ update_jobs succeed_row is_claimed_by
    require_updated_row insert_logs scan_job job_checks same
succeeds = refl

mark_succeeded-IsFinal_example :
    IsFinal (job_of row) (succeed_row done 7) conn (mark_succeeded (job_of row) 7 done conn).1
mark_succeeded-IsFinal_example = mark_succeeded-IsFinal (job_of row) 7 done conn tt succeeds

fails : (mark_failed (job_of row) false true 9 7 0 (txt "no disk") conn).0 ≡ ok tt
unfolding mark_failed transaction exec ◌>>=◌ update_jobs fail_row is_claimed_by require_updated_row
    insert_log log_checks scan_job job_checks same
fails = refl

mark_failed-IsFinal_example :
    IsFinal
      (job_of row)
      (fail_row false true 9 7 0)
      conn
      (mark_failed (job_of row) false true 9 7 0 (txt "no disk") conn).1
mark_failed-IsFinal_example =
    mark_failed-IsFinal (job_of row) false true 9 7 0 (txt "no disk") conn tt fails

unclaimed : IsUnclaimed (job_of row) (tables_of (other ∷ []))
unfolding is_claimed_by scan_job same
unclaimed = refl

-- A queue that counts the calls of `Succeed` and `Fail`, which the first time fail.
abbrev told : ℕ → Result (Unit {0})
told zero = err (plain (txt "connection reset"))
told (suc n) = ok tt

abbrev counter : RuntimeQueue ℕ
counter = record {
  claim_one = λ n. (ok (job_of row), n);
  succeed = λ job result n. (told n, suc n);
  fail = λ job failure n. (told n, suc n);
}

abbrev quiet_round : Round
quiet_round = record {
  execute = λ job. ok done;
  execution_ended = false;
  action_ended = false;
  deadline_in_pause = λ left. false;
}

run_once-Told_example :
    Told lenient counter
      (λ n. n)
      quiet_round
      (job_of row)
      0
      (run_once lenient counter (λ n. n) quiet_round 0).1
run_once-Told_example = run_once-Told lenient counter (λ n. n) quiet_round (job_of row) 0 refl

retry_finalization-Retried_example :
    Retried 2
      (λ left. false)
      (counter.succeed (job_of row) done)
      0
      (retry_finalization 2 (λ left. false) (counter.succeed (job_of row) done) 0)
retry_finalization-Retried_example =
    retry_finalization-Retried 2 (λ left. false) (counter.succeed (job_of row) done) 0
