-- ===== src/Jobs/SqlStore/Separation.antt =====
-- The calls of the store (internal/jobs/sqlstore.go) keep jobs of one resource apart, whether they
-- return or fail.
use motekarindo_panel.Base.{◌≡◌, refl, Bool, false, List, [], ◌∷◌, arith}
use motekarindo_panel.Base.Text.{Text, txt}
use motekarindo_panel.Base.Error.{Result}
use motekarindo_panel.Base.Sql.{exec}
use motekarindo_panel.Base.Sql.Keeps.{
  Keeps, Keeps-pure, Keeps-bind, Keeps-exec, Keeps-transaction, Keeps-lift, Keeps-fail, Keeps-if,
}
use motekarindo_panel.Schema.{Time, Status, is_running, JobRow, AuditRow, Tables}
use motekarindo_panel.Audit.Laws.{record_event-Keeps}
use motekarindo_panel.Jobs.{Job, Log, JobResult, Mutation}
use motekarindo_panel.Jobs.SqlStore.{
  is_claimed_by, succeed_row, fail_row, mutate_row, insert_logs, mark_succeeded, mark_failed,
  claim_one, enqueue, mutate, mutate_body, select_state,
}
use motekarindo_panel.Jobs.SqlStore.Rows.{update_jobs, row_of}
use motekarindo_panel.Jobs.SqlStore.Claim.{Locks, live}
use motekarindo_panel.Jobs.SqlStore.Exclusion.{
  IsSeparate, IsQuiet-where_set, insert_job-IsSeparate, insert_log-IsSeparate,
  update_jobs-IsSeparate, claim-IsSeparate,
}

module _ (now : Time) where
  pub enqueue-IsSeparate : (job : Job) → Keeps (IsSeparate now) (enqueue job)
  unfolding enqueue row_of live
  enqueue-IsSeparate job =
      Keeps-exec _ (λ t v. insert_job-IsSeparate now (row_of job) t (ground arith) v)

  pub claim_one-IsSeparate :
      (locks : Locks) (token : Text) (lease : Time)
      → Keeps (IsSeparate now) (claim_one locks token now lease)
  unfolding claim_one
  claim_one-IsSeparate locks token lease =
      Keeps-exec _ (λ t v. claim-IsSeparate now lease token t v locks)

  insert_logs-IsSeparate :
      (id : Text) (logs : List Log) (at : Time) → Keeps (IsSeparate now) (insert_logs id logs at)
  unfolding insert_logs
  insert_logs-IsSeparate id [] at = Keeps-pure tt
  insert_logs-IsSeparate id (log ∷ logs) at =
      Keeps-bind _ _ (Keeps-exec _ (insert_log-IsSeparate now id log.level log.message at))
        (λ _. insert_logs-IsSeparate id logs at)

  update-IsSeparate :
      (hit : JobRow → Bool) (set : JobRow → JobRow)
      → ((r : JobRow)
          → ((set r).id ≡ r.id)
            × ((set r).resource_key ≡ r.resource_key)
            × (live now (set r) ≡ false))
      → Keeps (IsSeparate now) (exec (update_jobs hit set))
  update-IsSeparate hit set k =
      Keeps-exec _ (λ t v. update_jobs-IsSeparate now hit set t (IsQuiet-where_set now hit set k) v)

  succeed_row-quiet :
      (result : JobResult) (at : Time) (r : JobRow)
      → ((succeed_row result at r).id ≡ r.id)
        × ((succeed_row result at r).resource_key ≡ r.resource_key)
        × (live now (succeed_row result at r) ≡ false)
  unfolding succeed_row live
  succeed_row-quiet result at r = (refl, refl, refl)

  fail_row-quiet :
      (final retryable : Bool) (run_after at finished_at : Time) (r : JobRow)
      → ((fail_row final retryable run_after at finished_at r).id ≡ r.id)
        × ((fail_row final retryable run_after at finished_at r).resource_key ≡ r.resource_key)
        × (live now (fail_row final retryable run_after at finished_at r) ≡ false)
  unfolding fail_row live
  fail_row-quiet final retryable run_after at finished_at r = (refl, refl, ground arith)

  pub mark_succeeded-IsSeparate :
      (job : Job) (at : Time) (result : JobResult)
      → Keeps (IsSeparate now) (mark_succeeded job at result)
  unfolding mark_succeeded
  mark_succeeded-IsSeparate job at result = Keeps-transaction _ (
      Keeps-bind _ _
        (update-IsSeparate (is_claimed_by job) (succeed_row result at)
          (succeed_row-quiet result at))
        (λ rows. Keeps-bind _ _ (Keeps-lift _) (λ _. insert_logs-IsSeparate job.id result.logs at)))

  pub mark_failed-IsSeparate :
      (job : Job) (final retryable : Bool) (run_after at finished_at : Time) (message : Text)
      → Keeps (IsSeparate now) (mark_failed job final retryable run_after at finished_at message)
  unfolding mark_failed
  mark_failed-IsSeparate job final retryable run_after at finished_at message =
      Keeps-transaction _ (
        Keeps-bind _ _
          (update-IsSeparate (is_claimed_by job) (fail_row final retryable run_after at finished_at)
            (fail_row-quiet final retryable run_after at finished_at))
          (λ rows. Keeps-bind _ _ (Keeps-lift _) (λ _.
            Keeps-if _ _ _ (Keeps-pure tt)
              (Keeps-exec _ (insert_log-IsSeparate now job.id (txt "error") message at)))))

  mutate_row-quiet :
      (to : Status) (at : Time) (r : JobRow)
      → is_running to ≡ false
      → ((mutate_row to at r).id ≡ r.id)
        × ((mutate_row to at r).resource_key ≡ r.resource_key)
        × (live now (mutate_row to at r) ≡ false)
  unfolding mutate_row live
  mutate_row-quiet to at r h = (refl, refl, ground arith)

  select_state-IsSeparate :
      (id : Text) (t : Tables) → IsSeparate now t → IsSeparate now (select_state id t).1
  unfolding select_state
  select_state-IsSeparate id t v = v

  pub mutate-IsSeparate :
      (accepts : AuditRow → Bool) (at : Time) (event_id : Result Text) (id : Text)
      (mutation : Mutation) (from to : Status) (action : Text)
      → is_running to ≡ false
      → Keeps (IsSeparate now) (mutate accepts at event_id id mutation from to action)
  unfolding mutate mutate_body
  mutate-IsSeparate accepts at event_id id mutation from to action h =
      Keeps-if _ _ _
        (Keeps-transaction _ (
          Keeps-bind _ _ (Keeps-exec _ (select_state-IsSeparate id)) (λ state.
            Keeps-bind _ _ (Keeps-lift _) (λ _.
              Keeps-bind _ _
                (update-IsSeparate _ (mutate_row to at) (λ r. mutate_row-quiet to at r h))
                (λ _.
                  Keeps-bind _ _
                    (record_event-Keeps
                      (λ t rows v. record { distinct = v.distinct; exclusive = v.exclusive })
                      accepts at event_id _)
                    (λ _. Keeps-pure tt))))))
        (Keeps-fail _)
