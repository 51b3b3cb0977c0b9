-- ===== src/Jobs/SqlStore/Checked.antt =====
-- The store's statements (internal/jobs/sqlstore.go) and the CHECKs of the table jobs.
use mathlib.Core.List.{Memᴰ}
use motekarindo_panel.Base.{
  ◌≡◌, ◌∷◌, ◌||◌, refl, Bool, true, not, Option, none, some, List, [], all, All, arith, inl, inr,
  take, Bool-cases,
}
use motekarindo_panel.Base.Text.{Text, txt, same}
use motekarindo_panel.Base.Error.{Result}
use motekarindo_panel.Base.Sql.Keeps.{
  Keeps, Keeps-pure, Keeps-bind, Keeps-exec, Keeps-transaction, Keeps-lift, Keeps-fail, Keeps-if,
}
use motekarindo_panel.Schema.{Time, Status, JobRow, AuditRow, Tables, job_checks}
use motekarindo_panel.Audit.Laws.{record_event-Keeps}
use motekarindo_panel.Jobs.{Job, Log, JobResult, Mutation}
use motekarindo_panel.Jobs.SqlStore.{
  insert_logs, mark_succeeded, mark_failed, claim_one, enqueue, mutate, mutate_body, select_state,
}
use motekarindo_panel.Jobs.SqlStore.Rows.{update_jobs, insert_job, insert_log, modify}
use motekarindo_panel.Jobs.SqlStore.Rows.Laws.{All-map, All-and, DistinctIds, row_of_id}
use motekarindo_panel.Jobs.SqlStore.Claim.{
  Locks, spent_by_lease, is_among, expire, expire_row, claim_row, lease_next, expiry_passes, claim,
}
use motekarindo_panel.Jobs.SqlStore.Claim.Pick.{pick-IsFirst}
use motekarindo_panel.Jobs.SqlStore.Exclusion.{IsSeparate, next-some, claim-IsSeparate}
use motekarindo_panel.Jobs.SqlStore.Claim.Outcome.{IsChecked, expire_row-checks}

abbrev Passes : JobRow → Type 0
Passes r = job_checks r ≡ true

All-modify :
    (hit : JobRow → Bool) (set : JobRow → JobRow) (rows : List JobRow)
    → all (λ r. not (hit r) || job_checks (set r)) rows ≡ true
    → All Passes rows
    → All Passes (modify hit set rows)
All-modify hit set [] h k = tt
All-modify hit set (r ∷ rows) h k = (
  elim (Bool-cases (hit r)) [ inl e ↦ rw e (ground arith) | inr e ↦ rw e k.0 ],
  All-modify hit set rows (ground arith) k.1,
)

update_jobs-IsChecked :
    (hit : JobRow → Bool) (set : JobRow → JobRow) (t : Tables)
    → IsChecked t
    → IsChecked (update_jobs hit set t).1
unfolding update_jobs
update_jobs-IsChecked hit set t v =
    elim (Bool-cases (all (λ r. not (hit r) || job_checks (set r)) t.jobs)) [
      | inl e ↦ rw e (All-modify hit set t.jobs e v)
      | inr e ↦ rw e v
    ]

insert_job-IsChecked : (row : JobRow) (t : Tables) → IsChecked t → IsChecked (insert_job row t).1
unfolding insert_job
insert_job-IsChecked row t v = ground arith

insert_log-IsChecked :
    (id level message : Text) (at : Time) (t : Tables)
    → IsChecked t
    → IsChecked (insert_log id level message at t).1
unfolding insert_log
insert_log-IsChecked id level message at t v = ground arith

expire-IsChecked :
    (now : Time) (spent : List JobRow) (t : Tables) → IsChecked t → IsChecked (expire now spent t)
unfolding expire
expire-IsChecked now spent t v =
    All-map Passes Passes _ t.jobs
      (λ r h. elim (Bool-cases (is_among spent r)) [
        | inl e ↦ rw e (expire_row-checks now r h)
        | inr e ↦ rw e h
      ])
      v

module _ (now lease : Time) (token : Text) (t : Tables) (d : DistinctIds t.jobs)
    (v : IsChecked t) where
  -- A row of `r`'s id could be leased.
  abbrev Claimable : JobRow → JobRow → Type 0
  Claimable r s = same s.id r.id ≡ true → job_checks (claim_row token now lease s) ≡ true

  expired-checks :
      (r : JobRow)
      → job_checks (claim_row token now lease r) ≡ true
      → job_checks (claim_row token now lease (expire_row now r)) ≡ true
  unfolding claim_row expire_row job_checks
  expired-checks r h = h

  leased-Passes :
      (r : JobRow) (spent : List JobRow)
      → Memᴰ r t.jobs
      → job_checks (claim_row token now lease r) ≡ true
      → All Passes
          (modify (λ s. same s.id r.id) (claim_row token now lease) (expire now spent t).jobs)
  unfolding expire expire_row
  leased-Passes r spent m h =
      All-map _ Passes _ (expire now spent t).jobs
        (λ s k. elim (Bool-cases (same s.id r.id)) [ inl e ↦ rw e (k.1 e) | inr e ↦ rw e k.0 ])
        (All-and Passes (Claimable r) (expire now spent t).jobs (expire-IsChecked now spent t v) (
          All-map (λ s. same s.id r.id ≡ true → s ≡ r) (Claimable r) _ t.jobs
            (λ s k. elim (Bool-cases (is_among spent s)) [
              | inl e ↦ rw e (λ q. rw (k q) (expired-checks r h))
              | inr e ↦ rw e (λ q. rw (k q) h)
            ])
            (row_of_id r t.jobs d m)))

  lease_next-IsChecked :
      (spent : List JobRow) (chosen : Option JobRow)
      → ((r : JobRow) → chosen ≡ some r → Memᴰ r t.jobs)
      → IsChecked (lease_next token now lease chosen t (expire now spent t)).1
  unfolding lease_next
  lease_next-IsChecked spent none h = expire-IsChecked now spent t v
  lease_next-IsChecked spent (some r) h =
      elim (Bool-cases (job_checks (claim_row token now lease r))) [
        | inl e ↦ rw e (leased-Passes r spent (h r refl) e)
        | inr e ↦ rw e v
      ]

  claim-IsChecked : (locks : Locks) → IsChecked (claim locks token now lease t).1
  unfolding claim
  claim-IsChecked locks =
      let spent = take 100 (spent_by_lease locks now t.jobs) in
      elim (Bool-cases (expiry_passes now spent t.jobs)) [
        | inl e ↦ rw e (
            lease_next-IsChecked spent _
              λ r e. (pick-IsFirst _ t.jobs r (next-some locks _ r e)).member)
        | inr e ↦ rw e v
      ]

pub claim_one-IsChecked :
    (now lease : Time) (token : Text) (locks : Locks)
    → Keeps (λ t. IsSeparate now t × IsChecked t) (claim_one locks token now lease)
unfolding claim_one
claim_one-IsChecked now lease token locks = Keeps-exec _ λ t v. (
  claim-IsSeparate now lease token t v.0 locks,
  claim-IsChecked now lease token t v.0.distinct v.1 locks,
)

pub enqueue-IsChecked : (job : Job) → Keeps IsChecked (enqueue job)
unfolding enqueue
enqueue-IsChecked job = Keeps-exec _ (insert_job-IsChecked _)

insert_logs-IsChecked :
    (id : Text) (logs : List Log) (at : Time) → Keeps IsChecked (insert_logs id logs at)
unfolding insert_logs
insert_logs-IsChecked id [] at = Keeps-pure tt
insert_logs-IsChecked id (log ∷ logs) at =
    Keeps-bind _ _ (Keeps-exec _ (insert_log-IsChecked id log.level log.message at))
      (λ _. insert_logs-IsChecked id logs at)

pub mark_succeeded-IsChecked :
    (job : Job) (at : Time) (result : JobResult) → Keeps IsChecked (mark_succeeded job at result)
unfolding mark_succeeded
mark_succeeded-IsChecked job at result = Keeps-transaction _ (
    Keeps-bind _ _ (Keeps-exec _ (update_jobs-IsChecked _ _))
      (λ _. Keeps-bind _ _ (Keeps-lift _) (λ _. insert_logs-IsChecked job.id result.logs at)))

pub mark_failed-IsChecked :
    (job : Job) (final retryable : Bool) (run_after at finished_at : Time) (message : Text)
    → Keeps IsChecked (mark_failed job final retryable run_after at finished_at message)
unfolding mark_failed
mark_failed-IsChecked job final retryable run_after at finished_at message = Keeps-transaction _ (
    Keeps-bind _ _ (Keeps-exec _ (update_jobs-IsChecked _ _)) (λ _.
      Keeps-bind _ _ (Keeps-lift _) (λ _.
        Keeps-if _ _ _ (Keeps-pure tt)
          (Keeps-exec _ (insert_log-IsChecked job.id (txt "error") message at)))))

pub mutate-IsChecked :
    (accepts : AuditRow → Bool) (at : Time) (event_id : Result Text) (id : Text)
    (mutation : Mutation) (from to : Status) (action : Text)
    → Keeps IsChecked (mutate accepts at event_id id mutation from to action)
unfolding mutate mutate_body select_state
mutate-IsChecked accepts at event_id id mutation from to action =
    Keeps-if _ _ _
      (Keeps-transaction _ (
        Keeps-bind _ _ (Keeps-exec _ (λ t v. v)) (λ state. Keeps-bind _ _ (Keeps-lift _) (λ _.
          Keeps-bind _ _ (Keeps-exec _ (update_jobs-IsChecked _ _)) (λ _.
            Keeps-bind _ _ (record_event-Keeps (λ t rows v. v) accepts at event_id _)
              (λ _. Keeps-pure tt))))))
      (Keeps-fail _)
