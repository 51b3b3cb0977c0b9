-- ===== src/Jobs/SqlStore/Finalize.antt =====
-- `MarkSucceeded` and `MarkFailed` (internal/jobs/sqlstore.go): by the holder of the claim, and
-- once.
use motekarindo_panel.Base.{
  ℕ, ◌≡◌, ◌∷◌, refl, sym, ap, ◌∙◌, Bool, false, List, [], any, arith, inl, inr, Bool-cases,
}
use motekarindo_panel.Base.Text.{Text, txt}
use motekarindo_panel.Base.Error.{Error, Result-cases, ok, err}
use motekarindo_panel.Base.Act.{lift, ◌>>=◌, ◌>>◌, >>=-eq-ok, lift-eq-ok}
use motekarindo_panel.Base.Sql.{
  Conn, Sql, exec, exec-eq-ok, transaction, transaction_err, transaction-eq-ok,
}
use motekarindo_panel.Base.Sql.Keeps.{Keeps, Keeps-pure, Keeps-bind, Keeps-exec, Keeps-if}
use motekarindo_panel.Schema.{Time, JobRow, Tables}
use motekarindo_panel.Jobs.{Job, Log, JobResult}
use motekarindo_panel.Jobs.SqlStore.{
  is_claimed_by, succeed_row, fail_row, require_updated_row, mark_succeeded, mark_failed,
  insert_logs,
}
use motekarindo_panel.Jobs.SqlStore.Rows.{update_jobs, modify, count_if, insert_log}

-- No row runs under the claim.
abbrev pub IsUnclaimed : Job → Tables → Type 0
IsUnclaimed job t = any (is_claimed_by job) t.jobs ≡ false

count_if-none : {A : Type 0} (p : A → Bool) (xs : List A) → any p xs ≡ false → count_if p xs ≡ 0
count_if-none p [] h = refl
count_if-none p (x ∷ xs) h = ground (arith, count_if-none p xs)

pub update_jobs-eq-ok :
    (hit : JobRow → Bool) (set : JobRow → JobRow) (t : Tables) (n : ℕ)
    → (update_jobs hit set t).0 ≡ ok n
    → (n ≡ count_if hit t.jobs) × ((update_jobs hit set t).1.jobs ≡ modify hit set t.jobs)
unfolding update_jobs
update_jobs-eq-ok hit set t n h = ground arith

any-modify :
    (hit : JobRow → Bool) (set : JobRow → JobRow) (rows : List JobRow)
    → ((r : JobRow) → hit (set r) ≡ false)
    → any hit (modify hit set rows) ≡ false
any-modify hit set [] k = refl
any-modify hit set (r ∷ rows) k = elim (Bool-cases (hit r)) [
  | inl e ↦ rw (e, k r) (any-modify hit set rows k)
  | inr e ↦ rw (e, e) (any-modify hit set rows k)
]

insert_log-jobs :
    (rows : List JobRow) (id level message : Text) (at : Time) (t : Tables)
    → t.jobs ≡ rows
    → (insert_log id level message at t).1.jobs ≡ rows
unfolding insert_log
insert_log-jobs rows id level message at t h = ground arith

insert_logs-jobs :
    (rows : List JobRow) (id : Text) (logs : List Log) (at : Time)
    → Keeps (λ t. t.jobs ≡ rows) (insert_logs id logs at)
unfolding insert_logs
insert_logs-jobs rows id [] at = Keeps-pure tt
insert_logs-jobs rows id (log ∷ logs) at =
    Keeps-bind _ _ (Keeps-exec _ (insert_log-jobs rows id log.level log.message at))
      (λ _. insert_logs-jobs rows id logs at)

-- An update of one row and what follows it, in a transaction.
abbrev pub Finalization :
    (JobRow → Bool) → (JobRow → JobRow) → Sql Tables (Unit {0}) → Sql Tables (Unit {0})
Finalization hit set rest =
    transaction do rows ← exec (update_jobs hit set); lift (require_updated_row rows); rest

require_updated_row-eq-ok : (n : ℕ) (u : Unit {0}) → require_updated_row n ≡ ok u → n ≡ 1
unfolding require_updated_row
require_updated_row-eq-ok n u h = ground arith

-- An error, and the tables as they were.
abbrev pub IsRefused : {A : Type 0} → Sql Tables A → Conn Tables → Type 0
IsRefused m c = (e : Error) × ((m c).0 ≡ err e) × ((m c).1.tables ≡ c.tables)

module _ (hit : JobRow → Bool) (set : JobRow → JobRow) (rest : Sql Tables (Unit {0}))
    (stays : (rows : List JobRow) → Keeps (λ t. t.jobs ≡ rows) rest) where
  Finalization-eq-ok :
      (c : Conn Tables) (u : Unit {0})
      → (Finalization hit set rest c).0 ≡ ok u
      → (count_if hit c.tables.jobs ≡ 1)
        × ((Finalization hit set rest c).1.tables.jobs ≡ modify hit set c.tables.jobs)
  Finalization-eq-ok c u h =
      let (b, tables, ran, left) = transaction-eq-ok _ c u h in
      let (n, ran1, h1, q1) = >>=-eq-ok (exec (update_jobs hit set)) _ b u ran in
      let (updated, after) = exec-eq-ok (update_jobs hit set) b n ran1 in
      let (counted, rows) = update_jobs-eq-ok hit set b.tables n updated in
      let (v, one, h2, q2) = lift-eq-ok (require_updated_row n) (λ _. rest) _ u h1 in
      let jobs = λ (s : Conn Tables). s.tables.jobs in
      (
        ap (λ (t : Tables). count_if hit t.jobs) (sym tables)
            ∙ sym counted
            ∙ require_updated_row-eq-ok n v one,
        ap (λ (t : Tables). t.jobs) left
            ∙ ap jobs (q1 ∙ q2)
            ∙ (stays _).after (exec (update_jobs hit set) b).1 refl
            ∙ ap (λ (t : Tables). t.jobs) after
            ∙ rows
            ∙ ap (λ (t : Tables). modify hit set t.jobs) tables,
      )

  -- A finalisation that no row allows fails and changes nothing.
  Finalization-IsRefused :
      (c : Conn Tables) → any hit c.tables.jobs ≡ false → IsRefused (Finalization hit set rest) c
  Finalization-IsRefused c h = elim (Result-cases (Finalization hit set rest c).0) [
    | inl (u, e) ↦ absurd (none_is_one (Finalization-eq-ok c u e).0)
    | inr (x, e) ↦ (x, e, transaction_err _ c e)
  ]
    where
      none_is_one : count_if hit c.tables.jobs ≡ 1 → ⊥
      none_is_one one = cc (count_if-none hit c.tables.jobs h, one)

module _ (job : Job) where
  succeed_row-unclaimed :
      (result : JobResult) (at : Time) (r : JobRow)
      → is_claimed_by job (succeed_row result at r) ≡ false
  unfolding is_claimed_by succeed_row
  succeed_row-unclaimed result at r = ground arith

  fail_row-unclaimed :
      (final retryable : Bool) (run_after at finished_at : Time) (r : JobRow)
      → is_claimed_by job (fail_row final retryable run_after at finished_at r) ≡ false
  unfolding is_claimed_by fail_row
  fail_row-unclaimed final retryable run_after at finished_at r = ground arith

-- Neither success nor failure can be recorded under the claim: each ends in an error and leaves
-- every table as it was.
abbrev pub IsLost : Job → Conn Tables → Type 0
IsLost job c =
    ((at : Time) (result : JobResult) → IsRefused (mark_succeeded job at result) c)
    × ((final retryable : Bool) (run_after at finished_at : Time) (message : Text)
        → IsRefused (mark_failed job final retryable run_after at finished_at message) c)

-- A claim that no running row holds is lost.
pub IsUnclaimed-IsLost : (job : Job) (c : Conn Tables) → IsUnclaimed job c.tables → IsLost job c
unfolding mark_succeeded mark_failed
IsUnclaimed-IsLost job c h = (
  λ at result.
      Finalization-IsRefused (is_claimed_by job) (succeed_row result at) _
        (λ rows. insert_logs-jobs rows job.id result.logs at) c h,
  λ final retryable run_after at finished_at message.
      Finalization-IsRefused (is_claimed_by job) (fail_row final retryable run_after at finished_at)
        _
        (λ rows.
          Keeps-if _ _ _ (Keeps-pure tt)
            (Keeps-exec _ (insert_log-jobs rows job.id (txt "error") message at)))
        c h,
)

-- What a finalisation that returns has done, with the update `set`: exactly one row ran under the
-- claim, it and no other is updated, and the claim is lost from then on.
abbrev pub IsFinal : Job → (JobRow → JobRow) → Conn Tables → Conn Tables → Type 0
IsFinal job set c c' =
    (count_if (is_claimed_by job) c.tables.jobs ≡ 1)
    × (c'.tables.jobs ≡ modify (is_claimed_by job) set c.tables.jobs)
    × IsLost job c'

IsFinal-of :
    (job : Job) (set : JobRow → JobRow) (c c' : Conn Tables)
    → ((r : JobRow) → is_claimed_by job (set r) ≡ false)
    → (count_if (is_claimed_by job) c.tables.jobs ≡ 1)
      × (c'.tables.jobs ≡ modify (is_claimed_by job) set c.tables.jobs)
    → IsFinal job set c c'
IsFinal-of job set c c' k h = (
  h.0,
  h.1,
  IsUnclaimed-IsLost job c'
      (ap (any (is_claimed_by job)) h.1 ∙ any-modify (is_claimed_by job) set c.tables.jobs k),
)

-- A `MarkSucceeded` that returns without an error updated exactly the one row that ran under the
-- job's claim, and neither success nor failure is recorded under this claim again.
pub mark_succeeded-IsFinal :
    (job : Job) (at : Time) (result : JobResult) (c : Conn Tables) (u : Unit {0})
    → (mark_succeeded job at result c).0 ≡ ok u
    → IsFinal job (succeed_row result at) c (mark_succeeded job at result c).1
unfolding mark_succeeded
mark_succeeded-IsFinal job at result c u h =
    IsFinal-of job (succeed_row result at) c _ (succeed_row-unclaimed job result at) (
      Finalization-eq-ok (is_claimed_by job) (succeed_row result at) _
        (λ rows. insert_logs-jobs rows job.id result.logs at) c u h)

-- A `MarkFailed` that returns without an error updated exactly the one row that ran under the
-- job's claim, and neither success nor failure is recorded under this claim again.
pub mark_failed-IsFinal :
    (job : Job) (final retryable : Bool) (run_after at finished_at : Time) (message : Text)
    (c : Conn Tables) (u : Unit {0})
    → (mark_failed job final retryable run_after at finished_at message c).0 ≡ ok u
    → IsFinal job
        (fail_row final retryable run_after at finished_at)
        c
        (mark_failed job final retryable run_after at finished_at message c).1
unfolding mark_failed
mark_failed-IsFinal job final retryable run_after at finished_at message c u h =
    IsFinal-of job (fail_row final retryable run_after at finished_at) c _
      (fail_row-unclaimed job final retryable run_after at finished_at)
      (Finalization-eq-ok (is_claimed_by job) (fail_row final retryable run_after at finished_at) _
        (λ rows.
          Keeps-if _ _ _ (Keeps-pure tt)
            (Keeps-exec _ (insert_log-jobs rows job.id (txt "error") message at)))
        c u h)
