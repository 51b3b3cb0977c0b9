-- ===== src/Jobs/SqlStore/Transition.antt =====
-- `Retry` and `Cancel` (internal/jobs/sqlstore.go): which jobs they change, and how.
use motekarindo_panel.Base.{
  ◌≡◌, ◌&&◌, ◌||◌, refl, subst, sym, ap, ◌∙◌, Bool, true, not, Option, none, some, List, arith,
  Bool-cases, inl, inr,
}
use motekarindo_panel.Base.Text.{Text, same, to_lower}
use motekarindo_panel.Base.Error.{Result, ok, refuse, sentinel, invalid_transition, ok-injective}
use motekarindo_panel.Base.Act.{pure, fail, ◌>>◌, >>=-eq-ok, lift-eq-ok}
use motekarindo_panel.Base.Sql.{Conn, exec, exec-eq-ok, transaction, transaction-eq-ok}
use motekarindo_panel.Base.Sql.Keeps.{Keeps, Keeps-bind, Keeps-pure}
use motekarindo_panel.Schema.{Time, Status, queued, failed, cancelled, JobRow, AuditRow, Tables}
use motekarindo_panel.Audit.{record_event}
use motekarindo_panel.Audit.Laws.{record_event-Keeps}
use motekarindo_panel.Audit.Check.{action_job_retried, action_job_cancelled}
use motekarindo_panel.Jobs.{Mutation}
use motekarindo_panel.Jobs.Ident.{valid_job_id}
use motekarindo_panel.Jobs.SqlStore.{
  found, select_state, same_status, mutate_row, job_event, mutate_body, mutate, retry, cancel,
}
use motekarindo_panel.Jobs.SqlStore.Rows.{find_job, update_jobs, modify}
use motekarindo_panel.Jobs.SqlStore.Finalize.{update_jobs-eq-ok}

-- The row of the id, its status and its mark before the change, and the rows after it.
abbrev pub Changed : Text → Status → (Bool → Bool) → Status → Time → Tables → Tables → Type 0
Changed id from marked to now t t' =
    (r : JobRow) × (find_job (to_lower id) t.jobs ≡ some r)
    × (r.status ≡ from)
    × (marked r.retryable ≡ true)
    × (t'.jobs ≡ modify (λ s. same s.id (to_lower id)) (mutate_row to now) t.jobs)

same_status-eq : (s t : Status) → same_status s t ≡ true → s ≡ t
unfolding same_status
same_status-eq s t h = ground arith

found-ok :
    (o : Option JobRow) (state : Status × Bool)
    → found (λ r. (r.status, r.retryable)) o ≡ ok state
    → (r : JobRow) × (o ≡ some r) × (r.status ≡ state.0) × (r.retryable ≡ state.1)
found-ok none state h = cc
found-ok (some r) state h =
    (r, refl, ap (λ x. x.0) (ok-injective h), ap (λ x. x.1) (ok-injective h))

allowed :
    (s from : Status) (retrying retryable : Bool) (u : Unit {0})
    → refuse (not (same_status s from) || (retrying && not retryable)) (sentinel invalid_transition)
      ≡ ok u
    → (same_status s from ≡ true) × ((not retrying || retryable) ≡ true)
allowed s from retrying retryable u h = ground arith

module _ (accepts : AuditRow → Bool) (now : Time) (event_id : Result Text) where
  audited-Keeps :
      (rows : List JobRow) (id : Text) (mutation : Mutation) (action : Text)
      → Keeps
          (λ t. t.jobs ≡ rows)
          (record_event accepts now event_id (job_event id action mutation) >> pure tt)
  audited-Keeps rows id mutation action =
      Keeps-bind _ _ (record_event-Keeps (λ t r v. v) accepts now event_id _) (λ _. Keeps-pure tt)

  mutate_body-eq-ok :
      (id : Text) (mutation : Mutation) (from to : Status) (action : Text) (c : Conn Tables)
      (u : Unit {0})
      → (mutate_body accepts now event_id id mutation from to action c).0 ≡ ok u
      → Changed id from
          (λ b. not (same action action_job_retried) || b)
          to
          now
          c.tables
          (mutate_body accepts now event_id id mutation from to action c).1.tables
  unfolding mutate_body select_state
  mutate_body-eq-ok id mutation from to action c u h =
      let (state, ran, h1, q1) = >>=-eq-ok (exec (select_state id)) _ c u h in
      let (looked, kept) = exec-eq-ok (select_state id) c state ran in
      let (r, e, st, rt) = found-ok (find_job (to_lower id) c.tables.jobs) state looked in
      let (_, ok_state, h2, q2) = lift-eq-ok _ _ _ u h1 in
      let (is_from, marked) =
        allowed state.0 from (same action action_job_retried) state.1 _ ok_state in
      let (n, ran3, h3, q3) =
        >>=-eq-ok (exec (update_jobs (λ s. same s.id (to_lower id)) (mutate_row to now))) _ _ u
          h2 in
      let (updated, after) = exec-eq-ok _ _ n ran3 in
      let (_, changed) = update_jobs-eq-ok _ _ _ n updated in
      let tail =
        (audited-Keeps
            (exec (update_jobs (λ s. same s.id (to_lower id)) (mutate_row to now))
              (exec (select_state id) c).1).1.tables.jobs
            id mutation action).after
          _ refl in
      (
        r,
        e,
        st ∙ same_status-eq state.0 from is_from,
        ap (λ b. not (same action action_job_retried) || b) rt ∙ marked,
        ap (λ (x : Conn Tables). x.tables.jobs) (q1 ∙ q2 ∙ q3)
            ∙ tail
            ∙ ap (λ (t : Tables). t.jobs) after
            ∙ changed
            ∙ ap (λ (t : Tables). modify (λ s. same s.id (to_lower id)) (mutate_row to now) t.jobs)
                kept,
      )

  committed :
      (id : Text) (mutation : Mutation) (from to : Status) (action : Text) (c : Conn Tables)
      (u : Unit {0})
      → (transaction (mutate_body accepts now event_id id mutation from to action) c).0 ≡ ok u
      → Changed id from
          (λ b. not (same action action_job_retried) || b)
          to
          now
          c.tables
          (transaction (mutate_body accepts now event_id id mutation from to action) c).1.tables
  committed id mutation from to action c u h =
      let (b, begun, ran, left) = transaction-eq-ok _ c u h in
      let body = mutate_body-eq-ok id mutation from to action b u ran in
      subst
        (λ t.
          Changed id from (λ x. not (same action action_job_retried) || x) to now t
            (transaction (mutate_body accepts now event_id id mutation from to action) c).1.tables)
        begun
        (subst
          (λ t. Changed id from (λ x. not (same action action_job_retried) || x) to now b.tables t)
          (sym left) body)

  mutate-eq-ok :
      (id : Text) (mutation : Mutation) (from to : Status) (action : Text) (c : Conn Tables)
      (u : Unit {0})
      → (mutate accepts now event_id id mutation from to action c).0 ≡ ok u
      → Changed id from
          (λ b. not (same action action_job_retried) || b)
          to
          now
          c.tables
          (mutate accepts now event_id id mutation from to action c).1.tables
  unfolding mutate fail
  mutate-eq-ok id mutation from to action c u h = elim (Bool-cases (valid_job_id id)) [
    | inl v ↦ rw v (committed id mutation from to action c u (rw v at h))
    | inr v ↦ absurd (ground (arith, rw v at h))
  ]

  -- A `Retry` that returns without an error found the job failed and marked as retryable, and has
  -- queued it, and no other job, with its attempts counted from 0.
  pub retry-Changed :
      (id : Text) (mutation : Mutation) (c : Conn Tables) (u : Unit {0})
      → (retry accepts now event_id id mutation c).0 ≡ ok u
      → Changed id failed
          (λ b. b)
          queued
          now
          c.tables
          (retry accepts now event_id id mutation c).1.tables
  unfolding retry same
  retry-Changed id mutation c u h = mutate-eq-ok id mutation failed queued action_job_retried c u h

  -- A `Cancel` that returns without an error found the job queued, and has cancelled it, and no
  -- other job.
  pub cancel-Changed :
      (id : Text) (mutation : Mutation) (c : Conn Tables) (u : Unit {0})
      → (cancel accepts now event_id id mutation c).0 ≡ ok u
      → Changed id queued
          (λ b. true)
          cancelled
          now
          c.tables
          (cancel accepts now event_id id mutation c).1.tables
  unfolding cancel same
  cancel-Changed id mutation c u h =
      mutate-eq-ok id mutation queued cancelled action_job_cancelled c u h
