-- ===== src/Jobs/SqlStore/Claim.antt =====
-- The statement of `SQLStore.ClaimOne` (internal/jobs/sqlstore.go): it fails the jobs whose last
-- lease has run out, and leases the first job that is due and whose resource is free.
pub mod Pick
pub mod Exclusive
pub mod Outcome
use motekarindo_panel.Base.{
  ◌+◌, Bool, true, false, ◌&&◌, ◌||◌, not, Option, none, some, List, [], ◌∷◌, ◌++◌, map, all, any,
  take, ltb, leb, ◌==◌, if◌then◌else◌,
}
use motekarindo_panel.Base.Text.{Text, txt, same, is_empty}
use motekarindo_panel.Base.Error.{driver, sentinel, no_job, Result, ok, err}
use motekarindo_panel.Schema.{
  Time, running, failed, is_queued, is_running, JobRow, LogRow, Tables, job_checks,
}
use motekarindo_panel.Jobs.{Job}
use motekarindo_panel.Jobs.SqlStore.Rows.{modify, scan_job}

-- What concurrent transactions hold: rows, which `SKIP LOCKED` passes over, and the advisory locks
-- of resource keys.
pub record Locks : Type 0 where
  pub row_locked : Text → Bool
  pub key_locked : Text → Bool

-- lease_expires_at <= $1, which is not true of NULL
unfoldable pub lapsed : Time → JobRow → Bool
lapsed now r = elim r.lease_expires_at [ none ↦ false | some t ↦ leb t now ]

-- A job that runs under a lease which has not run out.
unfoldable pub live : Time → JobRow → Bool
live now r = is_running r.status && (elim r.lease_expires_at [ none ↦ false | some t ↦ ltb now t ])

-- The condition of expired_candidates.
unfoldable pub is_spent : Time → JobRow → Bool
unfolding lapsed
is_spent now r = is_running r.status && lapsed now r && leb r.max_attempts r.attempts

-- The first condition of next_candidate.
unfoldable pub is_due : Time → JobRow → Bool
unfolding lapsed
is_due now r =
    (is_queued r.status && leb r.run_after now && ltb r.attempts r.max_attempts)
    || (is_running r.status && lapsed now r && ltb r.attempts r.max_attempts)

-- The row of the NOT EXISTS that keeps a candidate back.
unfoldable pub holds_resource : Time → JobRow → JobRow → Bool
unfolding live same
holds_resource now candidate r =
    live now r && same r.resource_key candidate.resource_key && not (same r.id candidate.id)

unfoldable pub is_candidate : Locks → Time → List JobRow → JobRow → Bool
is_candidate locks now rows r =
    is_due now r
    && (is_empty r.resource_key || not (any (holds_resource now r) rows))
    && not (locks.row_locked r.id)

-- ORDER BY lease_expires_at ASC; the candidates have a lease.
unfoldable pub lease_le : Option Time → Option Time → Bool
lease_le none b = false
lease_le (some a) none = true
lease_le (some a) (some b) = leb a b

unfoldable pub insert_by_lease : JobRow → List JobRow → List JobRow
unfolding lease_le
insert_by_lease r [] = r ∷ []
insert_by_lease r (s ∷ rows) =
    if lease_le r.lease_expires_at s.lease_expires_at
    then r ∷ s ∷ rows
    else s ∷ insert_by_lease r rows

unfoldable pub spent_by_lease : Locks → Time → List JobRow → List JobRow
unfolding insert_by_lease is_spent
spent_by_lease locks now [] = []
spent_by_lease locks now (r ∷ rows) =
    let rest = spent_by_lease locks now rows in
    if is_spent now r && not (locks.row_locked r.id) then insert_by_lease r rest else rest

-- ORDER BY run_after ASC, created_at ASC
unfoldable pub before : JobRow → JobRow → Bool
before r s =
    ltb r.run_after s.run_after || ((r.run_after == s.run_after) && ltb r.created_at s.created_at)

unfoldable pub earlier : JobRow → Option JobRow → Option JobRow
unfolding before
earlier r none = some r
earlier r (some s) = if before s r then some s else some r

-- WHERE p ORDER BY … LIMIT 1
unfoldable pub pick : (JobRow → Bool) → List JobRow → Option JobRow
unfolding earlier
pick p [] = none
pick p (r ∷ rows) = let rest = pick p rows in if p r then earlier r rest else rest

unfoldable pub expire_row : Time → JobRow → JobRow
expire_row now r = record r {
  status = failed;
  retryable = true;
  claim_token = none;
  lease_expires_at = none;
  finished_at = some now;
  updated_at = now;
}

unfoldable pub claim_row : Text → Time → Time → JobRow → JobRow
claim_row token now lease r = record r {
  status = running;
  attempts = r.attempts + 1;
  claim_token = some token;
  lease_expires_at = some lease;
  started_at = some now;
  finished_at = none;
  updated_at = now;
}

unfoldable pub expiry_log : Time → JobRow → LogRow
expiry_log now r = record {
  job_id = r.id;
  level = txt "error";
  message = txt "job lease expired after final attempt";
  created_at = now;
}

abbrev pub is_among : List JobRow → JobRow → Bool
is_among rows r = any (λ s. same s.id r.id) rows

-- The CTE `next`: the candidate, unless another transaction holds the lock of its resource.
unfoldable pub next : Locks → Option JobRow → Option JobRow
next locks none = none
next locks (some r) =
    if is_empty r.resource_key || not (locks.key_locked r.resource_key) then some r else none

unfoldable pub expire : Time → List JobRow → Tables → Tables
expire now spent t = record t {
  jobs = modify (is_among spent) (expire_row now) t.jobs;
  job_logs = t.job_logs ++ map (expiry_log now) spent;
}

unfoldable pub lease_next :
    Text → Time → Time → Option JobRow → Tables → Tables → Result Job × Tables
lease_next token now lease none before' t = (err (sentinel no_job), t)
lease_next token now lease (some r) before' t =
    if job_checks (claim_row token now lease r)
    then (
      ok (scan_job (claim_row token now lease r)),
      record t { jobs = modify (λ s. same s.id r.id) (claim_row token now lease) t.jobs },
    )
    else (err (driver (txt "check constraint violated")), before')

-- The expired rows pass the CHECKs.
abbrev pub expiry_passes : Time → List JobRow → List JobRow → Bool
expiry_passes now spent rows =
    all (λ r. not (is_among spent r) || job_checks (expire_row now r)) rows

-- `token` is what gen_random_uuid() returns.
unfoldable pub claim : Locks → Text → Time → Time → Tables → Result Job × Tables
claim locks token now lease t =
    let spent = take 100 (spent_by_lease locks now t.jobs) in
    let chosen = next locks (pick (is_candidate locks now t.jobs) t.jobs) in
    if expiry_passes now spent t.jobs
    then lease_next token now lease chosen t (expire now spent t)
    else (err (driver (txt "check constraint violated")), t)
