-- ===== src/Jobs/Queue.antt =====
-- The type `Queue` of internal/jobs/jobs.go: what callers enqueue, and how a worker finishes a job.
pub mod Checks
pub mod Acceptable
pub mod Enqueued
use motekarindo_panel.Base.{ℕ, ◌+◌, ◌*◌, Bool, true, ◌||◌, not, ltb, leb, ◌==◌, if◌then◌else◌}
use motekarindo_panel.Base.Int.{ℤ, is_nonpos, is_negative, to_ℕ}
use motekarindo_panel.Base.Text.{Text, txt, is_empty, starts_with, byte_len, trim_space}
use motekarindo_panel.Base.Error.{plain, sentinel, invalid_job, Result, ok, refuse, ◌>>=◌, ◌>>◌}
use motekarindo_panel.Base.Act
use motekarindo_panel.Base.Act.{Act, lift, pure}
use motekarindo_panel.Json.{Codec}
use motekarindo_panel.Schema.{Time, queued}
use motekarindo_panel.Jobs.{
  Job, EnqueueInput, FailureInput, JobResult, Store, RuntimeQueue, max_job_payload_bytes,
  max_job_type_bytes, max_resource_key_bytes, max_idempotency_bytes, max_job_attempts, minute,
}
use motekarindo_panel.Jobs.Finish.{safe_failure_message, normalize_result}

abbrev pub default_lease_duration : ℕ
default_lease_duration = 10 * minute

-- `now` and `new_id` are what the clock and the generator return in this call.
pub record Queue (S : Type 0) : Type 0 where
  pub store : Store S
  pub now : Time
  pub new_id : Result Text
  pub lease_duration : ℕ

unfoldable pub with_lease_duration : {S : Type 0} → Queue S → ℤ → Queue S
with_lease_duration q duration =
    if is_nonpos duration then q else record q { lease_duration = to_ℕ duration }

abbrev pub or_default : Text → Text → Text
or_default s d = if is_empty s then d else s

-- len(s) == 0 || len(s) > max || s[0] != '{' || !json.Valid(s)
unfoldable pub is_bad_payload : Codec → Text → Bool
unfolding byte_len
is_bad_payload json s =
    is_empty s
    || ltb max_job_payload_bytes (byte_len s)
    || not (starts_with b'{' s)
    || not (json.valid s)

-- if input.MaxAttempts <= 0 { input.MaxAttempts = 1 }
unfoldable pub at_least_once : ℤ → ℕ
at_least_once n = if is_nonpos n then 1 else to_ℕ n

unfoldable pub has_bad_text : EnqueueInput → Bool
unfolding byte_len
has_bad_text i =
    is_empty i.type
    || ltb max_job_type_bytes (byte_len i.type)
    || ltb max_resource_key_bytes (byte_len i.resource_key)
    || ltb max_idempotency_bytes (byte_len i.idempotency_key)

unfoldable pub trim_input : EnqueueInput → EnqueueInput
unfolding trim_space
trim_input i = record i {
  type = trim_space i.type;
  resource_key = trim_space i.resource_key;
  idempotency_key = trim_space i.idempotency_key;
  payload = trim_space (or_default i.payload (txt "{}"));
}

-- The job of a trimmed input that has passed.
unfoldable pub build_job : Time → Text → EnqueueInput → ℕ → Job
build_job now id i max_attempts = record {
  id = id;
  type = i.type;
  status = queued;
  resource_key = i.resource_key;
  idempotency_key = or_default i.idempotency_key id;
  payload = i.payload;
  attempts = 0;
  max_attempts = max_attempts;
  retryable = true;
  claim_token = txt "";
  run_after = if i.run_after == 0 then now else i.run_after;
  lease_expires_at = 0;
  started_at = 0;
  finished_at = 0;
  result_code = txt "";
  result = txt "";
  created_at = now;
  updated_at = now;
}

-- The job that `Enqueue` stores, or the error with which it refuses the input.
unfoldable pub new_job : Codec → Time → Result Text → EnqueueInput → Result Job
unfolding trim_input has_bad_text is_bad_payload at_least_once build_job
new_job json now new_id input = do
  let i = trim_input input
  refuse (has_bad_text i) (sentinel invalid_job)
  refuse (is_bad_payload json i.payload) (sentinel invalid_job)
  let max_attempts = at_least_once i.max_attempts
  refuse (ltb max_job_attempts max_attempts) (sentinel invalid_job)
  id ← new_id
  ok (build_job now id i max_attempts)

abbrev pub is_blank : Text → Bool
is_blank s = is_empty (trim_space s)

module _ {S : Type 0} (json : Codec) (q : Queue S) where
  unfoldable pub enqueue : EnqueueInput → Act S Job
  unfolding Act.◌>>=◌
  enqueue input =
      Act.◌>>=◌ (lift (new_job json q.now q.new_id input))
        λ job. Act.◌>>=◌ (q.store.enqueue job) (λ _. pure job)

  unfoldable pub claim_one : Act S Job
  claim_one = q.store.claim_one q.now (q.now + q.lease_duration)

  unfoldable pub succeed : Job → JobResult → Act S (Unit {0})
  unfolding Act.◌>>=◌
  succeed job result =
      Act.◌>>=◌ (lift (refuse (is_blank job.id || is_blank job.claim_token) (sentinel invalid_job)))
        λ _.
          Act.◌>>=◌ (lift (normalize_result json result))
            λ normalized. q.store.mark_succeeded job q.now normalized

  abbrev redacted : Text → Text
  redacted message = if is_blank message then message else safe_failure_message (plain message)

  unfoldable pub fail : Job → FailureInput → Act S (Unit {0})
  unfolding Act.◌>>=◌
  fail job input =
      let final = input.permanent || leb job.max_attempts job.attempts in
      Act.◌>>=◌
        (lift (
          refuse (is_blank job.id || is_blank job.claim_token || is_negative input.backoff)
            (sentinel invalid_job)))
        λ _.
          q.store.mark_failed job final (not input.permanent)
            (if final then q.now else q.now + to_ℕ input.backoff) q.now (if final then q.now else 0)
            (redacted input.message)

  -- The queue as the worker sees it.
  unfoldable pub runtime_queue : RuntimeQueue S
  unfolding claim_one succeed fail
  runtime_queue = record { claim_one = claim_one; succeed = succeed; fail = fail }
