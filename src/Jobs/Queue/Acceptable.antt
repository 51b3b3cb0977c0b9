-- ===== src/Jobs/Queue/Acceptable.antt =====
-- The inputs that `Queue.Enqueue` (internal/jobs/jobs.go) takes, and the job that it makes of one.
use motekarindo_panel.Base.{
  ◌≡◌, refl, Bool, true, false, ◌&&◌, not, leb, ltb, ◌==◌, arith, inl, inr, Bool-cases,
  if◌then◌else◌,
}
use motekarindo_panel.Base.Int.{ℤ, pos, negsuc, is_nonpos, to_ℕ}
use motekarindo_panel.Base.Text.{Text, txt, is_empty, starts_with, byte_len-pos, trim_space}
use motekarindo_panel.Base.Error.{Error, sentinel, invalid_job, Result, ok, err}
use motekarindo_panel.Json.{Codec}
use motekarindo_panel.Schema.{Time, queued, within}
use motekarindo_panel.Jobs.{Job, EnqueueInput}
use motekarindo_panel.Jobs.Queue.{
  or_default, trim_input, has_bad_text, is_bad_payload, at_least_once, build_job, new_job,
}

-- The payload that is stored: an empty one is the empty object.
abbrev pub payload_of : EnqueueInput → Text
payload_of input = trim_space (or_default input.payload (txt "{}"))

-- At most 25 attempts; none or fewer are one.
abbrev pub few_attempts : ℤ → Bool
few_attempts (pos n) = leb n 25
few_attempts (negsuc n) = true

-- The inputs that may be enqueued, by the sizes of their trimmed texts in bytes.
pub is_acceptable : Codec → EnqueueInput → Bool
is_acceptable json input =
    (within 1 128 (trim_space input.type)
      && (within 0 512 (trim_space input.resource_key)
          && within 0 128 (trim_space input.idempotency_key)))
    && ((within 1 65536 (payload_of input)
          && (starts_with b'{' (payload_of input) && json.valid (payload_of input)))
        && few_attempts input.max_attempts)

good_texts :
    (i : EnqueueInput)
    → not (has_bad_text i)
      ≡ (within 1 128 i.type && (within 0 512 i.resource_key && within 0 128 i.idempotency_key))
unfolding has_bad_text
good_texts i = ground (arith, byte_len-pos i.type)

good_payload :
    (json : Codec) (s : Text)
    → not (is_bad_payload json s) ≡ (within 1 65536 s && (starts_with b'{' s && json.valid s))
unfolding is_bad_payload
good_payload json s = ground (arith, byte_len-pos s)

good_attempts : (n : ℤ) → not (ltb 25 (at_least_once n)) ≡ few_attempts n
unfolding at_least_once
good_attempts (pos n) = ground arith
good_attempts (negsuc n) = ground arith

-- The job is made of the input.
pub record IsJobOf (now : Time) (id : Text) (input : EnqueueInput) (job : Job) : Type 0 where
  pub has_id : job.id ≡ id
  pub has_type : job.type ≡ trim_space input.type
  pub has_resource : job.resource_key ≡ trim_space input.resource_key
  pub has_key : job.idempotency_key ≡ (
      if is_empty (trim_space input.idempotency_key) then id else trim_space input.idempotency_key)
  pub has_payload : job.payload ≡ payload_of input
  pub is_waiting : (job.status ≡ queued) × (job.attempts ≡ 0) × (job.retryable ≡ true)
  pub has_attempts :
      job.max_attempts ≡ (if is_nonpos input.max_attempts then 1 else to_ℕ input.max_attempts)
  pub has_times :
      (job.run_after ≡ (if input.run_after == 0 then now else input.run_after))
      × (job.created_at ≡ now)
      × (job.updated_at ≡ now)

abbrev pub made : Time → Text → EnqueueInput → Job
made now id input =
    build_job now id (trim_input input) (at_least_once (trim_input input).max_attempts)

pub made-IsJobOf :
    (now : Time) (id : Text) (input : EnqueueInput) → IsJobOf now id input (made now id input)
unfolding build_job trim_input at_least_once
made-IsJobOf now id input = record {
  has_id = refl;
  has_type = refl;
  has_resource = refl;
  has_key = refl;
  has_payload = refl;
  is_waiting = (refl, refl, refl);
  has_attempts = refl;
  has_times = (refl, refl, refl);
}

-- The three tests of `Enqueue` together.
verdicts :
    (json : Codec) (input : EnqueueInput)
    → is_acceptable json input ≡ (
        not (has_bad_text (trim_input input))
        && (not (is_bad_payload json (trim_input input).payload)
            && not (ltb 25 (at_least_once (trim_input input).max_attempts))))
unfolding is_acceptable trim_input
verdicts json input =
    rw
      (
        good_texts (trim_input input),
        good_payload json (payload_of input),
        good_attempts input.max_attempts,
      )
      refl

module _ (json : Codec) (now : Time) (new_id : Result Text) (input : EnqueueInput) where
  pub new_job-refused :
      is_acceptable json input ≡ false → new_job json now new_id input ≡ err (sentinel invalid_job)
  unfolding new_job
  new_job-refused h = elim (Bool-cases (has_bad_text (trim_input input))) [
    | inl t ↦ rw t refl
    | inr t ↦ elim (Bool-cases (is_bad_payload json (trim_input input).payload)) [
      | inl p ↦ rw (t, p) refl
      | inr p ↦
          let many : ltb 25 (at_least_once (trim_input input).max_attempts) ≡ true =
            ground (arith, verdicts json input, h, t, p) in
          rw (t, p, many) refl
    ]
  ]

module _ (json : Codec) (now : Time) (input : EnqueueInput)
    (good : is_acceptable json input ≡ true) where
  good_text : has_bad_text (trim_input input) ≡ false
  good_text = ground (arith, verdicts json input, good)

  good_document : is_bad_payload json (trim_input input).payload ≡ false
  good_document = ground (arith, verdicts json input, good)

  good_number : ltb 25 (at_least_once (trim_input input).max_attempts) ≡ false
  good_number = ground (arith, verdicts json input, good)

  pub new_job-made : (id : Text) → new_job json now (ok id) input ≡ ok (made now id input)
  unfolding new_job
  new_job-made id = rw (good_text, good_document, good_number) refl

  pub new_job-nameless : (e : Error) → new_job json now (err e) input ≡ err e
  unfolding new_job
  new_job-nameless e = rw (good_text, good_document, good_number) refl
