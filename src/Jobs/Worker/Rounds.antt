-- ===== src/Jobs/Worker/Rounds.antt =====
-- A round of the worker (internal/jobs/worker.go): when the queue is told, how often, and what.
use motekarindo_panel.Base.{
  ℕ, zero, suc, ◌≡◌, ◌≤◌, ◌⊎◌, ◌+◌, ◌||◌, refl, sym, subst, Bool, true, false, arith, inl, inr,
  Bool-cases,
}
use motekarindo_panel.Base.Error.{
  Error, join, Result, Result-cases, ok, err, is, invalid_transition,
}
use motekarindo_panel.Base.Act.{Act}
use motekarindo_panel.Base.Int.{pos}
use motekarindo_panel.Json.{Codec}
use motekarindo_panel.Jobs.{Job, FailureInput, JobResult, RuntimeQueue}
use motekarindo_panel.Jobs.Finish.{normalize_result, safe_failure_message}
use motekarindo_panel.Jobs.Worker.{
  failure_of, reported, Round, deadline_exceeded, is_uncertain, is_permanent, after_attempt,
  retry_finalization, finalize, settle, run_claimed, run_once,
}

-- Why no call follows the `k`-th of at most `n`, whose result is `r`, and what is returned.
pub data Stopped (n : ℕ) (ended : ℕ → Bool)
    : ℕ → Result (Unit {0}) → Result (Unit {0}) → Type 0 where
  done : {k : ℕ} → Stopped n ended k (ok tt) (ok tt)
  lost : {k : ℕ} {e : Error} → is invalid_transition e ≡ true → Stopped n ended k (err e) (err e)
  spent : {e : Error} → Stopped n ended n (err e) (err e)
  late :
      {k m : ℕ} {e : Error}
      → suc (m + k) ≡ n
      → ended m ≡ true
      → Stopped n ended k (err e) (err (join e deadline_exceeded))

Stopped-suc :
    {n : ℕ} {ended : ℕ → Bool} {k : ℕ} {r out : Result (Unit {0})}
    → Stopped n ended k r out
    → Stopped (suc n) ended (suc k) r out
Stopped-suc done = done
Stopped-suc (lost h) = lost h
Stopped-suc spent = spent
Stopped-suc (late m h) = late (ground arith) h

module _ {S : Type 0} where
  -- Calls in a row from a state to a state, the first with so many attempts left after it, with
  -- their number and the last one's result; each before the last failed with an error other than
  -- ErrInvalidTransition, and the deadline did not come in the pause after it.
  pub data Calls (ended : ℕ → Bool) (f : Act S (Unit {0}))
      : ℕ → S → ℕ → Result (Unit {0}) → S → Type 0 where
    last : {n : ℕ} {s : S} → Calls ended f n s 1 (f s).0 (f s).1
    again :
        {n : ℕ} {s : S} {k : ℕ} {r : Result (Unit {0})} {s' : S} (e : Error)
        → (f s).0 ≡ err e
        → is invalid_transition e ≡ false
        → ended n ≡ false
        → Calls ended f n (f s).1 k r s'
        → Calls ended f (suc n) s (suc k) r s'

  abbrev pub Retried : ℕ → (ℕ → Bool) → Act S (Unit {0}) → S → Result (Unit {0}) × S → Type 0
  Retried n ended f s out =
      (k : ℕ) × (r : Result (Unit {0})) × (1 ≤ k)
      × (k ≤ suc n)
      × Calls ended f n s k r out.1
      × Stopped (suc n) ended k r out.0

  module _ (n : ℕ) (ended : ℕ → Bool) (f : Act S (Unit {0})) (s : S)
      (rest : Retried n ended f (f s).1 (retry_finalization n ended f (f s).1)) where
    after_attempt-Retried :
        (r : Result (Unit {0}))
        → (f s).0 ≡ r
        → Retried
            (suc n)
            ended
            f
            s
            (after_attempt r (f s).1 (ended n) (retry_finalization n ended f))
    unfolding after_attempt
    after_attempt-Retried (ok u) h = (
      1,
      ok u,
      ground arith,
      ground arith,
      subst (λ x. Calls ended f (suc n) s 1 x (f s).1) h last,
      done,
    )
    after_attempt-Retried (err e) h = elim (Bool-cases (is invalid_transition e)) [
      | inl i ↦
          rw (after_attempt, i)
            (
              1,
              err e,
              ground arith,
              ground arith,
              subst (λ x. Calls ended f (suc n) s 1 x (f s).1) h last,
              lost i,
            )
      | inr i ↦ elim (Bool-cases (ended n)) [
        | inl d ↦
            rw (after_attempt, i, d)
              (
                1,
                err e,
                ground arith,
                ground arith,
                subst (λ x. Calls ended f (suc n) s 1 x (f s).1) h last,
                late (ground arith) d,
              )
        | inr d ↦
            rw (after_attempt, i, d)
              (let (k, r, lo, hi, calls, stop) = rest in
                (suc k, r, ground arith, ground arith, again e h i d calls, Stopped-suc stop))
      ]
    ]

  -- A finalisation is called at least once and at most `n + 1` times, in a row. It is called again
  -- exactly where it failed with an error other than ErrInvalidTransition, attempts are left, and
  -- the deadline does not come first. What is returned is the last call's result, joined with the
  -- context's error where the deadline came.
  pub retry_finalization-Retried :
      (n : ℕ) (ended : ℕ → Bool) (f : Act S (Unit {0})) (s : S)
      → Retried n ended f s (retry_finalization n ended f s)
  unfolding retry_finalization
  retry_finalization-Retried zero ended f s = once (f s).0 refl
    where
      once : (r : Result (Unit {0})) → (f s).0 ≡ r → Retried zero ended f s (f s)
      once (ok u) h = (
        1,
        ok u,
        ground arith,
        ground arith,
        subst (λ x. Calls ended f zero s 1 x (f s).1) h last,
        subst (λ x. Stopped 1 ended 1 (ok u) x) (sym h) done,
      )
      once (err e) h = (
        1,
        err e,
        ground arith,
        ground arith,
        subst (λ x. Calls ended f zero s 1 x (f s).1) h last,
        subst (λ x. Stopped 1 ended 1 (err e) x) (sym h) spent,
      )
  retry_finalization-Retried (suc n) ended f s =
      after_attempt-Retried n ended f s (retry_finalization-Retried n ended f (f s).1) (f s).0 refl

module _ {S : Type 0} (json : Codec) (queue : RuntimeQueue S) (backoff : ℕ → ℕ) (round : Round)
    (job : Job) where
  -- The outcome of the execution is not known.
  abbrev pub unknown : Error → Bool
  unknown e = round.execution_ended || round.action_ended || is_uncertain e

  -- The execution failed for sure, or its result does not pass.
  abbrev pub Failed : Error → Type 0
  Failed e =
      ((round.execute job ≡ err e) × (unknown e ≡ false))
      ⊎ ((r : JobResult) × (round.execute job ≡ ok r) × (normalize_result json r ≡ err e))

  -- What is told of a failure: the redacted message of the error, the backoff of the attempts made,
  -- and whether the error is permanent.
  abbrev pub told_of : Error → FailureInput
  told_of e = record {
    message = safe_failure_message e;
    backoff = pos (backoff job.attempts);
    permanent = is_permanent e;
  }

  -- What the queue is told of the job after its claim, which left the state `s`, and the state
  -- that is left.
  pub data Told (s : S) : S → Type 0 where
    nothing : {e : Error} → round.execute job ≡ err e → unknown e ≡ true → Told s s
    success :
        {r n : JobResult}
        → round.execute job ≡ ok r
        → normalize_result json r ≡ ok n
        → (out : Result (Unit {0}) × S)
        → Retried 2 round.deadline_in_pause (queue.succeed job n) s out
        → Told s out.1
    failure :
        {e : Error}
        → Failed e
        → (out : Result (Unit {0}) × S)
        → Retried 2 round.deadline_in_pause (queue.fail job (told_of e)) s out
        → Told s out.1

  reported-state :
      (under : Error → Error) (out : Result (Unit {0}) × S) → (reported under out).1 ≡ out.1
  unfolding reported
  reported-state under (ok u, s) = refl
  reported-state under (err e, s) = refl

  finalize-success :
      (r n : JobResult) (s : S)
      → round.execute job ≡ ok r
      → normalize_result json r ≡ ok n
      → Told s (finalize json queue backoff round.deadline_in_pause job (ok n) s).1
  unfolding finalize
  finalize-success r n s h k =
      subst (Told s) (sym (reported-state _ _)) (
        success h k _
          (retry_finalization-Retried 2 round.deadline_in_pause (queue.succeed job n) s))

  finalize-failure :
      (e : Error) (s : S)
      → Failed e
      → Told s (finalize json queue backoff round.deadline_in_pause job (err e) s).1
  unfolding finalize failure_of
  finalize-failure e s f = subst (Told s) (sym (reported-state _ _)) (
      failure f _
        (retry_finalization-Retried 2 round.deadline_in_pause (queue.fail job (told_of e)) s))

  settle-Told :
      (r : Result JobResult) (s : S)
      → round.execute job ≡ r
      → Told s (settle json queue backoff round job r s).1
  unfolding settle
  settle-Told (err e) s h = elim (Bool-cases (unknown e)) [
    | inl u ↦ rw u (nothing h u)
    | inr u ↦ rw u (finalize-failure e s (inl (h, u)))
  ]
  settle-Told (ok r) s h = elim (Result-cases (normalize_result json r)) [
    | inl (n, k) ↦ rw k (finalize-success r n s h k)
    | inr (e, k) ↦ rw k (finalize-failure e s (inr (r, h, k)))
  ]

  -- A round that claims a job tells the queue one of three things about it. Nothing, where the
  -- execution fails and its outcome is unknown, since a context has ended or the error says so: the
  -- job keeps its lease. Success, in at most three calls, where the execution returns a result that
  -- passes, with the normalised result. Failure, in at most three calls, with the safe message of
  -- the error, the backoff of the attempts and whether the error is permanent, where the execution
  -- fails or its result does not pass.
  pub run_once-Told :
      (s : S)
      → (queue.claim_one s).0 ≡ ok job
      → Told (queue.claim_one s).1 (run_once json queue backoff round s).1
  unfolding run_once run_claimed
  run_once-Told s h =
      let s' = (queue.claim_one s).1 in
      subst (λ r. Told s' (run_claimed json queue backoff round (r, s')).1) (sym h)
        (settle-Told (round.execute job) s' refl)
