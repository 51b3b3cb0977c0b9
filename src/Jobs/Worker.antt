-- ===== src/Jobs/Worker.antt =====
-- The type `Worker` of internal/jobs/worker.go: one round, its finalisation, and the loop.
pub mod Backoff
pub mod Rounds
use motekarindo_panel.Base.{
  ℕ, zero, suc, ◌-◌, ◌*◌, Bool, true, false, ◌||◌, Option, none, some, List, [], ◌∷◌, ltb,
  if◌then◌else◌,
}
use motekarindo_panel.Base.Int.{pos}
use motekarindo_panel.Base.Text.{txt}
use motekarindo_panel.Base.Error.{
  Error, sentinel, plain, driver, wrap, note, permanent, uncertain, join, no_job,
  invalid_transition, is, Result, ok, err,
}
use motekarindo_panel.Base.Act.{Act}
use motekarindo_panel.Json.{Codec}
use motekarindo_panel.Jobs.{Job, FailureInput, JobResult, RuntimeQueue, second, minute}
use motekarindo_panel.Jobs.Finish.{safe_failure_message, normalize_result}

-- errors.As(err, &permanentError{})
unfoldable pub is_permanent : Error → Bool
is_permanent (sentinel s) = false
is_permanent (plain m) = false
is_permanent (driver m) = false
is_permanent (wrap m e) = is_permanent e
is_permanent (note e m) = is_permanent e
is_permanent (permanent e) = true
is_permanent (uncertain e) = is_permanent e
is_permanent (join e f) = is_permanent e || is_permanent f

-- errors.As(err, &uncertainError{})
unfoldable pub is_uncertain : Error → Bool
is_uncertain (sentinel s) = false
is_uncertain (plain m) = false
is_uncertain (driver m) = false
is_uncertain (wrap m e) = is_uncertain e
is_uncertain (note e m) = is_uncertain e
is_uncertain (permanent e) = is_uncertain e
is_uncertain (uncertain e) = true
is_uncertain (join e f) = is_uncertain e || is_uncertain f

abbrev pub max_backoff : ℕ
max_backoff = 5 * minute

-- The loop, with the number of rounds that `current < attempt` allows.
unfoldable pub double_backoff : ℕ → ℕ → ℕ
double_backoff zero backoff = backoff
double_backoff (suc rounds) backoff =
    let rest = double_backoff rounds (backoff * 2) in
    if ltb backoff max_backoff then rest else backoff

unfoldable pub exponential_backoff : ℕ → ℕ
unfolding double_backoff
exponential_backoff attempt =
    let attempt' = if ltb attempt 1 then 1 else attempt in
    let backoff = double_backoff (attempt' - 1) second in
    if ltb max_backoff backoff then max_backoff else backoff

-- What surrounds one round of the worker: the executor, whether the context of the executions or
-- the action's own had ended when it returned, and whether the finalisation's deadline falls into
-- the pause before the attempt after which so many are left.
pub record Round : Type 0 where
  pub execute : Job → Result JobResult
  pub execution_ended : Bool
  pub action_ended : Bool
  pub deadline_in_pause : ℕ → Bool

-- `RunOnce` returns whether a job was claimed, and an error.
abbrev pub Report : Type 0
Report = Bool × Option Error

-- What the loop sees of the claim context: whether it has ended at the head of the round, when
-- the round returns an error, and in the pause after it.
pub record Turn : Type 0 where
  pub ended_at_head : Bool
  pub ended_after : Bool
  pub ended_in_pause : Bool
  pub round : Round

abbrev pub deadline_exceeded : Error
deadline_exceeded = plain (txt "context deadline exceeded")

module _ {S : Type 0} where
  -- What follows an attempt: its result stands, the deadline has come, or there is another attempt.
  unfoldable pub after_attempt :
      Result (Unit {0}) → S → Bool → Act S (Unit {0}) → Result (Unit {0}) × S
  unfolding is
  after_attempt (ok u) s ended again = (ok u, s)
  after_attempt (err e) s ended again = elim (is invalid_transition e) [
    | true ↦ (err e, s)
    | false ↦ elim ended [ true ↦ (err (join e deadline_exceeded), s) | false ↦ again s ]
  ]

  -- The loop of `retryFinalization`; the number is that of the attempts after the first.
  unfoldable pub retry_finalization : ℕ → (ℕ → Bool) → Act S (Unit {0}) → Act S (Unit {0})
  unfolding after_attempt
  retry_finalization zero ended finalize s = finalize s
  retry_finalization (suc n) ended finalize s =
      let (r, s') = finalize s in after_attempt r s' (ended n) (retry_finalization n ended finalize)

  -- An error of the finalisation goes on under a message.
  unfoldable pub reported : (Error → Error) → Result (Unit {0}) × S → Report × S
  reported under (ok u, s) = ((true, none), s)
  reported under (err e, s) = ((true, some (under e)), s)

-- The failure that is recorded of an error.
unfoldable pub failure_of : (ℕ → ℕ) → Job → Error → FailureInput
unfolding safe_failure_message is_permanent
failure_of retry_backoff job e = record {
  message = safe_failure_message e;
  backoff = pos (retry_backoff job.attempts);
  permanent = is_permanent e;
}

module _ {S : Type 0} (json : Codec) (queue : RuntimeQueue S) (retry_backoff : ℕ → ℕ) where
  -- `Succeed` or `Fail` of the claimed job, as the executor and the checks of its result decide.
  unfoldable pub finalize : (ℕ → Bool) → Job → Result JobResult → S → Report × S
  unfolding retry_finalization reported failure_of
  finalize ended job (ok result) s =
      reported (wrap (txt "mark job succeeded"))
        (retry_finalization 2 ended (queue.succeed job result) s)
  finalize ended job (err e) s =
      reported (wrap (txt "mark job failed"))
        (retry_finalization 2 ended (queue.fail job (failure_of retry_backoff job e)) s)

  unfoldable pub settle : Round → Job → Result JobResult → S → Report × S
  unfolding finalize normalize_result is_uncertain
  settle round job (ok result) s =
      finalize round.deadline_in_pause job (normalize_result json result) s
  settle round job (err e) s =
      if round.execution_ended || round.action_ended || is_uncertain e
      then ((true, none), s)
      else finalize round.deadline_in_pause job (err e) s

  unfoldable pub run_claimed : Round → Result Job × S → Report × S
  unfolding settle is
  run_claimed round (err e, s) =
      if is no_job e then ((false, none), s) else ((false, some (wrap (txt "claim job") e)), s)
  run_claimed round (ok job, s) = settle round job (round.execute job) s

  unfoldable pub run_once : Round → S → Report × S
  unfolding run_claimed
  run_once round s = run_claimed round (queue.claim_one s)

  -- `RunWithExecutionContext` over the turns of the loop. It returns the errors that went to
  -- `onError`, and whether the loop has returned.
  unfoldable pub run : List Turn → S → List Error × Bool × S
  unfolding run_once
  run [] s = ([], false, s)
  run (turn ∷ turns) s = elim turn.ended_at_head [
    | true ↦ ([], true, s)
    | false ↦
        let (worked, e) = (run_once turn.round s).0 in
        let s' = (run_once turn.round s).1 in
        let (more, returned, s'') = run turns s' in
        elim e [
          | none ↦
              if worked
              then (more, returned, s'')
              else if turn.ended_in_pause
              then ([], true, s')
              else (more, returned, s'')
          | some x ↦
              if turn.ended_after
              then ([], true, s')
              else if turn.ended_in_pause
              then (x ∷ [], true, s')
              else (x ∷ more, returned, s'')
        ]
  ]
