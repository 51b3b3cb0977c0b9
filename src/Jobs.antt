-- ===== src/Jobs.antt =====
-- internal/jobs: jobs.go's data. The children are its queue, its store and its worker.
pub mod Ident
pub mod Finish
pub mod Queue
pub mod SqlStore
pub mod Worker
use motekarindo_panel.Base.{ℕ, ◌*◌, Bool, List}
use motekarindo_panel.Base.Int.{ℤ}
use motekarindo_panel.Base.Text.{Text}
use motekarindo_panel.Base.Error.{Result}
use motekarindo_panel.Base.Act.{Act}
use motekarindo_panel.Schema.{Time, Status}

abbrev pub max_job_payload_bytes : ℕ
max_job_payload_bytes = 65536

abbrev pub max_job_type_bytes : ℕ
max_job_type_bytes = 128

abbrev pub max_resource_key_bytes : ℕ
max_resource_key_bytes = 512

abbrev pub max_idempotency_bytes : ℕ
max_idempotency_bytes = 128

abbrev pub max_job_attempts : ℕ
max_job_attempts = 25

-- Durations in nanoseconds.
abbrev pub second : ℕ
second = 1000000000

abbrev pub minute : ℕ
minute = 60 * second

-- A Go string or time that may be absent is empty or 0.
pub record Job : Type 0 where
  pub id : Text
  pub type : Text
  pub status : Status
  pub resource_key : Text
  pub idempotency_key : Text
  pub payload : Text
  pub attempts : ℕ
  pub max_attempts : ℕ
  pub retryable : Bool
  pub claim_token : Text
  pub run_after : Time
  pub lease_expires_at : Time
  pub started_at : Time
  pub finished_at : Time
  pub result_code : Text
  pub result : Text
  pub created_at : Time
  pub updated_at : Time

pub record EnqueueInput : Type 0 where
  pub type : Text
  pub resource_key : Text
  pub idempotency_key : Text
  pub payload : Text
  pub max_attempts : ℤ
  pub run_after : Time

pub record FailureInput : Type 0 where
  pub message : Text
  pub backoff : ℤ
  pub permanent : Bool

pub record Log : Type 0 where
  pub level : Text
  pub message : Text

pub record JobResult : Type 0 where
  pub code : Text
  pub body : Text
  pub logs : List Log

pub record Mutation : Type 0 where
  pub actor_user_id : Text
  pub ip_address : Text
  pub user_agent : Text

-- The interface `Store`, over the state that its implementation keeps. `mark_failed` takes `final`,
-- `retryable`, `run_after`, `updated_at` and `finished_at`, in this order.
pub record Store (S : Type 0) : Type 0 where
  pub enqueue : Job → Act S (Unit {0})
  pub claim_one : Time → Time → Act S Job
  pub mark_succeeded : Job → Time → JobResult → Act S (Unit {0})
  pub mark_failed : Job → Bool → Bool → Time → Time → Time → Text → Act S (Unit {0})

-- The interface `RuntimeQueue` of the worker.
pub record RuntimeQueue (S : Type 0) : Type 0 where
  pub claim_one : Act S Job
  pub succeed : Job → JobResult → Act S (Unit {0})
  pub fail : Job → FailureInput → Act S (Unit {0})
