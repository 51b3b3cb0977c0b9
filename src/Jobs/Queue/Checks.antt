-- ===== src/Jobs/Queue/Checks.antt =====
-- What `Queue.Enqueue` of internal/jobs/jobs.go stores, against the constraints of the table jobs.
use motekarindo_panel.Base.{
  ℕ, ◌==◌, [], Bool-cases, inl, inr, ◌≤◌, ◌≡◌, refl, true, false, ◌∷◌, arith,
}
use motekarindo_panel.Base.Int.{ℤ}
use motekarindo_panel.Base.Text.{Text, byte_len, byte_len-pos}
use motekarindo_panel.Base.Error.{Result, ok, err}
use motekarindo_panel.Base.Sql.{Conn}
use motekarindo_panel.Json.{Codec}
use motekarindo_panel.Schema.{Time, Tables, job_checks, is_object_text, within}
use motekarindo_panel.Jobs.{Job, EnqueueInput}
use motekarindo_panel.Jobs.Ident.{valid_job_id}
use motekarindo_panel.Jobs.Queue.{
  Queue, or_default, trim_input, has_bad_text, is_bad_payload, at_least_once, build_job, new_job,
}
use motekarindo_panel.Jobs.SqlStore.Rows.{row_of}
use motekarindo_panel.Jobs.SqlStore.{sql_store}
use motekarindo_panel.Jobs.SqlStore.Claim.{Locks}

byte_len-valid_job_id : (id : Text) → valid_job_id id ≡ true → byte_len id ≡ 36
unfolding valid_job_id
byte_len-valid_job_id id h = ground arith

-- The checks of `Enqueue`, on a trimmed input, whatever they were made of.
module _ (i : EnqueueInput) (clean : has_bad_text i ≡ false) where
  type_fits : within 1 128 i.type ≡ true
  unfolding has_bad_text
  type_fits = ground (arith, byte_len-pos i.type)

  resource_key_fits : within 0 512 i.resource_key ≡ true
  unfolding has_bad_text
  resource_key_fits = ground arith

  idempotency_key_fits :
      (id : Text) → byte_len id ≡ 36 → within 1 128 (or_default i.idempotency_key id) ≡ true
  unfolding has_bad_text
  idempotency_key_fits id h = ground (arith, byte_len-pos i.idempotency_key)

payload_fits : (json : Codec) (s : Text) → is_bad_payload json s ≡ false → within 0 65536 s ≡ true
unfolding is_bad_payload
payload_fits json s h = ground arith

at_least_once-pos : (n : ℤ) → 1 ≤ at_least_once n
unfolding at_least_once
at_least_once-pos n = ground arith

-- A text that starts with a brace is that of an object, if it is a document.
payload-is_object_text :
    (json : Codec) (s : Text) → is_bad_payload json s ≡ false → is_object_text s ≡ true
unfolding is_bad_payload is_object_text
payload-is_object_text json [] h = ground (arith, h)
payload-is_object_text json (c ∷ s) h = elim (Bool-cases (c == b'{')) [
  | inl e ↦ ground (arith, e)
  | inr e ↦ absurd (ground (arith, h, e))
]

build_job-checks :
    (json : Codec) (now : Time) (id : Text) (i : EnqueueInput) (n : ℕ)
    → byte_len id ≡ 36
    → has_bad_text i ≡ false
    → is_bad_payload json i.payload ≡ false
    → 1 ≤ n
    → n ≤ 25
    → job_checks (row_of (build_job now id i n)) ≡ true
unfolding job_checks row_of build_job
build_job-checks json now id i n h p q lo hi =
    rw
      (
        type_fits i p,
        resource_key_fits i p,
        idempotency_key_fits i p id h,
        payload_fits json i.payload q,
        payload-is_object_text json i.payload q,
      )
      (ground arith)

-- A job that `Enqueue` makes passes every CHECK of the table, if the generator's id is one that
-- `validJobID` accepts.
pub new_job-checks :
    (json : Codec) (now : Time) (new_id : Result Text) (input : EnqueueInput) (job : Job)
    → ((id : Text) → new_id ≡ ok id → valid_job_id id ≡ true)
    → new_job json now new_id input ≡ ok job
    → job_checks (row_of job) ≡ true
unfolding new_job
new_job-checks json now (err e) input job valid h = ground arith
new_job-checks json now (ok id) input job valid h =
    let i = trim_input input in
    let n = at_least_once i.max_attempts in
    ground (
      arith,
      at_least_once-pos i.max_attempts,
      build_job-checks json now id i n (byte_len-valid_job_id id (valid id refl)),
    )

-- The queue over the SQL store.
abbrev pub sql_queue : Locks → Text → Time → Result Text → ℕ → Queue (Conn Tables)
sql_queue locks token now new_id lease = record {
  store = sql_store locks token;
  now = now;
  new_id = new_id;
  lease_duration = lease;
}
