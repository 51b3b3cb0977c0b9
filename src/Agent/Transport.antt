-- ===== src/Agent/Transport.antt =====
-- The client of the agent, `UnixClient.ExecuteJob` of internal/agent/transport.go, and the executor of
-- cmd/motekar-panel/main.go that gives it the jobs of the worker.
pub mod Outcome
pub mod Delivered
use motekarindo_panel.Base.{
  ℕ, ◌*◌, ◌+◌, ◌⊎◌, inl, inr, Bool, true, false, ◌&&◌, ◌||◌, not, Option, none, some, List, [], ◌∷◌,
  ◌++◌, map, ltb, leb, ◌==◌, if◌then◌else◌,
}
use motekarindo_panel.Base.Text.{Text, txt, same, is_empty, starts_with, byte_len, trim_space}
use motekarindo_panel.Base.Text.Decimal.{decimal}
use motekarindo_panel.Base.Error.{Error, plain, wrap, permanent, uncertain, Result, ok, err}
use motekarindo_panel.Json.{Fields}
use motekarindo_panel.Jobs.{Job, Log, JobResult}
use motekarindo_panel.Agent.Payload.{ActionLog, ActionResult}

abbrev pub max_agent_response_bytes : ℕ
max_agent_response_bytes = 1024 * 1024

abbrev pub max_action_payload_bytes : ℕ
max_action_payload_bytes = 64 * 1024

abbrev pub max_idempotency_key_bytes : ℕ
max_idempotency_key_bytes = 128

-- UncertainActionError, ProtocolError, RemoteActionError and any other error.
pub data ClientError : Type 0 where
  uncertain_action : Error → ClientError
  protocol : Text → ClientError
  remote : ℕ → Text → ClientError
  other : Error → ClientError

-- How the exchange of one request ended: it was not made; `Do` failed, before or after the request was
-- written; the body was not read to its end or to the limit; or there is a status and the body, read up
-- to one byte above the limit.
pub data Exchange : Type 0 where
  unmade : Error → Exchange
  broken_off : Bool → Error → Exchange
  unread : Error → Exchange
  answered : ℕ → Text → Exchange

-- encoding/json on the documents of this protocol; `none` is an error. `code_of` is the code of the
-- error's envelope.
pub record Wire : Type 0 where
  pub valid : Text → Bool
  pub code_of : Text → Option Text
  pub result_of : Text → Option ActionResult
  pub marshal_fields : Fields → Option Text

abbrev pub ClientResult : Type 0
ClientResult = ActionResult ⊎ ClientError

unfoldable pub is_bad_action_payload : Wire → Text → Bool
unfolding byte_len
is_bad_action_payload wire payload =
    is_empty payload
    || ltb max_action_payload_bytes (byte_len payload)
    || not (starts_with b'{' payload)
    || not (wire.valid payload)

abbrev pub remote_code : Option Text → Text
remote_code none = txt "HTTP_ERROR"
remote_code (some []) = txt "HTTP_ERROR"
remote_code (some (c ∷ code)) = c ∷ code

unfoldable pub read_result : Text → Option ActionResult → ClientResult
unfolding same
read_result name none = inr (protocol (txt "agent returned malformed action result"))
read_result name (some result) =
    if not (same result.action name) || not (same result.status (txt "ok"))
    then inr (protocol (txt "agent returned an invalid action result"))
    else inl result

-- What follows `Do`.
unfoldable pub after_exchange : Wire → Text → Exchange → ClientResult
unfolding read_result byte_len
after_exchange wire name (unmade e) = inr (other e)
after_exchange wire name (broken_off wrote e) =
    if wrote then inr (uncertain_action e) else inr (other (wrap (txt "request agent action") e))
after_exchange wire name (unread e) = inr (uncertain_action e)
after_exchange wire name (answered status encoded) =
    if ltb max_agent_response_bytes (byte_len encoded)
    then inr (protocol (txt "agent action response exceeds size limit"))
    else if not (status == 200)
    then inr (remote status (remote_code (wire.code_of encoded)))
    else read_result name (wire.result_of encoded)

-- `exchange` is what happens to the request for an action with a body and a key.
unfoldable pub execute_job :
    Wire → (Text → Text → Text → Exchange) → Text → Text → Text → ClientResult
unfolding is_bad_action_payload after_exchange trim_space
execute_job wire exchange raw_name raw_payload raw_key =
    let name = trim_space raw_name in
    let payload = trim_space raw_payload in
    let key = trim_space raw_key in
    if is_empty name
    then inr (protocol (txt "agent action name is required"))
    else if is_bad_action_payload wire payload
    then inr (protocol (txt "invalid agent action payload"))
    else if ltb max_idempotency_key_bytes (byte_len key)
    then inr (protocol (txt "invalid agent action idempotency key"))
    else after_exchange wire name (exchange name (txt "{\"payload\":" ++ (payload ++ txt "}")) key)

-- The errors of the client as Go errors.
unfoldable pub error_of : ClientError → Error
unfolding decimal
error_of (uncertain_action e) = plain (txt "agent action outcome is uncertain")
error_of (protocol m) = plain m
error_of (remote status code) =
    plain
      (txt "agent action failed with " ++ (code ++ (txt " (HTTP " ++ (decimal status ++ txt ")"))))
error_of (other e) = e

abbrev pub is_lasting : ℕ → Bool
is_lasting status = leb 400 status && ltb status 500 && not (status == 408) && not (status == 429)

-- The executor's treatment of an error.
unfoldable pub classified : ClientError → Error
unfolding error_of
classified (uncertain_action e) = uncertain (error_of (uncertain_action e))
classified (protocol m) = permanent (error_of (protocol m))
classified (remote status code) =
    if is_lasting status
    then permanent (error_of (remote status code))
    else error_of (remote status code)
classified (other e) = error_of (other e)

abbrev pub job_log : ActionLog → Log
job_log entry = record { level = entry.level; message = entry.message }

abbrev pub with_data : ActionResult → Option Text → Result JobResult
with_data result none = err (permanent (plain (txt "agent returned invalid result data")))
with_data result (some data_text) =
    ok (record { code = result.status; body = data_text; logs = map job_log result.logs })

abbrev pub data_of : Wire → Option Fields → Option Text
data_of wire none = some (txt "{}")
data_of wire (some fields) = wire.marshal_fields fields

unfoldable pub job_result : Wire → ClientResult → Result JobResult
unfolding classified
job_result wire (inr e) = err (classified e)
job_result wire (inl result) = with_data result (data_of wire result.body)

-- The executor that the panel's worker has.
unfoldable pub execute_on_agent : Wire → (Text → Text → Text → Exchange) → Job → Result JobResult
unfolding execute_job job_result
execute_on_agent wire exchange job =
    job_result wire (execute_job wire exchange job.type job.payload job.idempotency_key)
