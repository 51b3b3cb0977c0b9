-- ===== src/Agent/Server.antt =====
-- internal/agent/server.go: the agent's handler of an action's request, `handleAction`.
pub mod Handled
use motekarindo_panel.Base.{
  ℕ, ◌*◌, ◌+◌, ◌⊎◌, inl, inr, Bool, true, false, ◌||◌, not, Option, none, some, List, [], ◌∷◌, ltb,
  if◌then◌else◌,
}
use motekarindo_panel.Base.Text.{Text, txt, same, byte_len, trim_space}
use motekarindo_panel.Base.Error.{Error, unknown_action, invalid_payload, Result, ok, err, is}
use motekarindo_panel.Agent.Tokens.{reject_duplicate_json_keys}
use motekarindo_panel.Agent.Payload.{ActionResult, Json, is_ok, is_document}
use motekarindo_panel.Agent.Actions.{Handlers, execute}
use motekarindo_panel.Agent.Transport.{max_action_payload_bytes, max_idempotency_key_bytes}

abbrev pub max_action_request_bytes : ℕ
max_action_request_bytes = max_action_payload_bytes + 1024

-- What the connection gives of a body: all of it, or an error before the limit.
pub data Body : Type 0 where
  complete : Text → Body
  interrupted : Body

-- The path's name, the two headers, with what mime.ParseMediaType makes of the second, and the body.
pub record Request : Type 0 where
  pub name : Text
  pub idempotency_key : Text
  pub media_type : Option Text
  pub body : Body

-- An error's status, code and message, or a document with the status 200.
pub data Response : Type 0 where
  refusal : ℕ → Text → Text → Response
  document : Text → Response

abbrev pub is_json : Option Text → Bool
is_json none = false
is_json (some t) = same t (txt "application/json")

abbrev pub invalid_json : Response
invalid_json =
    refusal 400 (txt "INVALID_JSON")
      (txt "Request body must contain one JSON object with a non-null payload object.")

abbrev pub large_payload : Response
large_payload =
    refusal 413 (txt "PAYLOAD_TOO_LARGE") (txt "Action payload exceeds the 64 KiB limit.")

abbrev pub large_body : Response
large_body = refusal 413 (txt "PAYLOAD_TOO_LARGE") (txt "Request body exceeds the 64 KiB limit.")

abbrev pub long_key : Response
long_key =
    refusal 400 (txt "INVALID_IDEMPOTENCY_KEY") (txt "Idempotency-Key exceeds the 128 byte limit.")

abbrev pub other_media_type : Response
other_media_type =
    refusal 415 (txt "UNSUPPORTED_MEDIA_TYPE") (txt "Content-Type must be application/json.")

-- The payload of a map that has it alone.
unfoldable pub only_payload : Option (List (Text × Text)) → Option Text
unfolding same trim_space
only_payload (some ((k, v) ∷ [])) = if same k (txt "payload") then some (trim_space v) else none
only_payload _ = none

-- The test of the payload itself.
unfoldable pub sized_payload : Option Text → Text ⊎ Response
unfolding byte_len
sized_payload none = inr invalid_json
sized_payload (some payload) =
    if not (is_document payload)
    then inr invalid_json
    else if ltb max_action_payload_bytes (byte_len payload)
    then inr large_payload
    else inl payload

abbrev pub is_bad_body : Json → Text → Bool
is_bad_body json raw =
    not (is_document raw) || not (is_ok (reject_duplicate_json_keys (json.tokens raw)))

unfoldable pub body_payload : Json → Body → Text ⊎ Response
unfolding sized_payload only_payload reject_duplicate_json_keys
body_payload json interrupted = inr invalid_json
body_payload json (complete body) =
    if ltb max_action_request_bytes (byte_len body)
    then inr large_body
    else if is_bad_body json (trim_space body)
    then inr invalid_json
    else sized_payload (only_payload (json.reader.members (trim_space body)))

unfoldable pub request_payload : Json → Request → Text ⊎ Response
unfolding body_payload
request_payload json request =
    if ltb max_idempotency_key_bytes (byte_len (trim_space request.idempotency_key))
    then inr long_key
    else if not (is_json request.media_type)
    then inr other_media_type
    else body_payload json request.body

-- What is written for the outcome of the action.
unfoldable pub answer : Result ActionResult → Response
unfolding is
answer (ok result) = document result.encoded_json
answer (err e) =
    if is unknown_action e
    then refusal 404 (txt "UNKNOWN_ACTION") (txt "Action is not allowlisted.")
    else if is invalid_payload e
    then refusal 400 (txt "INVALID_ACTION_PAYLOAD")
        (txt "Payload does not match the action schema.")
    else refusal 500 (txt "ACTION_ERROR") (txt "Action execution failed.")

abbrev pub written : {S : Type 0} → Result ActionResult × S → Response × S
written (r, s) = (answer r, s)

-- The end of the request: the action is run on a payload, and else the refusal is written.
abbrev pub run_checked : {S : Type 0} → Handlers S → Text → S → Text ⊎ Response → Response × S
run_checked handlers name s (inl payload) = written (execute handlers name payload s)
run_checked handlers name s (inr response) = (response, s)

-- `handlers` is the registry as it is for the key that the context has.
unfoldable pub handle_action :
    {S : Type 0} → Json → (Text → Handlers S) → Request → S → Response × S
unfolding request_payload answer execute
handle_action json handlers request s =
    run_checked (handlers (trim_space request.idempotency_key)) request.name s
      (request_payload json request)
