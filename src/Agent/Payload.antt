-- ===== src/Agent/Payload.antt =====
-- The payloads and results of internal/agent/actions.go: `decodeActionPayload` and
-- `encodeActionResult`.
use motekarindo_panel.Base.{
  ℕ, ◌*◌, Bool, true, false, ◌||◌, not, Option, none, some, List, any, length, ltb, if◌then◌else◌,
}
use motekarindo_panel.Base.Text.{Text, txt, is_empty, starts_with, byte_len, trim_space}
use motekarindo_panel.Base.Error.{
  Error, sentinel, note, invalid_payload, invalid_result, Result, ok, err, refuse, ◌>>◌,
}
use motekarindo_panel.Json.{Fields}
use motekarindo_panel.Agent.Tokens.{Token, reject_duplicate_json_keys}
use motekarindo_panel.Agent.PayloadType.{PayloadType, Reader, field_names_match}

abbrev pub max_action_result_bytes : ℕ
max_action_result_bytes = 64 * 1024

pub record ActionLog : Type 0 where
  pub level : Text
  pub message : Text

-- `body` is the field Data, `none` for the nil map.
pub record ActionResult : Type 0 where
  pub action : Text
  pub status : Text
  pub body : Option Fields
  pub logs : List ActionLog
  pub encoded_json : Text

-- encoding/json as the actions use it: the tokens of a text, its parts, and `Marshal`, whose error is
-- `none`.
pub record Json : Type 0 where
  pub tokens : Text → List Token
  pub reader : Reader
  pub marshal : ActionResult → Option Text

-- How one payload type is read: its description, and `Decode` with unknown fields refused, where a
-- second value after the first is an error too.
pub record Schema (T : Type 0) : Type 0 where
  pub described : PayloadType
  pub decode : Text → Option T

abbrev pub is_ok : Result (Unit {0}) → Bool
is_ok (ok u) = true
is_ok (err e) = false

abbrev pub is_document : Text → Bool
is_document raw = starts_with b'{' raw

abbrev pub bad_payload : Text → Error
bad_payload m = note (sentinel invalid_payload) m

abbrev pub decoded : {T : Type 0} → Option T → Result T
decoded none = err (bad_payload (txt "payload must match the action schema"))
decoded (some t) = ok t

abbrev pub is_long_log : ActionLog → Bool
is_long_log entry = ltb 16 (byte_len entry.level) || ltb 1024 (byte_len entry.message)

-- The document, if it was made and is not too long.
abbrev pub fitting : Option Text → Result Text
fitting none = err (sentinel invalid_result)
fitting (some encoded) =
    if ltb max_action_result_bytes (byte_len encoded)
    then err (sentinel invalid_result)
    else ok encoded

module _ (json : Json) where
  unfoldable pub decode_action_payload : {T : Type 0} → Schema T → Text → Result T
  unfolding reject_duplicate_json_keys field_names_match
  decode_action_payload schema untrimmed = do
    let raw = trim_space untrimmed
    refuse (not (is_document raw)) (bad_payload (txt "payload must be a non-null JSON object"))
    refuse (not (is_ok (reject_duplicate_json_keys (json.tokens raw))))
        (bad_payload (txt "payload contains ambiguous JSON"))
    refuse (not (field_names_match json.reader schema.described raw))
        (bad_payload (txt "payload must match the action schema"))
    decoded (schema.decode raw)

  unfoldable pub encode_action_result : ActionResult → Result Text
  unfolding byte_len
  encode_action_result result = do
    refuse
        (is_empty (trim_space result.status)
          || ltb 32 (byte_len result.status)
          || ltb 100 (length result.logs))
        (sentinel invalid_result)
    refuse (any is_long_log result.logs) (sentinel invalid_result)
    fitting (json.marshal result)
