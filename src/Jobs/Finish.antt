-- ===== src/Jobs/Finish.antt =====
-- What is checked and redacted before a job is finished: `normalizeResult`,
-- `containsSensitiveResultKey` and `safeFailureMessage` of internal/jobs/worker.go.
pub mod Redaction
pub mod Clean
use motekarindo_panel.Base.{
  ℕ, Bool, true, false, ◌&&◌, ◌||◌, not, none, some, List, [], ◌∷◌, length, take, ltb, ◌==◌,
  if◌then◌else◌,
}
use motekarindo_panel.Base.Text.{
  Text, txt, same, is_empty, starts_with, byte_len, trim_space, to_lower, contains,
}
use motekarindo_panel.Base.Error.{Error, plain, permanent, message, Result, ok, refuse, ◌>>=◌, ◌>>◌}
use motekarindo_panel.Json.{
  Value, null, boolean, number, string, array, object, Items, nil, cons, Fields, end, field, Codec,
}
use motekarindo_panel.Logging.{redact}
use motekarindo_panel.Jobs.{Log, JobResult, max_job_payload_bytes}

abbrev pub max_failure_runes : ℕ
max_failure_runes = 1024

abbrev pub max_result_code_bytes : ℕ
max_result_code_bytes = 64

abbrev pub max_result_logs : ℕ
max_result_logs = 100

-- On a text that is at most as long as the limit, `take` returns it whole.
unfoldable pub safe_failure_message : Error → Text
unfolding message redact trim_space
safe_failure_message e = take max_failure_runes (trim_space (redact (message e)))

-- strings.NewReplacer("_", "", "-", "", ".", "")
unfoldable pub strip_separators : Text → Text
strip_separators [] = []
strip_separators (c ∷ s) =
    let rest = strip_separators s in
    if (c == b'_') || (c == b'-') || (c == b'.') then rest else c ∷ rest

unfoldable pub is_sensitive_key : Text → Bool
unfolding strip_separators to_lower contains
is_sensitive_key key =
    let normalized = strip_separators (to_lower key) in
    contains normalized (txt "password")
    || contains normalized (txt "secret")
    || contains normalized (txt "token")
    || contains normalized (txt "credential")
    || contains normalized (txt "privatekey")
    || contains normalized (txt "apikey")

unfoldable mutual
  unfolding is_sensitive_key

  pub contains_sensitive_result_key : Value → Bool
  contains_sensitive_result_key null = false
  contains_sensitive_result_key (boolean b) = false
  contains_sensitive_result_key (number n) = false
  contains_sensitive_result_key (string s) = false
  contains_sensitive_result_key (array xs) = any_item_sensitive xs
  contains_sensitive_result_key (object fs) = any_field_sensitive fs

  pub any_item_sensitive : Items → Bool
  any_item_sensitive nil = false
  any_item_sensitive (cons x xs) = contains_sensitive_result_key x || any_item_sensitive xs

  pub any_field_sensitive : Fields → Bool
  any_field_sensitive end = false
  any_field_sensitive (field key nested fs) =
      is_sensitive_key key || contains_sensitive_result_key nested || any_field_sensitive fs

-- The cases of the switch on a log's level.
unfoldable pub is_level : Text → Bool
unfolding same
is_level level =
    same level (txt "debug")
    || same level (txt "info")
    || same level (txt "warn")
    || same level (txt "error")

unfoldable pub normalize_log : Log → Result Log
unfolding is_level to_lower trim_space safe_failure_message
normalize_log log = do
  let level = to_lower (trim_space log.level)
  refuse (not (is_level level)) (permanent (plain (txt "agent returned an invalid log level")))
  ok (record { level = level; message = safe_failure_message (plain log.message) })

unfoldable pub normalize_logs : List Log → Result (List Log)
unfolding normalize_log
normalize_logs [] = ok []
normalize_logs (log ∷ logs) = do
  log' ← normalize_log log
  logs' ← normalize_logs logs
  ok (log' ∷ logs')

module _ (json : Codec) where
  -- len(data) > 0 && (data[0] != '{' || !json.Valid(data))
  unfoldable pub is_bad_object : Text → Bool
  is_bad_object data' =
      not (is_empty data') && (not (starts_with b'{' data') || not (json.valid data'))

  -- json.Unmarshal(data, &v) != nil || containsSensitiveResultKey(v)
  unfoldable pub is_unsafe_data : Text → Bool
  unfolding contains_sensitive_result_key
  is_unsafe_data data' = elim (json.unmarshal data') [
    | none ↦ true
    | some value ↦ contains_sensitive_result_key value
  ]

  unfoldable pub normalize_result : JobResult → Result JobResult
  unfolding trim_space byte_len is_bad_object is_unsafe_data normalize_logs
  normalize_result result = do
    let code = trim_space result.code
    let body = trim_space result.body
    refuse (is_empty code || ltb max_result_code_bytes (byte_len code))
        (permanent (plain (txt "agent returned an invalid result code")))
    refuse (ltb max_job_payload_bytes (byte_len body) || is_bad_object body)
        (permanent (plain (txt "agent returned invalid result data")))
    refuse (not (is_empty body) && is_unsafe_data body)
        (permanent (plain (txt "agent result data contains a sensitive field")))
    refuse (ltb max_result_logs (length result.logs))
        (permanent (plain (txt "agent returned too many result logs")))
    logs ← normalize_logs result.logs
    ok (record { code = code; body = body; logs = logs })
