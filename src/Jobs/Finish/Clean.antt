-- ===== src/Jobs/Finish/Clean.antt =====
-- What `normalizeResult` of internal/jobs/worker.go lets through.
use motekarindo_panel.Base.{
  ◌≤◌, suc, ◌≡◌, ◌⊎◌, inl, inr, refl, ap, subst, true, false, ◌&&◌, not, some, List, [], ◌∷◌,
  length, All, arith, Option-cases,
}
use motekarindo_panel.Base.Text.{Text, is_empty, starts_with, byte_len-pos, trim_space, to_lower}
use motekarindo_panel.Base.Error.{plain, ok, >>=-eq-ok, ok-injective}
use motekarindo_panel.Json.{Value, Codec}
use motekarindo_panel.Schema.{within}
use motekarindo_panel.Logging.{is_sensitive}
use motekarindo_panel.Jobs.{Log, JobResult}
use motekarindo_panel.Jobs.Finish.{
  contains_sensitive_result_key, is_level, normalize_log, normalize_logs, is_bad_object,
  is_unsafe_data, normalize_result,
}
use motekarindo_panel.Jobs.Finish.Redaction.{safe_failure_message-IsSafe}

-- A log entry that the table job_logs takes and that shows no credential.
pub record IsCleanLog (log : Log) : Type 0 where
  pub known_level : is_level log.level ≡ true
  pub short : length log.message ≤ 1024
  pub redacted : is_sensitive (to_lower log.message) ≡ false

-- The data of a result: none, or a JSON object in which no key names a credential.
pub record IsCleanObject (json : Codec) (body : Text) : Type 0 where
  pub is_object : starts_with b'{' body ≡ true
  pub is_valid : json.valid body ≡ true
  pub value : Value
  pub decoded : json.unmarshal body ≡ some value
  pub no_credential : contains_sensitive_result_key value ≡ false

pub record IsClean (json : Codec) (result : JobResult) : Type 0 where
  pub code_fits : within 1 64 result.code ≡ true
  pub body_fits : within 0 65536 result.body ≡ true
  pub body_clean : (result.body ≡ []) ⊎ IsCleanObject json result.body
  pub few_logs : length result.logs ≤ 100
  pub logs_clean : All IsCleanLog result.logs

normalize_log-IsCleanLog : (log out : Log) → normalize_log log ≡ ok out → IsCleanLog out
unfolding normalize_log
normalize_log-IsCleanLog log out h = ground (arith, safe_failure_message-IsSafe (plain log.message))

normalize_logs-clean :
    (logs out : List Log)
    → normalize_logs logs ≡ ok out
    → All IsCleanLog out × (length out ≡ length logs)
unfolding normalize_logs
normalize_logs-clean [] out h =
    subst (λ o. All IsCleanLog o × (length o ≡ 0)) (ok-injective h) (tt, refl)
normalize_logs-clean (log ∷ logs) out h =
    let (log', p, h') = >>=-eq-ok (normalize_log log) _ h in
    let (logs', q, k) = >>=-eq-ok (normalize_logs logs) _ h' in
    let rest = normalize_logs-clean logs logs' q in
    subst (λ o. All IsCleanLog o × (length o ≡ suc (length logs))) (ok-injective k)
      ((normalize_log-IsCleanLog log log' p, rest.0), ap suc rest.1)

module _ (json : Codec) where
  decoded-value :
      (body : Text)
      → is_unsafe_data json body ≡ false
      → (v : Value) × (json.unmarshal body ≡ some v) × (contains_sensitive_result_key v ≡ false)
  unfolding is_unsafe_data
  decoded-value body h = elim (Option-cases (json.unmarshal body)) [
    | inl e ↦ cc (rw (e, is_unsafe_data) at h)
    | inr (v, e) ↦ (v, e, rw (e, is_unsafe_data) at h)
  ]

  body-cases :
      (body : Text)
      → is_bad_object json body ≡ false
      → (not (is_empty body) && is_unsafe_data json body) ≡ false
      → (body ≡ []) ⊎ IsCleanObject json body
  unfolding is_bad_object
  body-cases [] h k = inl refl
  body-cases (c ∷ s) h k =
      let (v, e, p) = decoded-value (c ∷ s) k in
      inr (record {
        is_object = ground arith;
        is_valid = ground arith;
        value = v;
        decoded = e;
        no_credential = p;
      })

  -- A result that `normalizeResult` returns has a code of 1 to 64 bytes, no data or an object of
  -- at most 64 KiB without a credential in a key, and at most 100 logs, each with a known level and
  -- a safe message.
  pub normalize_result-IsClean :
      (result out : JobResult) → normalize_result json result ≡ ok out → IsClean json out
  unfolding normalize_result
  normalize_result-IsClean result out h = record {
    code_fits = ground (arith, byte_len-pos (trim_space result.code));
    body_fits = ground arith;
    body_clean = ground (arith, body-cases (trim_space result.body));
    few_logs = ground (arith, normalize_logs-clean result.logs out.logs);
    logs_clean = ground (arith, normalize_logs-clean result.logs out.logs);
  }
