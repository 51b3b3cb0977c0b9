-- ===== src/Jobs/Finish/Redaction.antt =====
-- What reaches a job's log of an error: `safeFailureMessage` of internal/jobs/worker.go over
-- `Redact` of internal/logging/logger.go.
use motekarindo_panel.Base.{
  ◌≤◌, ◌≡◌, refl, false, inl, inr, length, length-take-le, arith, Bool-cases,
}
use motekarindo_panel.Base.Text.{Text, txt, trim_space, to_lower, contains}
use motekarindo_panel.Base.Text.Infix.{
  Infix, Infix-trans, take-Infix, trim_space-Infix, contains-Infix,
}
use motekarindo_panel.Base.Error.{Error, message}
use motekarindo_panel.Logging.{is_sensitive, redact}
use motekarindo_panel.Jobs.Finish.{safe_failure_message, max_failure_runes}

lacks-Infix :
    (word : Text) {t s : Text}
    → Infix t s
    → contains (to_lower s) word ≡ false
    → contains (to_lower t) word ≡ false
lacks-Infix word {t} p h = elim (Bool-cases (contains (to_lower t) word)) [
  | inl e ↦ cc (contains-Infix word p e)
  | inr e ↦ e
]

is_sensitive-Infix :
    (t s : Text) → Infix t s → is_sensitive (to_lower s) ≡ false → is_sensitive (to_lower t) ≡ false
unfolding is_sensitive
is_sensitive-Infix t s p h = ground (
  arith,
  lacks-Infix (txt "password") p,
  lacks-Infix (txt "secret") p,
  lacks-Infix (txt "token") p,
  lacks-Infix (txt "postgres://") p,
  lacks-Infix (txt "postgresql://") p,
)

is_sensitive-redact : (m : Text) → is_sensitive (to_lower (redact m)) ≡ false
unfolding redact
is_sensitive-redact m = elim (Bool-cases (is_sensitive (to_lower m))) [
  | inl e ↦ rw e refl
  | inr e ↦ rw e e
]

-- The message of any error, made safe, has at most 1024 code points and no word that `Redact`
-- takes for a credential.
pub safe_failure_message-IsSafe :
    (e : Error)
    → (is_sensitive (to_lower (safe_failure_message e)) ≡ false)
      × (length (safe_failure_message e) ≤ max_failure_runes)
unfolding safe_failure_message
safe_failure_message-IsSafe e = (
  is_sensitive-Infix _ (redact (message e))
      (Infix-trans (take-Infix 1024 (trim_space (redact (message e)))) (trim_space-Infix _))
      (is_sensitive-redact (message e)),
  length-take-le 1024 (trim_space (redact (message e))),
)
