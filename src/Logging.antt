-- ===== src/Logging.antt =====
-- internal/logging/logger.go: the redaction of log values.
use motekarindo_panel.Base.{Bool, ◌||◌, if◌then◌else◌}
use motekarindo_panel.Base.Text.{Text, txt, to_lower, contains}

-- Whether a text in lower case mentions a credential.
unfoldable pub is_sensitive : Text → Bool
unfolding contains
is_sensitive lower =
    contains lower (txt "password")
    || contains lower (txt "secret")
    || contains lower (txt "token")
    || contains lower (txt "postgres://")
    || contains lower (txt "postgresql://")

unfoldable pub redact : Text → Text
unfolding is_sensitive to_lower
redact value = if is_sensitive (to_lower value) then txt "[REDACTED]" else value
