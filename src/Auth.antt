-- ===== src/Auth.antt =====
-- internal/auth: passwords, sessions and the first administrator. What the package calls outside the
-- repository is a record of functions.
pub mod Password
pub mod Session
pub mod Bootstrap
use motekarindo_panel.Base.{ℕ, Option, List}
use motekarindo_panel.Base.Text.{Text}

-- strings.ToLower on all of Unicode; the address that mail.ParseAddress finds, if any; the hash of a
-- session's token, SHA-256 in hexadecimal; argon2.IDKey on a password, a salt, the iterations, the
-- memory in KiB, the parallelism and the key's length; and base64 without padding.
pub record Toolkit : Type 0 where
  pub lower : Text → Text
  pub parse_address : Text → Option Text
  pub hash_session_token : Text → Text
  pub argon2_key : Text → List ℕ → ℕ → ℕ → ℕ → ℕ → List ℕ
  pub encode : List ℕ → Text
  pub decode : Text → Option (List ℕ)
