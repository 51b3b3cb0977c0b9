-- ===== src/Base/Error.antt =====
-- Go errors: `errors.New`, `fmt.Errorf` with `%w`, `errors.Join`, `errors.Is` and `errors.As`.
use mathlib.Core.Path.{◌≡◌, refl}
use mathlib.Core.Logic.{◌⊎◌, inl, inr}
use mathlib.Core.Bool.{Bool, true, false, ◌||◌}
use Prim.Native.Nat.{ℕ}
use motekarindo_panel.Base.Tests.{◌==◌}
use mathlib.Core.List.{◌++◌}
use motekarindo_panel.Base.Text.{Text, txt}

-- The error variables that the packages export.
pub data Sentinel : Type 0 where
  invalid_job no_job job_not_found invalid_transition : Sentinel
  invalid_event invalid_limit : Sentinel
  setting_not_found unsupported_web_server web_server_already_selected : Sentinel
  web_server_not_selected : Sentinel
  unknown_role forbidden : Sentinel
  invalid_credentials invalid_session session_user_not_found : Sentinel
  admin_already_exists invalid_email invalid_display_name weak_password : Sentinel
  invalid_password_hash owner_role_not_seeded : Sentinel
  unknown_action invalid_action invalid_payload invalid_result : Sentinel

-- `plain` is an error made where it is returned, `driver` one of the database driver or of the
-- network, `wrap` is `fmt.Errorf("m: %w", e)`, `note` is `fmt.Errorf("%w: m", e)`, `permanent` and
-- `uncertain` are the wrappers of package jobs.
pub data Error : Type 0 where
  sentinel : Sentinel → Error
  plain : Text → Error
  driver : Text → Error
  wrap : Text → Error → Error
  note : Error → Text → Error
  permanent : Error → Error
  uncertain : Error → Error
  join : Error → Error → Error

pub data Result {ℓ} (A : Type ℓ) : Type ℓ where
  ok : A → Result A
  err : Error → Result A

pub Result-cases :
    {A : Type 0} (r : Result A) → ((a : A) × (r ≡ ok a)) ⊎ ((e : Error) × (r ≡ err e))
Result-cases (ok a) = inl (a, refl)
Result-cases (err e) = inr (e, refl)

pub ok-injective {ℓ} : {A : Type ℓ} {a b : A} → ok a ≡ ok b → a ≡ b
ok-injective h = cc

module _ {ℓ κ} {T : Type ℓ} {U : Type κ} where
  infixl 5 ◌>>=◌
  -- if err != nil { return err }
  abbrev pub ◌>>=◌ : Result T → (T → Result U) → Result U
  err e >>= next = err e
  ok t >>= next = next t

  -- What a chain that returns a value shows of its first step.
  pub >>=-eq-ok :
      (first : Result T) (next : T → Result U) {u : U}
      → (first >>= next) ≡ ok u
      → (t : T) × (first ≡ ok t) × (next t ≡ ok u)
  >>=-eq-ok (err e) next h = cc
  >>=-eq-ok (ok t) next h = (t, refl, h)

infixl 5 ◌>>◌
abbrev pub ◌>>◌ {κ} : {U : Type κ} → Result (Unit {0}) → Result U → Result U
check >> rest = check >>= λ u. rest

-- if refused { return e }
abbrev pub refuse : Bool → Error → Result (Unit {0})
refuse true e = err e
refuse false e = ok tt

pub refuse-eq-ok {ℓ} :
    {B : Type ℓ} (refused : Bool) (e : Error) (k : Result B) {b : B}
    → (refuse refused e >> k) ≡ ok b
    → (refused ≡ false) × (k ≡ ok b)
refuse-eq-ok true e k h = cc
refuse-eq-ok false e k h = (refl, h)

-- The identity of a sentinel.
unfoldable pub rank : Sentinel → ℕ
rank invalid_job = 0
rank no_job = 1
rank job_not_found = 2
rank invalid_transition = 3
rank invalid_event = 4
rank setting_not_found = 5
rank unsupported_web_server = 6
rank web_server_already_selected = 7
rank web_server_not_selected = 8
rank unknown_role = 9
rank forbidden = 10
rank invalid_credentials = 11
rank invalid_session = 12
rank session_user_not_found = 13
rank admin_already_exists = 14
rank invalid_email = 15
rank invalid_display_name = 16
rank weak_password = 17
rank invalid_limit = 18
rank invalid_password_hash = 19
rank owner_role_not_seeded = 20
rank unknown_action = 21
rank invalid_action = 22
rank invalid_payload = 23
rank invalid_result = 24

-- errors.Is(e, s)
unfoldable pub is : Sentinel → Error → Bool
unfolding rank
is s (sentinel t) = rank s == rank t
is s (plain m) = false
is s (driver m) = false
is s (wrap m e) = is s e
is s (note e m) = is s e
is s (permanent e) = is s e
is s (uncertain e) = is s e
is s (join e f) = is s e || is s f

text_of : Sentinel → Text
text_of invalid_job = txt "invalid job"
text_of no_job = txt "no job available"
text_of job_not_found = txt "job not found"
text_of invalid_transition = txt "invalid job state transition"
text_of invalid_event = txt "invalid audit event"
text_of setting_not_found = txt "setting not found"
text_of unsupported_web_server = txt "unsupported web server"
text_of web_server_already_selected = txt "web server is already selected"
text_of web_server_not_selected = txt "web server is not selected"
text_of unknown_role = txt "unknown role"
text_of forbidden = txt "forbidden"
text_of invalid_credentials = txt "invalid email or password"
text_of invalid_session = txt "invalid session"
text_of session_user_not_found = txt "session user not found"
text_of admin_already_exists = txt "admin user already exists"
text_of invalid_email = txt "invalid email"
text_of invalid_display_name = txt "invalid display name"
text_of weak_password = txt "password is too weak"
text_of invalid_limit = txt "invalid audit event limit"
text_of invalid_password_hash = txt "invalid password hash"
text_of owner_role_not_seeded = txt "owner role is not seeded"
text_of unknown_action = txt "unknown action"
text_of invalid_action = txt "invalid action"
text_of invalid_payload = txt "invalid action payload"
text_of invalid_result = txt "invalid action result"

-- e.Error()
unfoldable pub message : Error → Text
unfolding text_of
message (sentinel s) = text_of s
message (plain m) = m
message (driver m) = m
message (wrap m e) = m ++ (txt ": " ++ message e)
message (note e m) = message e ++ (txt ": " ++ m)
message (permanent e) = message e
message (uncertain e) = message e
message (join e f) = message e ++ (txt "\n" ++ message f)
