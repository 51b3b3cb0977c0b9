-- ===== src/Auth/Session.antt =====
-- internal/auth/session.go: logging in, logging out, and the check of a session's token.
pub mod SqlStore
pub mod Stored
pub mod Opening
pub mod Closing
pub mod Failing
pub mod Lifetime
pub mod RoundTrip
use motekarindo_panel.Base.{ℕ, ◌+◌, ◌*◌, Bool, ◌||◌, not, Option, none, List, [], if◌then◌else◌}
use motekarindo_panel.Base.Text.{Text, txt, is_empty, trim_space}
use motekarindo_panel.Base.Error.{
  Error, sentinel, wrap, is, invalid_credentials, invalid_session, session_user_not_found, Result,
  ok, err, refuse,
}
use motekarindo_panel.Base.Act.{Act, pure, fail, lift, attempt, ◌>>=◌, ◌>>◌}
use motekarindo_panel.Schema.{Time}
use motekarindo_panel.Audit.Check.{Event}
use motekarindo_panel.Auth.{Toolkit}
use motekarindo_panel.Auth.Password.{verify_password}

-- 24 hours in nanoseconds
abbrev pub default_session_duration : Time
default_session_duration = 24 * (3600 * 1000000000)

pub record LoginInput : Type 0 where
  pub email : Text
  pub password : Text
  pub ip_address : Text
  pub user_agent : Text

pub record SessionUser : Type 0 where
  pub id : Text
  pub email : Text
  pub password_hash : Text
  pub is_active : Bool

pub record SessionRecord : Type 0 where
  pub id : Text
  pub user_id : Text
  pub token_hash : Text
  pub ip_address : Text
  pub user_agent : Text
  pub expires_at : Time

pub record LoginSession : Type 0 where
  pub token : Text
  pub expires_at : Time

pub record LogoutInput : Type 0 where
  pub token : Text
  pub ip_address : Text
  pub user_agent : Text

-- SessionPrincipal
pub record Principal : Type 0 where
  pub user_id : Text
  pub email : Text
  pub display_name : Text
  pub expires_at : Time

-- SessionStore
pub record SessionStore (S : Type 0) : Type 0 where
  pub find_user_by_email : Text → Act S SessionUser
  pub create_session : SessionRecord → Event → Act S (Unit {0})
  pub record_audit : Event → Act S (Unit {0})
  pub find_active_session : Text → Time → Act S Principal
  pub delete_session_by_token_hash : Text → Event → Act S (Unit {0})

-- What a call of `Login` gets from outside: a slot for the check of a password, or the error of the
-- context that ended before one was free; the generators' results; the clock.
pub record Draws : Type 0 where
  pub slot : Result (Unit {0})
  pub id : Result Text
  pub token : Result Text
  pub now : Time

abbrev pub login_event : SessionUser → SessionRecord → Event
login_event user session = record {
  id = [];
  actor_user_id = user.id;
  action = txt "auth.login.succeeded";
  target_type = txt "session";
  target_id = session.id;
  ip_address = session.ip_address;
  user_agent = session.user_agent;
  metadata = none;
  created_at = 0;
}

abbrev pub failed_login_event : LoginInput → Event
failed_login_event input = record {
  id = [];
  actor_user_id = [];
  action = txt "auth.login.failed";
  target_type = txt "authentication";
  target_id = txt "login";
  ip_address = trim_space input.ip_address;
  user_agent = trim_space input.user_agent;
  metadata = none;
  created_at = 0;
}

abbrev pub logout_event : LogoutInput → Event
logout_event input = record {
  id = [];
  actor_user_id = [];
  action = txt "auth.logout.succeeded";
  target_type = txt "session";
  target_id = [];
  ip_address = trim_space input.ip_address;
  user_agent = trim_space input.user_agent;
  metadata = none;
  created_at = 0;
}

-- The error of a check of a password, as `Login` returns it.
unfoldable pub checked : Result Bool → Result Bool
checked (err e) = err (wrap (txt "verify password") e)
checked (ok valid) = ok valid

unfoldable pub audited : Result (Unit {0}) → Error
audited (err e) = wrap (txt "record failed login audit") e
audited (ok u) = sentinel invalid_credentials

unfoldable pub found_session : Result Principal → Result Principal
found_session (ok p) = ok p
found_session (err e) =
    err (
      if is invalid_session e then sentinel invalid_session else wrap (txt "find active session") e)

-- A check of a password that got its slot.
unfoldable pub run_password_check : Draws → Result Bool → Result Bool
run_password_check w check = elim w.slot [ err e ↦ err e | ok u ↦ check ]

abbrev pub session_record : Toolkit → SessionUser → LoginInput → Text → Text → Time → SessionRecord
session_record lib user input id token now = record {
  id = id;
  user_id = user.id;
  token_hash = lib.hash_session_token token;
  ip_address = trim_space input.ip_address;
  user_agent = trim_space input.user_agent;
  expires_at = now + default_session_duration;
}

module _ {S : Type 0} (store : SessionStore S) (lib : Toolkit) where
  unfoldable pub record_failed_login : LoginInput → Act S LoginSession
  unfolding audited
  record_failed_login input = do
    recorded ← attempt (store.record_audit (failed_login_event input))
    fail (audited recorded)

  unfoldable pub open_session : Draws → LoginInput → SessionUser → Act S LoginSession
  open_session w input user = do
    id ← lift w.id
    token ← lift w.token
    let session = session_record lib user input id token w.now
    store.create_session session (login_event user session)
    pure (record { token = token; expires_at = session.expires_at })

  unfoldable pub login_found : Draws → LoginInput → SessionUser → Act S LoginSession
  unfolding run_password_check checked
  login_found w input user = do
    valid ←
        lift
          (checked (run_password_check w (verify_password lib input.password user.password_hash)))
    if not valid || not user.is_active then record_failed_login input else open_session w input user

  unfoldable pub after_find : Draws → LoginInput → Result SessionUser → Act S LoginSession
  after_find w input (err e) =
      if is session_user_not_found e then (lift w.slot >> record_failed_login input) else fail e
  after_find w input (ok user) = login_found w input user

  unfoldable pub login : Draws → LoginInput → Act S LoginSession
  unfolding after_find
  login w input = do
    found ← attempt (store.find_user_by_email (lib.lower (trim_space input.email)))
    after_find w input found

  unfoldable pub logout : LogoutInput → Act S (Unit {0})
  logout input =
      if is_empty input.token
      then pure tt
      else store.delete_session_by_token_hash (lib.hash_session_token input.token)
          (logout_event input)

  unfoldable pub validate : Time → Text → Act S Principal
  unfolding found_session
  validate now token = do
    lift (refuse (is_empty (trim_space token)) (sentinel invalid_session))
    found ← attempt (store.find_active_session (lib.hash_session_token token) now)
    lift (found_session found)
