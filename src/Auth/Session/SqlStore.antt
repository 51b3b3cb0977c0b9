-- ===== src/Auth/Session/SqlStore.antt =====
-- internal/auth/session_sqlstore.go over the tables users and sessions.
use motekarindo_panel.Base.{
  Bool, true, ◌&&◌, ◌||◌, not, Option, none, some, List, [], ◌∷◌, any, ltb, if◌then◌else◌,
}
use motekarindo_panel.Base.Text.{Text, txt, same}
use motekarindo_panel.Base.Error.{
  sentinel, driver, invalid_session, session_user_not_found, Result, ok, err,
}
use motekarindo_panel.Base.Act.{pure, ◌>>=◌, ◌>>◌}
use motekarindo_panel.Base.Sql.{Conn, Sql, exec, transaction}
use motekarindo_panel.Base.Sql.Unless.{transaction_unless}
use motekarindo_panel.Schema.{Time, AuditRow, UserRow, SessionRow, Tables}
use motekarindo_panel.Audit.{record_event}
use motekarindo_panel.Audit.Check.{Event, nullif_empty}
use motekarindo_panel.Auth.Session.{SessionUser, SessionRecord, Principal, SessionStore}

-- SELECT … FROM users WHERE email = $1
unfoldable pub find_user : Text → List UserRow → Result SessionUser
unfolding same
find_user email [] = err (sentinel session_user_not_found)
find_user email (u ∷ users) =
    if same u.email email
    then ok (record {
      id = u.id;
      email = u.email;
      password_hash = u.password_hash;
      is_active = u.is_active;
    })
    else find_user email users

unfoldable pub find_user_by_email : Text → Sql Tables SessionUser
find_user_by_email email = exec (λ t. (find_user email t.users, t))

-- What the columns make of a value: whether inet reads a text as an address, and the instant that
-- timestamptz has of one, where it is stored and where it is compared, to the microsecond.
pub record ColumnTypes : Type 0 where
  pub is_inet : Text → Bool
  pub kept : Time → Time

unfoldable pub session_row : ColumnTypes → SessionRecord → SessionRow
session_row types s = record {
  id = s.id;
  user_id = s.user_id;
  token_hash = s.token_hash;
  ip_address = nullif_empty s.ip_address;
  user_agent = s.user_agent;
  expires_at = types.kept s.expires_at;
}

-- The primary key and the unique token_hash.
unfoldable pub session_clashes : SessionRow → SessionRow → Bool
session_clashes r s = same s.id r.id || same s.token_hash r.token_hash

-- The reference to a user.
unfoldable pub has_user : Text → List UserRow → Bool
has_user id users = any (λ u. same u.id id) users

-- The join's row for a session, if there is one.
unfoldable pub principal_of : SessionRow → List UserRow → Option Principal
unfolding same
principal_of s [] = none
principal_of s (u ∷ users) =
    if same u.id s.user_id && u.is_active
    then some (record {
      user_id = u.id;
      email = u.email;
      display_name = u.display_name;
      expires_at = s.expires_at;
    })
    else principal_of s users

abbrev pub is_live_session : Text → Time → SessionRow → Bool
is_live_session token_hash now s = same s.token_hash token_hash && ltb now s.expires_at

-- The query of `FindActiveSession`; no row is ErrInvalidSession.
unfoldable pub find_session : Text → Time → List SessionRow → List UserRow → Result Principal
unfolding principal_of same
find_session token_hash now [] users = err (sentinel invalid_session)
find_session token_hash now (s ∷ sessions) users =
    let rest = find_session token_hash now sessions users in
    if is_live_session token_hash now s
    then elim (principal_of s users) [ none ↦ rest | some p ↦ ok p ]
    else rest

unfoldable pub find_active_session : ColumnTypes → Text → Time → Sql Tables Principal
find_active_session types token_hash now =
    exec (λ t. (find_session token_hash (types.kept now) t.sessions t.users, t))

-- What DELETE … WHERE token_hash = $1 leaves, and the first row that it returns.
unfoldable pub other_sessions : Text → List SessionRow → List SessionRow
unfolding same
other_sessions token_hash [] = []
other_sessions token_hash (s ∷ sessions) =
    let rest = other_sessions token_hash sessions in
    if same s.token_hash token_hash then rest else s ∷ rest

unfoldable pub deleted_session : Text → List SessionRow → Option SessionRow
unfolding same
deleted_session token_hash [] = none
deleted_session token_hash (s ∷ sessions) =
    if same s.token_hash token_hash then some s else deleted_session token_hash sessions

unfoldable pub delete_sessions : Text → Tables → Result (Option SessionRow) × Tables
unfolding deleted_session other_sessions
delete_sessions token_hash t = (
  ok (deleted_session token_hash t.sessions),
  record t { sessions = other_sessions token_hash t.sessions },
)

module _ (types : ColumnTypes) where
  abbrev pub is_inet_opt : Option Text → Bool
  is_inet_opt none = true
  is_inet_opt (some s) = types.is_inet s

  unfoldable pub admits_session : SessionRow → Tables → Bool
  unfolding session_clashes has_user
  admits_session r t =
      is_inet_opt r.ip_address
      && has_user r.user_id t.users
      && not (any (session_clashes r) t.sessions)

  unfoldable pub insert_session : SessionRecord → Tables → Result (Unit {0}) × Tables
  unfolding admits_session session_row
  insert_session s t =
      if admits_session (session_row types s) t
      then (ok tt, record t { sessions = session_row types s ∷ t.sessions })
      else (err (driver (txt "session refused")), t)

-- `accepts` is the server's judgement of a row of audit_events; `now` and `new_id` are what the writer
-- of audit events gets.
module _ (accepts : AuditRow → Bool) (now : Time) (new_id : Result Text) where
  unfoldable pub record_audit : Event → Sql Tables (Unit {0})
  record_audit event = record_event accepts now new_id event >> pure tt

  -- The event is completed with the id and the user of the session deleted, if there is one.
  unfoldable pub record_deleted : Event → Option SessionRow → Sql Tables (Option (Unit {0}))
  record_deleted event none = pure none
  record_deleted event (some s) = do
    record_audit (record event { actor_user_id = s.user_id; target_id = s.id })
    pure (some tt)

  unfoldable pub delete_session_by_token_hash : Text → Event → Sql Tables (Unit {0})
  unfolding record_deleted delete_sessions
  delete_session_by_token_hash token_hash event = do
    transaction_unless (exec (delete_sessions token_hash) >>= record_deleted event)
    pure tt

module _ (types : ColumnTypes) (accepts : AuditRow → Bool) (now : Time) (new_id : Result Text) where
  unfoldable pub create_session : SessionRecord → Event → Sql Tables (Unit {0})
  unfolding insert_session
  create_session session event =
      transaction (do exec (insert_session types session); record_audit accepts now new_id event)

  unfoldable pub sql_session_store : SessionStore (Conn Tables)
  sql_session_store = record {
    find_user_by_email = find_user_by_email;
    create_session = create_session;
    record_audit = record_audit accepts now new_id;
    find_active_session = find_active_session types;
    delete_session_by_token_hash = delete_session_by_token_hash accepts now new_id;
  }
