-- ===== src/Auth/Session/Opening.antt =====
-- What a login that returns has found and done (internal/auth/session.go over session_sqlstore.go).
use motekarindo_panel.Base.{
  ◌≡◌, refl, sym, ap, subst, ◌∙◌, ◌+◌, Bool, true, not, ◌||◌, arith, inl, inr, Bool-cases,
}
use motekarindo_panel.Base.Text.{Text, trim_space}
use motekarindo_panel.Base.Error.{
  is, session_user_not_found, Result, Result-cases, ok, err, ok-injective,
}
use motekarindo_panel.Base.Act.{pure, fail, attempt, attempt-then, lift-eq-ok, >>=-eq-ok}
use motekarindo_panel.Base.Sql.{Conn, exec-eq-ok}
use motekarindo_panel.Base.Sql.Keeps.{Keeps-exec}
use motekarindo_panel.Schema.{Time, AuditRow, Tables}
use motekarindo_panel.Auth.{Toolkit}
use motekarindo_panel.Auth.Password.{verify_password}
use motekarindo_panel.Auth.Session.{
  LoginInput, LoginSession, SessionUser, Draws, SessionStore, default_session_duration, login_event,
  session_record, checked, run_password_check, record_failed_login, open_session, login_found,
  after_find, login,
}
use motekarindo_panel.Auth.Session.SqlStore.{
  ColumnTypes, find_user, find_user_by_email, session_row, admits_session, create_session,
  sql_session_store,
}
use motekarindo_panel.Auth.Session.Stored.{IsStored, create_session-eq-ok}

record_failed_login-never_ok :
    {S : Type 0} (store : SessionStore S) (lib : Toolkit) (input : LoginInput) (c : S)
    (s : LoginSession)
    → (record_failed_login store lib input c).0 ≡ ok s
    → ⊥
unfolding record_failed_login fail
record_failed_login-never_ok store lib input c s h =
    let (_, _, h1, _) = >>=-eq-ok (attempt (store.record_audit _)) _ c s h in ground (arith, h1)

checked-eq-ok : (r : Result Bool) (b : Bool) → checked r ≡ ok b → r ≡ ok b
unfolding checked
checked-eq-ok (ok a) b h = h
checked-eq-ok (err e) b h = ground (arith, h)

run_password_check-eq-ok :
    (w : Draws) (r : Result Bool) (b : Bool) → run_password_check w r ≡ ok b → r ≡ ok b
unfolding run_password_check
run_password_check-eq-ok w r b h = elim (Result-cases w.slot) [
  | inl (u, e) ↦ rw e at h
  | inr (x, e) ↦ absurd (ground (arith, rw e at h))
]

module _ (types : ColumnTypes) (accepts : AuditRow → Bool) (at : Time) (event_id : Result Text)
    (lib : Toolkit) (w : Draws) (input : LoginInput) where
  -- What a login that returns the session `s` has found and done.
  pub record Opened (c c' : Conn Tables) (s : LoginSession) : Type 0 where
    pub user : SessionUser
    pub id : Text
    pub is_found : find_user (lib.lower (trim_space input.email)) c.tables.users ≡ ok user
    pub is_verified : verify_password lib input.password user.password_hash ≡ ok true
    pub is_active : user.is_active ≡ true
    pub has_token : w.token ≡ ok s.token
    pub has_expiry : s.expires_at ≡ w.now + default_session_duration
    pub is_admitted :
        admits_session types
          (session_row types (session_record lib user input id s.token w.now))
          c.tables
        ≡ true
    pub is_stored :
        IsStored accepts at event_id types
          (session_record lib user input id s.token w.now)
          (login_event user (session_record lib user input id s.token w.now))
          c.tables
          c'.tables

  open_session-Opened :
      (user : SessionUser) (c b : Conn Tables) (s : LoginSession)
      → b.tables ≡ c.tables
      → find_user (lib.lower (trim_space input.email)) c.tables.users ≡ ok user
      → verify_password lib input.password user.password_hash ≡ ok true
      → user.is_active ≡ true
      → (open_session (sql_session_store types accepts at event_id) lib w input user b).0 ≡ ok s
      → Opened c (open_session (sql_session_store types accepts at event_id) lib w input user b).1 s
  unfolding open_session sql_session_store pure
  open_session-Opened user c b s same_tables found verified active h =
      let (id, _, h1, q1) = lift-eq-ok w.id _ b s h in
      let (token, drawn, h2, q2) = lift-eq-ok w.token _ b s h1 in
      let session = session_record lib user input id token w.now in
      let (u, created, h3, q3) =
        >>=-eq-ok (create_session types accepts at event_id session (login_event user session)) _ b
          s h2 in
      let (admitted, stored) =
        create_session-eq-ok types accepts at event_id session (login_event user session) b u
          created in
      let row = session_row types session in
      let event = login_event user session in
      let done =
        (open_session (sql_session_store types accepts at event_id) lib w input user b).1 in
      let left = ap (λ (x : Conn Tables). x.tables) (q1 ∙ q2 ∙ q3) in
      subst (Opened c done) (ok-injective h3) (record {
        user = user;
        id = id;
        is_found = found;
        is_verified = verified;
        is_active = active;
        has_token = drawn;
        has_expiry = refl;
        is_admitted = ap (admits_session types row) (sym same_tables) ∙ admitted;
        is_stored =
            subst (λ t. IsStored accepts at event_id types session event t done.tables) same_tables
              (subst (IsStored accepts at event_id types session event b.tables) (sym left) stored);
      })

  login_found-Opened :
      (user : SessionUser) (c b : Conn Tables) (s : LoginSession)
      → b.tables ≡ c.tables
      → find_user (lib.lower (trim_space input.email)) c.tables.users ≡ ok user
      → (login_found (sql_session_store types accepts at event_id) lib w input user b).0 ≡ ok s
      → Opened c (login_found (sql_session_store types accepts at event_id) lib w input user b).1 s
  unfolding login_found
  login_found-Opened user c b s same_tables found h =
      let verdict = verify_password lib input.password user.password_hash in
      let (valid, check, h1, q1) = lift-eq-ok (checked (run_password_check w verdict)) _ b s h in
      let verified = run_password_check-eq-ok w verdict valid (checked-eq-ok _ valid check) in
      elim (Bool-cases (not valid || not user.is_active)) [
        | inl e ↦ absurd (
            record_failed_login-never_ok (sql_session_store types accepts at event_id) lib input b s
              (rw e at h1))
        | inr e ↦
            subst (λ x. Opened c x s) (sym q1)
              (rw e (
                open_session-Opened user c b s same_tables found
                  (verified ∙ ap ok (ground (arith, e))) (ground (arith, e)) (rw e at h1)))
      ]

  after_find-Opened :
      (found : Result SessionUser) (c b : Conn Tables) (s : LoginSession)
      → b.tables ≡ c.tables
      → ((user : SessionUser)
          → found ≡ ok user
          → find_user (lib.lower (trim_space input.email)) c.tables.users ≡ ok user)
      → (after_find (sql_session_store types accepts at event_id) lib w input found b).0 ≡ ok s
      → Opened c (after_find (sql_session_store types accepts at event_id) lib w input found b).1 s
  unfolding after_find fail
  after_find-Opened (ok user) c b s same_tables q h =
      login_found-Opened user c b s same_tables (q user refl) h
  after_find-Opened (err e) c b s same_tables q h =
      elim (Bool-cases (is session_user_not_found e)) [
        | inl k ↦
            let (_, _, h1, _) = lift-eq-ok w.slot _ b s (rw k at h) in
            absurd (
              record_failed_login-never_ok (sql_session_store types accepts at event_id) lib input b
                s h1)
        | inr k ↦ absurd (ground (arith, rw k at h))
      ]

  -- A login that returns found an active user by the trimmed e-mail in lower case and the password
  -- accepted by the user's hash; its token is the generator's, expires after 24 hours, and is
  -- stored, as its hash, with the user and an event of the login.
  pub login-Opened :
      (c : Conn Tables) (s : LoginSession)
      → (login (sql_session_store types accepts at event_id) lib w input c).0 ≡ ok s
      → Opened c (login (sql_session_store types accepts at event_id) lib w input c).1 s
  unfolding login sql_session_store find_user_by_email
  login-Opened c s h =
      let m = find_user_by_email (lib.lower (trim_space input.email)) in
      let e =
        attempt-then m (after_find (sql_session_store types accepts at event_id) lib w input) c in
      subst (λ x. Opened c x.1 s) (sym e)
        (after_find-Opened (m c).0 c (m c).1 s
          ((Keeps-exec {P = λ t. t ≡ c.tables} _ (λ t k. k)).after c refl)
          (λ user q. (exec-eq-ok _ c user q).0) (ap (λ x. x.0) (sym e) ∙ h))
