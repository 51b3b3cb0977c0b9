-- ===== src/Auth/Session/Failing.antt =====
-- What a login that fails leaves alone (internal/auth/session.go over session_sqlstore.go).
use motekarindo_panel.Base.{
  not, ◌||◌, Bool-cases, ap, sym, subst, refl, ◌≡◌, ◌∙◌, Bool, List, arith, inl, inr,
}
use motekarindo_panel.Base.Text.{Text, trim_space}
use motekarindo_panel.Base.Error.{is, session_user_not_found, Error, Result, ok, err}
use motekarindo_panel.Base.Act.{attempt-then, pure, fail, lift, >>=-eq-err}
use motekarindo_panel.Base.Sql.{Conn, transaction_err}
use motekarindo_panel.Base.Sql.Keeps.{
  Keeps, Keeps-bind, Keeps-lift, Keeps-fail, Keeps-attempt, Keeps-exec, Keeps-pure,
}
use motekarindo_panel.Schema.{Time, AuditRow, UserRow, SessionRow, Tables}
use motekarindo_panel.Audit.Check.{Event}
use motekarindo_panel.Audit.Laws.{record_event-Keeps}
use motekarindo_panel.Auth.{Toolkit}
use motekarindo_panel.Auth.Session.{
  login_found, after_find, login, LoginInput, SessionUser, SessionRecord, Draws, session_record,
  login_event, record_failed_login, open_session,
}
use motekarindo_panel.Auth.Session.SqlStore.{
  ColumnTypes, find_user_by_email, record_audit, create_session, sql_session_store,
}

abbrev pub rows_of : Tables → List UserRow × List SessionRow
rows_of t = (t.users, t.sessions)

-- The rows of users and sessions.
abbrev pub HasSame : List UserRow × List SessionRow → Tables → Type 0
HasSame (users, sessions) t = (t.users ≡ users) × (t.sessions ≡ sessions)

module _ (types : ColumnTypes) (accepts : AuditRow → Bool) (at : Time) (event_id : Result Text)
    (lib : Toolkit) (w : Draws) (input : LoginInput) where
  module _ (rows : List UserRow × List SessionRow) where
    record_failed_login-Keeps :
        Keeps
          (HasSame rows)
          (record_failed_login (sql_session_store types accepts at event_id) lib input)
    unfolding record_failed_login sql_session_store record_audit
    record_failed_login-Keeps =
        Keeps-bind _ _
          (Keeps-attempt _ (
            Keeps-bind _ _ (record_event-Keeps (λ t r h. h) accepts at event_id _)
              (λ e. Keeps-pure _)))
          (λ r. Keeps-fail _)

    find_user_by_email-Keeps : (email : Text) → Keeps (HasSame rows) (find_user_by_email email)
    unfolding find_user_by_email
    find_user_by_email-Keeps email = Keeps-exec _ (λ t h. h)

  create_session-failed :
      (s : SessionRecord) (event : Event) (c : Conn Tables) (e : Error)
      → (create_session types accepts at event_id s event c).0 ≡ err e
      → (create_session types accepts at event_id s event c).1.tables ≡ c.tables
  unfolding create_session
  create_session-failed s event c e h = transaction_err _ c h

  open_session-failed :
      (user : SessionUser) (c : Conn Tables) (e : Error)
      → (open_session (sql_session_store types accepts at event_id) lib w input user c).0 ≡ err e
      → (open_session (sql_session_store types accepts at event_id) lib w input user c).1.tables
        ≡ c.tables
  unfolding open_session sql_session_store lift pure
  open_session-failed user c e h =
      let tables = λ (x : Conn Tables). x.tables in
      elim (>>=-eq-err (lift w.id) _ c e h) [
        | inl (x, _, q) ↦ ap tables q
        | inr (id, h1, q) ↦ elim (>>=-eq-err (lift w.token) _ c e h1) [
          | inl (x, _, q1) ↦ ap tables (q ∙ q1)
          | inr (token, h2, q1) ↦
              let s = session_record lib user input id token w.now in
              elim (>>=-eq-err (create_session types accepts at event_id s (login_event user s)) _ c
                e h2) [
                  | inl (x, failed, q2) ↦
                      ap tables (q ∙ q1 ∙ q2)
                      ∙ create_session-failed s (login_event user s) c x failed
                  | inr (u, h3, _) ↦ absurd (ground (arith, h3))
                ]
        ]
      ]

  login_found-failed :
      (rows : List UserRow × List SessionRow) (user : SessionUser) (c : Conn Tables) (e : Error)
      → HasSame rows c.tables
      → (login_found (sql_session_store types accepts at event_id) lib w input user c).0 ≡ err e
      → HasSame rows
          (login_found (sql_session_store types accepts at event_id) lib w input user c).1.tables
  unfolding login_found lift
  login_found-failed rows user c e k h = elim (>>=-eq-err (lift _) _ c e h) [
    | inl (x, _, q) ↦ subst (λ (y : Conn Tables). HasSame rows y.tables) (sym q) k
    | inr (valid, h1, q) ↦
        subst (λ (y : Conn Tables). HasSame rows y.tables) (sym q)
          (elim (Bool-cases (not valid || not user.is_active)) [
            | inl b ↦ rw b ((record_failed_login-Keeps rows).after c k)
            | inr b ↦
                rw b (subst (HasSame rows) (sym (open_session-failed user c e (rw b at h1))) k)
          ])
  ]

  after_find-failed :
      (rows : List UserRow × List SessionRow) (found : Result SessionUser) (c : Conn Tables)
      (e : Error)
      → HasSame rows c.tables
      → (after_find (sql_session_store types accepts at event_id) lib w input found c).0 ≡ err e
      → HasSame rows
          (after_find (sql_session_store types accepts at event_id) lib w input found c).1.tables
  unfolding after_find fail
  after_find-failed rows (ok user) c e k h = login_found-failed rows user c e k h
  after_find-failed rows (err x) c e k h = elim (Bool-cases (is session_user_not_found x)) [
    | inl b ↦ rw b ((Keeps-bind _ _ (Keeps-lift _) (λ u. record_failed_login-Keeps rows)).after c k)
    | inr b ↦ rw b k
  ]

  -- A login that fails, for whatever reason, opens no session and changes no user.
  pub login-failed :
      (c : Conn Tables) (e : Error)
      → (login (sql_session_store types accepts at event_id) lib w input c).0 ≡ err e
      → HasSame
          (c.tables.users, c.tables.sessions)
          (login (sql_session_store types accepts at event_id) lib w input c).1.tables
  unfolding login sql_session_store
  login-failed c e h =
      let rows = rows_of c.tables in
      let m = find_user_by_email (lib.lower (trim_space input.email)) in
      let q =
        attempt-then m (after_find (sql_session_store types accepts at event_id) lib w input) c in
      subst (λ x. HasSame rows x.1.tables) (sym q)
        (after_find-failed rows (m c).0 (m c).1 e
          ((find_user_by_email-Keeps rows (lib.lower (trim_space input.email))).after c
            (refl, refl))
          (ap (λ x. x.0) (sym q) ∙ h))
