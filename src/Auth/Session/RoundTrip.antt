-- ===== src/Auth/Session/RoundTrip.antt =====
-- The token of a login is valid from the login on (internal/auth/session.go over session_sqlstore.go).
use motekarindo_panel.Base.{
  ◌≡◌, refl, sym, ap, subst, ◌∙◌, ◌⊎◌, ◌<◌, ◌≤◌, ◌+◌, Bool, true, false, some, List, [], ◌∷◌, arith,
  inl, inr, Bool-cases, ltb, any, and-eq-true,
}
use motekarindo_panel.Base.Text.{Text, txt, same, same_iff, trim_space, is_empty}
use motekarindo_panel.Base.Error.{is, rank, driver, wrap, Result, ok, err, ok-injective}
use motekarindo_panel.Base.Act.{◌>>=◌, attempt, lift}
use motekarindo_panel.Base.Sql.{Conn, exec-of_ok}
use motekarindo_panel.Schema.{Time, AuditRow, UserRow, SessionRow, Tables}
use motekarindo_panel.Jobs.SqlStore.Rows.Laws.{same_self}
use motekarindo_panel.Auth.{Toolkit}
use motekarindo_panel.Auth.Session.{
  Principal, SessionUser, LoginInput, LoginSession, Draws, session_record, found_session, login,
  validate,
}
use motekarindo_panel.Auth.Session.SqlStore.{
  ColumnTypes, find_user, principal_of, find_session, find_active_session, session_row,
  sql_session_store,
}
use motekarindo_panel.Auth.Session.Opening.{Opened, login-Opened}
use motekarindo_panel.Auth.Session.Lifetime.{is_holder}

principal_of-some :
    (s : SessionRow) (users : List UserRow)
    → any (is_holder s.user_id) users ≡ true
    → (p : Principal) × (principal_of s users ≡ some p)
      × (p.user_id ≡ s.user_id)
      × (p.expires_at ≡ s.expires_at)
unfolding principal_of
principal_of-some s [] h = cc
principal_of-some s (u ∷ users) h = elim (Bool-cases (is_holder s.user_id u)) [
  | inl e ↦ rw e (_, refl, (same_iff u.id s.user_id).0 (and-eq-true _ _ e).0, refl)
  | inr e ↦ rw e (principal_of-some s users (rw e at h))
]

find_user-is_holder :
    (email : Text) (users : List UserRow) (user : SessionUser)
    → find_user email users ≡ ok user
    → user.is_active ≡ true
    → any (is_holder user.id) users ≡ true
unfolding find_user
find_user-is_holder email [] user h k = ground (arith, h)
find_user-is_holder email (u ∷ users) user h k = elim (Bool-cases (same u.email email)) [
  | inl e ↦
      let q = ok-injective (rw e at h) in
      subst (λ x. any (is_holder x.id) (u ∷ users) ≡ true) q
        (rw (same_self u.id, ap (λ x. x.is_active) q ∙ k) refl)
  | inr e ↦ ground (arith, find_user-is_holder email users user (rw e at h) k)
]

-- The column keeps instants to the microsecond: what it has of one is less than a microsecond from it,
-- and of two that are a microsecond or more apart it has the first before the second.
pub record HasMicroseconds (types : ColumnTypes) : Type 0 where
  pub near : (t : Time) → (types.kept t < t + 1000) × (t < types.kept t + 1000)
  pub apart : (t later : Time) → t + 1000 ≤ later → types.kept t < types.kept later

-- A principal of the user, whose expiry is the session's to the microsecond, or a failure of the
-- database.
abbrev pub IsAnswered : Result Principal → SessionUser → LoginSession → Type 0
IsAnswered r user s =
    ((p : Principal) × (r ≡ ok p)
      × (p.user_id ≡ user.id)
      × (p.expires_at < s.expires_at + 1000)
      × (s.expires_at < p.expires_at + 1000))
    ⊎ ((m : Text) × (r ≡ err (wrap (txt "find active session") (driver m))))

module _ (types : ColumnTypes) (accepts : AuditRow → Bool) (at : Time) (event_id : Result Text)
    (lib : Toolkit) where
  validate-filled :
      (now : Time) (token : Text) (c : Conn Tables)
      → is_empty (trim_space token) ≡ false
      → (validate (sql_session_store types accepts at event_id) lib now token c).0
        ≡ found_session (find_active_session types (lib.hash_session_token token) now c).0
  unfolding validate sql_session_store lift attempt ◌>>=◌
  validate-filled now token c h = rw h refl

  find_active_session-of_ok :
      (hash : Text) (now : Time) (c : Conn Tables) (p : Principal)
      → find_session hash (types.kept now) c.tables.sessions c.tables.users ≡ ok p
      → ((find_active_session types hash now c).0 ≡ ok p)
        ⊎ ((m : Text) × ((find_active_session types hash now c).0 ≡ err (driver m)))
  unfolding find_active_session
  find_active_session-of_ok hash now c p h =
      exec-of_ok (λ t. (find_session hash (types.kept now) t.sessions t.users, t)) c p h

  near-of :
      (p : Principal) (t : Time)
      → (types.kept t < t + 1000) × (t < types.kept t + 1000)
      → p.expires_at ≡ types.kept t
      → (p.expires_at < t + 1000) × (t < p.expires_at + 1000)
  near-of p t h e = subst (λ x. (x < t + 1000) × (t < x + 1000)) (sym e) h

  lt→ltb : (a b : Time) → a < b → ltb a b ≡ true
  lt→ltb a b h = ground (arith, h)

  -- The session that a login opened, found under its token's hash while it has not expired.
  find_session-Opened :
      (w : Draws) (input : LoginInput) (c c' : Conn Tables) (s : LoginSession) (now : Time)
      (o : Opened types accepts at event_id lib w input c c' s)
      → ltb (types.kept now) (types.kept s.expires_at) ≡ true
      → (p : Principal) × (find_session
            (lib.hash_session_token s.token)
            (types.kept now)
            c'.tables.sessions
            c'.tables.users
          ≡ ok p)
        × (p.user_id ≡ o.user.id)
        × (p.expires_at ≡ types.kept s.expires_at)
  unfolding find_session session_row
  find_session-Opened w input c c' s now o later =
      let row = session_row types (session_record lib o.user input o.id s.token w.now) in
      let hash = lib.hash_session_token s.token in
      let (id, stored) = o.is_stored in
      let holder = find_user-is_holder _ c.tables.users o.user o.is_found o.is_active in
      let (p, has, same_user, same_time) = principal_of-some row c.tables.users holder in
      let live = ap (λ x. ltb (types.kept now) (types.kept x)) (sym o.has_expiry) ∙ later in
      (
        p,
        ap (λ (t : Tables). find_session hash (types.kept now) t.sessions t.users) stored
            ∙ rw (same_self hash, live, has) refl,
        same_user,
        same_time ∙ ap types.kept (sym o.has_expiry),
      )

  -- The token of a session that a login returned, if it is not blank, is valid right after the login
  -- and until a microsecond before the session's expiry: `Validate` returns a principal of the user
  -- found by the login, with the session's expiry to the microsecond that the column keeps, or fails
  -- with the driver's error.
  pub validate-login :
      (w : Draws) (input : LoginInput) (c : Conn Tables) (s : LoginSession) (now : Time)
      → HasMicroseconds types
      → (h : (login (sql_session_store types accepts at event_id) lib w input c).0 ≡ ok s)
      → is_empty (trim_space s.token) ≡ false
      → now + 1000 ≤ s.expires_at
      → IsAnswered
          (validate
            (sql_session_store types accepts at event_id)
            lib
            now
            s.token
            (login (sql_session_store types accepts at event_id) lib w input c).1).0
          (login-Opened types accepts at event_id lib w input c s h).user
          s
  unfolding found_session is rank
  validate-login w input c s now micro h filled before =
      let o = login-Opened types accepts at event_id lib w input c s h in
      let c' = (login (sql_session_store types accepts at event_id) lib w input c).1 in
      let (p, found, same_user, same_time) =
        find_session-Opened w input c c' s now o
          (lt→ltb _ _ (micro.apart now s.expires_at before)) in
      let e = validate-filled now s.token c' filled in
      elim (find_active_session-of_ok (lib.hash_session_token s.token) now c' p found) [
        | inl k ↦
            let (below, above) = near-of p s.expires_at (micro.near s.expires_at) same_time in
            inl (p, e ∙ ap found_session k, same_user, below, above)
        | inr (x, k) ↦ inr (x, e ∙ ap found_session k)
      ]
