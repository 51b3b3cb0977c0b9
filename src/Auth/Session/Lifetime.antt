-- ===== src/Auth/Session/Lifetime.antt =====
-- What a session's token is good for, and for how long (`SessionService.Validate` of
-- internal/auth/session.go over session_sqlstore.go).
use mathlib.Core.List.{Memᴰ}
use motekarindo_panel.Base.{
  ◌≡◌, refl, sym, ap, ◌∙◌, ◌<◌, Bool, true, ◌&&◌, some, List, [], ◌∷◌, arith, inl, inr, Bool-cases,
  and-eq-true, ltb→lt, Option-cases,
}
use motekarindo_panel.Base.Text.{Text, same, same_iff}
use motekarindo_panel.Base.Error.{Result, ok, err, ok-injective}
use motekarindo_panel.Base.Act.{lift, attempt-then, lift-eq-ok}
use motekarindo_panel.Base.Sql.{Conn, exec-eq-ok}
use motekarindo_panel.Schema.{Time, AuditRow, UserRow, SessionRow, Tables}
use motekarindo_panel.Auth.{Toolkit}
use motekarindo_panel.Auth.Session.{Principal, found_session, validate}
use motekarindo_panel.Auth.Session.SqlStore.{
  ColumnTypes, principal_of, is_live_session, find_session, find_active_session, sql_session_store,
}

-- A row of users that a session's principal can be.
abbrev pub is_holder : Text → UserRow → Bool
is_holder id u = same u.id id && u.is_active

principal_of-eq-some :
    (s : SessionRow) (users : List UserRow) (p : Principal)
    → principal_of s users ≡ some p
    → (u : UserRow) × Memᴰ u users
      × (u.id ≡ s.user_id)
      × (u.is_active ≡ true)
      × (p.user_id ≡ u.id)
      × (p.expires_at ≡ s.expires_at)
unfolding principal_of
principal_of-eq-some s [] p h = ground (arith, h)
principal_of-eq-some s (u ∷ users) p h = elim (Bool-cases (is_holder s.user_id u)) [
  | inl e ↦
      let (i, a) = and-eq-true _ _ e in
      let q = rw e at h in
      (u, Memᴰ.head refl, (same_iff u.id s.user_id).0 i, a, ground (arith, q), ground (arith, q))
  | inr e ↦
      let (v, m, a, b, c, d) = principal_of-eq-some s users p (rw e at h) in
      (v, Memᴰ.tail m, a, b, c, d)
]

-- What a principal found stands on: a session of the hash that expires later, of an active user.
pub record IsAlive (hash : Text) (now : Time) (t : Tables) (p : Principal) : Type 0 where
  pub session : SessionRow
  pub user : UserRow
  pub has_session : Memᴰ session t.sessions
  pub has_hash : session.token_hash ≡ hash
  pub is_unexpired : now < session.expires_at
  pub has_user : Memᴰ user t.users
  pub is_owner : user.id ≡ session.user_id
  pub is_active : user.is_active ≡ true
  pub is_principal : (p.user_id ≡ user.id) × (p.expires_at ≡ session.expires_at)

FindsAlive : Text → Time → List SessionRow → List UserRow → Principal → Type 0
FindsAlive hash now sessions users p =
    (s : SessionRow) × Memᴰ s sessions
    × (is_live_session hash now s ≡ true)
    × (principal_of s users ≡ some p)

FindsAlive-tail :
    (hash : Text) (now : Time) (s : SessionRow) (sessions : List SessionRow) (users : List UserRow)
    (p : Principal)
    → FindsAlive hash now sessions users p
    → FindsAlive hash now (s ∷ sessions) users p
unfolding FindsAlive
FindsAlive-tail hash now s sessions users p (x, m, a, b) = (x, Memᴰ.tail m, a, b)

find_session-FindsAlive :
    (hash : Text) (now : Time) (sessions : List SessionRow) (users : List UserRow) (p : Principal)
    → find_session hash now sessions users ≡ ok p
    → FindsAlive hash now sessions users p
unfolding find_session FindsAlive
find_session-FindsAlive hash now [] users p h = ground (arith, h)
find_session-FindsAlive hash now (s ∷ sessions) users p h =
    let later = λ (k : find_session hash now sessions users ≡ ok p).
      FindsAlive-tail hash now s sessions users p
        (find_session-FindsAlive hash now sessions users p k) in
    elim (Bool-cases (is_live_session hash now s)) [
      | inl e ↦ elim (Option-cases (principal_of s users)) [
        | inl n ↦ later (rw (e, n) at h)
        | inr (q, n) ↦ (s, Memᴰ.head refl, e, n ∙ ap some (ok-injective (rw (e, n) at h)))
      ]
      | inr e ↦ later (rw e at h)
    ]

module _ (types : ColumnTypes) (accepts : AuditRow → Bool) (at : Time) (event_id : Result Text)
    (lib : Toolkit) where
  found_session-eq-ok : (r : Result Principal) (p : Principal) → found_session r ≡ ok p → r ≡ ok p
  unfolding found_session
  found_session-eq-ok (ok q) p h = h
  found_session-eq-ok (err e) p h = ground (arith, h)

  -- The principal that `Validate` returns is that of a session stored under the hash of the token,
  -- which expires later than now, and of its user, who is active.
  pub validate-IsAlive :
      (now : Time) (token : Text) (c : Conn Tables) (p : Principal)
      → (validate (sql_session_store types accepts at event_id) lib now token c).0 ≡ ok p
      → IsAlive (lib.hash_session_token token) (types.kept now) c.tables p
  unfolding validate sql_session_store find_active_session FindsAlive lift
  validate-IsAlive now token c p h =
      let hash = lib.hash_session_token token in
      let m = find_active_session types hash now in
      let (u, _, h1, _) = lift-eq-ok _ _ c p h in
      let h2 = ap (λ x. x.0) (sym (attempt-then m (λ r. lift (found_session r)) c)) ∙ h1 in
      let found = found_session-eq-ok (m c).0 p h2 in
      let (s, mem, live, has) =
        find_session-FindsAlive hash (types.kept now) c.tables.sessions c.tables.users p
          (exec-eq-ok _ c p found).0 in
      let (v, is_user, owner, active, same_user, same_time) =
        principal_of-eq-some s c.tables.users p has in
      let (hashed, later) = and-eq-true _ _ live in
      record {
        session = s;
        user = v;
        has_session = mem;
        has_hash = (same_iff s.token_hash hash).0 hashed;
        is_unexpired = ltb→lt (types.kept now) s.expires_at later;
        has_user = is_user;
        is_owner = owner;
        is_active = active;
        is_principal = (same_user, same_time);
      }
