-- ===== src/Auth/Bootstrap/Entry.antt =====
-- The first administrator's way in: what `CreateFirstAdmin` stores is what `Login` looks for
-- (internal/auth/bootstrap.go, password.go and session.go).
use motekarindo_panel.Base.{
  ◌≡◌, ◌⊎◌, refl, ap, ◌∙◌, ℕ, Bool, true, List, [], ◌∷◌, length, arith, inl, inr, Bool-cases,
}
use motekarindo_panel.Base.Text.{Text, is_empty, trim_space}
use motekarindo_panel.Base.Error.{rank, is, driver, Result, ok, err, ok-injective}
use motekarindo_panel.Base.Act.{fail, lift, attempt-then, ◌>>=◌}
use motekarindo_panel.Base.Sql.{Conn, exec-of_ok}
use motekarindo_panel.Schema.{Time, AuditRow, Tables}
use motekarindo_panel.Jobs.SqlStore.Rows.Laws.{same_self}
use motekarindo_panel.Auth.{Toolkit}
use motekarindo_panel.Auth.Password.{PasswordHashParams, verify_password}
use motekarindo_panel.Auth.Password.RoundTrip.{IsFaithful, Fits, verify_password-same}
use motekarindo_panel.Auth.Session.{
  LoginInput, SessionUser, SessionStore, Draws, checked, run_password_check, open_session,
  login_found, after_find, login,
}
use motekarindo_panel.Auth.Session.SqlStore.{
  ColumnTypes, find_user, find_user_by_email, sql_session_store,
}
use motekarindo_panel.Auth.Bootstrap.{
  BootstrapInput, BootstrapAdmin, is_address, normalize_email, create_first_admin, create_admin,
  user_row,
}
use motekarindo_panel.Auth.Bootstrap.Created.{create_first_admin-Created}

-- The input of a login with the e-mail and the password of the first administrator.
abbrev pub login_input : BootstrapInput → Text → Text → LoginInput
login_input input ip_address user_agent = record {
  email = input.email;
  password = input.password;
  ip_address = ip_address;
  user_agent = user_agent;
}

abbrev pub admin_user : BootstrapAdmin → SessionUser
admin_user admin = record {
  id = admin.id;
  email = admin.email;
  password_hash = admin.password_hash;
  is_active = true;
}

normalize_email-eq-ok :
    (lib : Toolkit) (raw value : Text)
    → normalize_email lib raw ≡ ok value
    → lib.lower (trim_space raw) ≡ value
unfolding normalize_email
normalize_email-eq-ok lib raw value h =
    let lowered = lib.lower (trim_space raw) in
    elim (Bool-cases (is_empty lowered)) [
      | inl e ↦ absurd (ground (arith, rw e at h))
      | inr e ↦ elim (Bool-cases (is_address lowered (lib.parse_address lowered))) [
        | inl k ↦ ok-injective (rw (e, k) at h)
        | inr k ↦ absurd (ground (arith, rw (e, k) at h))
      ]
    ]

login_found-open :
    {S : Type 0} (store : SessionStore S) (lib : Toolkit) (w : Draws) (input : LoginInput)
    (user : SessionUser) (s : S)
    → w.slot ≡ ok tt
    → verify_password lib input.password user.password_hash ≡ ok true
    → user.is_active ≡ true
    → login_found store lib w input user s ≡ open_session store lib w input user s
unfolding login_found run_password_check checked ◌>>=◌ lift
login_found-open store lib w input user s slot verified active = rw (slot, verified, active) refl

after_find-open :
    {S : Type 0} (store : SessionStore S) (lib : Toolkit) (w : Draws) (input : LoginInput)
    (user : SessionUser) (s : S)
    → w.slot ≡ ok tt
    → verify_password lib input.password user.password_hash ≡ ok true
    → user.is_active ≡ true
    → after_find store lib w input (ok user) s ≡ open_session store lib w input user s
unfolding after_find
after_find-open store lib w input user s slot verified active =
    login_found-open store lib w input user s slot verified active

after_find_driver :
    {S : Type 0} (store : SessionStore S) (lib : Toolkit) (w : Draws) (input : LoginInput)
    (m : Text) (s : S)
    → (after_find store lib w input (err (driver m)) s).0 ≡ err (driver m)
unfolding after_find fail is rank
after_find_driver store lib w input m s = refl

find_user_by_email-of_ok :
    (email : Text) (c : Conn Tables) (user : SessionUser)
    → find_user email c.tables.users ≡ ok user
    → ((find_user_by_email email c).0 ≡ ok user)
      ⊎ ((m : Text) × ((find_user_by_email email c).0 ≡ err (driver m)))
unfolding find_user_by_email
find_user_by_email-of_ok email c user h = exec-of_ok (λ t. (find_user email t.users, t)) c user h

login-after_find :
    (types : ColumnTypes) (accepts : AuditRow → Bool) (at : Time) (event_id : Result Text)
    (lib : Toolkit) (w : Draws) (input : LoginInput) (c : Conn Tables) {email : Text}
    → lib.lower (trim_space input.email) ≡ email
    → login (sql_session_store types accepts at event_id) lib w input c
      ≡ after_find
          (sql_session_store types accepts at event_id)
          lib
          w
          input
          (find_user_by_email email c).0
          (find_user_by_email email c).1
unfolding login sql_session_store
login-after_find types accepts at event_id lib w input c named =
    let store = sql_session_store types accepts at event_id in
    attempt-then (find_user_by_email (lib.lower (trim_space input.email)))
      (after_find store lib w input) c
    ∙ ap (λ x. after_find store lib w input (find_user_by_email x c).0 (find_user_by_email x c).1)
        named

find_user-first :
    (admin : BootstrapAdmin) → find_user admin.email (user_row admin ∷ []) ≡ ok (admin_user admin)
unfolding find_user
find_user-first admin = rw (same_self admin.email) refl

module _ (types : ColumnTypes) (accepts : AuditRow → Bool) (at : Time) (event_id : Result Text)
    (lib : Toolkit) (laws : IsFaithful lib) (params : PasswordHashParams) (fits : Fits params)
    (salt : List ℕ) (salted : length salt ≡ params.salt_length) where
  -- What is left of a login: the session's opening for the administrator, or a failure of the
  -- database in the search for the user.
  abbrev pub IsLetIn : Draws → LoginInput → BootstrapAdmin → Conn Tables → Type 0
  IsLetIn w input admin c =
      (login (sql_session_store types accepts at event_id) lib w input c
        ≡ open_session (sql_session_store types accepts at event_id) lib w input (admin_user admin)
            (find_user_by_email admin.email c).1)
      ⊎ ((m : Text) × ((login (sql_session_store types accepts at event_id) lib w input c).0
            ≡ err (driver m)))

  login-of_find :
      (w : Draws) (input : LoginInput) (admin : BootstrapAdmin) (c : Conn Tables)
      → lib.lower (trim_space input.email) ≡ admin.email
      → c.tables.users ≡ user_row admin ∷ []
      → w.slot ≡ ok tt
      → verify_password lib input.password admin.password_hash ≡ ok true
      → IsLetIn w input admin c
  login-of_find w input admin c named users slot verified =
      let store = sql_session_store types accepts at event_id in
      let e = login-after_find types accepts at event_id lib w input c named in
      let b = (find_user_by_email admin.email c).1 in
      elim (find_user_by_email-of_ok admin.email c (admin_user admin)
        (ap (find_user admin.email) users ∙ find_user-first admin)) [
          | inl k ↦ inl (
              e
              ∙ ap (λ r. after_find store lib w input r b) k
              ∙ after_find-open store lib w input (admin_user admin) b slot verified refl)
          | inr (m, k) ↦ inr (
            m,
            ap (λ x. x.0) e
                ∙ ap (λ r. (after_find store lib w input r b).0) k
                ∙ after_find_driver store lib w input m b,
          )
        ]

  -- The administrator that `CreateFirstAdmin` returned gets past every check of a login with the same
  -- e-mail and password, once a slot is free: the login goes on to open a session for them, unless
  -- the database fails.
  pub create_first_admin-login :
      (new_id : Result Text) (input : BootstrapInput) (c : Conn Tables) (admin : BootstrapAdmin)
      (w : Draws) (ip_address user_agent : Text)
      → (create_first_admin lib
          (create_admin accepts at event_id)
          params
          new_id
          (ok salt)
          input
          c).0
        ≡ ok admin
      → w.slot ≡ ok tt
      → IsLetIn w
          (login_input input ip_address user_agent)
          admin
          (create_first_admin lib
            (create_admin accepts at event_id)
            params
            new_id
            (ok salt)
            input
            c).1
  create_first_admin-login new_id input c admin w ip_address user_agent h slot =
      let o =
        create_first_admin-Created accepts at event_id lib params new_id (ok salt) input c admin
          h in
      login-of_find w (login_input input ip_address user_agent) admin _
        (normalize_email-eq-ok lib input.email admin.email o.has_email) o.is_first.has_one slot
        (verify_password-same lib laws params fits input.password salt salted admin.password_hash
          o.is_hashed)
