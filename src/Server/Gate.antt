-- ===== src/Server/Gate.antt =====
-- `RequirePermission` of internal/server/authorization.go, with the sessions of internal/auth and the
-- authorizer of internal/rbac over one database.
use motekarindo_panel.Base.{◌≡◌, refl, subst, Bool, Option, some}
use motekarindo_panel.Base.Text.{Text}
use motekarindo_panel.Base.Error.{Result}
use motekarindo_panel.Base.Sql.{Conn}
use motekarindo_panel.Base.Sql.Keeps.{Keeps, Keeps-bind, Keeps-lift, Keeps-attempt, Keeps-exec}
use motekarindo_panel.Schema.{Time, AuditRow, Tables}
use motekarindo_panel.Rbac.Access.{authorize}
use motekarindo_panel.Rbac.Access.Laws.{MayDo, authorize-MayDo}
use motekarindo_panel.Auth.{Toolkit}
use motekarindo_panel.Auth.Session.{Principal, validate}
use motekarindo_panel.Auth.Session.SqlStore.{ColumnTypes, find_active_session, sql_session_store}
use motekarindo_panel.Auth.Session.Lifetime.{IsAlive, validate-IsAlive}
use motekarindo_panel.Server.Authorization.{
  served, cookie_value, require_permission, require_permission-Admitted,
}

-- Why a request is served: its cookie is the token of a live session, whose user is active and has a
-- role with the permission.
pub record IsEntitled (lib : Toolkit) (permission : Text) (now : Time) (cookie : Option Text)
    (t : Tables) (p : Principal) : Type 0 where
  pub token : Text
  pub has_cookie : cookie_value cookie ≡ some token
  pub is_alive : IsAlive (lib.hash_session_token token) now t p
  pub may_do : MayDo t p.user_id permission

module _ (types : ColumnTypes) (accepts : AuditRow → Bool) (at : Time) (event_id : Result Text)
    (lib : Toolkit) (permission : Text) (now : Time) where
  validate-Keeps :
      (token : Text) (t : Tables)
      → Keeps (λ s. s ≡ t) (validate (sql_session_store types accepts at event_id) lib now token)
  unfolding validate sql_session_store find_active_session
  validate-Keeps token t =
      Keeps-bind _ _ (Keeps-lift _)
        (λ u. Keeps-bind _ _ (Keeps-attempt _ (Keeps-exec _ (λ s e. e))) (λ r. Keeps-lift _))

  -- Over one database, the next handler is called for a principal only if the request's cookie is the
  -- token of a stored session that has not expired by the column's microseconds, of an active user whose id is the principal's,
  -- and a row of users of this id is active and has a role with the permission.
  pub require_permission-IsEntitled :
      (wired : Bool) (cookie : Option Text) (c : Conn Tables) (p : Principal)
      → (require_permission
          (validate (sql_session_store types accepts at event_id) lib now)
          authorize
          permission
          wired
          cookie
          c).0
        ≡ served p
      → IsEntitled lib permission (types.kept now) cookie c.tables p
  require_permission-IsEntitled wired cookie c p h =
      let check = validate (sql_session_store types accepts at event_id) lib now in
      let a = require_permission-Admitted check authorize permission wired cookie c p h in
      record {
        token = a.value;
        has_cookie = a.has_cookie;
        is_alive = validate-IsAlive types accepts at event_id lib now a.value c p a.is_valid;
        may_do =
            subst (λ t. MayDo t p.user_id permission)
              ((validate-Keeps a.value c.tables).after c refl)
              (authorize-MayDo p.user_id permission (check a.value c).1 tt a.is_allowed);
      }
