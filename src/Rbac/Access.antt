-- ===== src/Rbac/Access.antt =====
-- internal/rbac/sqlstore.go and authorization.go: the permission checks over the tables of
-- services/migrations, and the authorizer.
pub mod Laws
use motekarindo_panel.Base.{Bool, true, false, ◌&&◌, ◌||◌, not, List, any, if◌then◌else◌}
use motekarindo_panel.Base.Text.{Text, txt, same, is_empty, trim_space}
use motekarindo_panel.Base.Error.{sentinel, wrap, forbidden, Result, ok, err, refuse}
use motekarindo_panel.Base.Act.{Act, lift, attempt, ◌>>=◌, ◌>>◌}
use motekarindo_panel.Base.Sql.{Conn, Sql, exec}
use motekarindo_panel.Schema.{UserRow, Tables}
use motekarindo_panel.Rbac.{role_owner, role_admin}

-- The joins of both queries, for a row of users.
unfoldable pub is_granted : Tables → Text → UserRow → Bool
is_granted t code u =
    any
      (λ ur.
        same ur.user_id u.id
        && any
            (λ rp.
              same rp.role_id ur.role_id
              && any (λ p. same p.id rp.permission_id && same p.code code) t.permissions)
            t.role_permissions)
      t.user_roles

unfoldable pub is_active_user : Text → UserRow → Bool
is_active_user user_id u = same u.id user_id && u.is_active

-- SELECT EXISTS (…) of `HasPermission`
unfoldable pub has_permission_row : Tables → Text → Text → Bool
has_permission_row t user_id code =
    any (λ u. is_active_user user_id u && is_granted t code u) t.users

-- The user has the role of the owner or of an administrator.
unfoldable pub is_global : Tables → UserRow → Bool
is_global t u =
    any
      (λ ur.
        same ur.user_id u.id
        && any (λ r. same r.id ur.role_id && (same r.name role_owner || same r.name role_admin))
            t.roles)
      t.user_roles

unfoldable pub is_assigned : Tables → Text → UserRow → Bool
is_assigned t account_id u =
    any (λ a. same a.user_id u.id && same a.account_id account_id) t.user_account_assignments

-- SELECT EXISTS (…) of `HasAccountPermission`
unfoldable pub has_account_permission_row : Tables → Text → Text → Text → Bool
has_account_permission_row t user_id code account_id =
    any
      (λ u.
        is_active_user user_id u
        && is_granted t code u
        && (is_global t u || is_assigned t account_id u))
      t.users

unfoldable pub check_permission : Text → Text → Sql Tables Bool
check_permission user_id code = exec (λ t. (ok (has_permission_row t user_id code), t))

unfoldable pub check_account_permission : Text → Text → Text → Sql Tables Bool
check_account_permission user_id code account_id =
    exec (λ t. (ok (has_account_permission_row t user_id code account_id), t))

abbrev pub is_blank_text : Text → Bool
is_blank_text s = is_empty (trim_space s)

-- What follows the query in both methods; the text is that of the wrapped error.
unfoldable pub decide : Text → Result Bool → Result (Unit {0})
decide message (err e) = err (wrap message e)
decide message (ok allowed) = refuse (not allowed) (sentinel forbidden)

unfoldable pub authorize : Text → Text → Sql Tables (Unit {0})
authorize user_id code = do
  lift (refuse (is_blank_text user_id || is_blank_text code) (sentinel forbidden))
  allowed ← attempt (check_permission user_id code)
  lift (decide (txt "check permission") allowed)

unfoldable pub authorize_account : Text → Text → Text → Sql Tables (Unit {0})
authorize_account user_id code account_id = do
  lift (
      refuse (is_blank_text user_id || is_blank_text code || is_blank_text account_id)
        (sentinel forbidden))
  allowed ← attempt (check_account_permission user_id code (trim_space account_id))
  lift (decide (txt "check account permission") allowed)
