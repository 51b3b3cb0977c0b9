-- ===== src/Tests/Reading.antt =====
-- Tests of the permission checks, the lists of jobs, the configuration and the support of systems.
use motekarindo_panel.Base.{◌≡◌, List, refl, true, [], ◌∷◌, map}
use motekarindo_panel.Base.Int.{pos}
use motekarindo_panel.Base.Text.{txt, same, trim_space}
use motekarindo_panel.Base.Error.{ok}
use motekarindo_panel.Base.Act.{◌>>=◌, lift, attempt}
use motekarindo_panel.Base.Sql.{Conn, exec}
use motekarindo_panel.Schema.{JobRow, Tables, no_tables}
use motekarindo_panel.Jobs.{Job}
use motekarindo_panel.Jobs.SqlStore.Rows.{scan_job}
use motekarindo_panel.Jobs.SqlStore.Listing.{
  is_bad_limit, recent_rows, list_recent, IsRecent, list_recent-IsRecent,
}
use motekarindo_panel.Rbac.{role_reseller, permission_dns_manage}
use motekarindo_panel.Rbac.Access.{
  authorize_account, check_account_permission, has_account_permission_row, is_active_user,
  is_granted, is_global, is_assigned, decide,
}
use motekarindo_panel.Rbac.Access.Laws.{MayUse, authorize_account-MayUse}
use motekarindo_panel.Tests.{queued_row, conn_of}

abbrev access : Tables
access = record no_tables {
  users =
      record {
        id = txt "u1";
        email = txt "a@b.c";
        password_hash = [];
        display_name = txt "A";
        is_active = true;
      }
      ∷ [];
  roles = record { id = txt "r1"; name = role_reseller } ∷ [];
  permissions = record { id = txt "p1"; code = permission_dns_manage } ∷ [];
  user_roles = record { user_id = txt "u1"; role_id = txt "r1" } ∷ [];
  role_permissions = record { role_id = txt "r1"; permission_id = txt "p1" } ∷ [];
  user_account_assignments = record { user_id = txt "u1"; account_id = txt "a1" } ∷ [];
}

abbrev access_conn : Conn Tables
access_conn = record { tables = access; faults = [] }

let_in : (authorize_account (txt "u1") permission_dns_manage (txt " a1") access_conn).0 ≡ ok tt
unfolding authorize_account ◌>>=◌ lift attempt exec check_account_permission
    has_account_permission_row is_active_user is_granted is_global is_assigned decide same
    trim_space
let_in = refl

authorize_account-MayUse_example :
    MayUse access (txt "u1") permission_dns_manage (trim_space (txt " a1"))
authorize_account-MayUse_example =
    authorize_account-MayUse (txt "u1") permission_dns_manage (txt " a1") access_conn tt let_in

abbrev rows : List JobRow
rows = queued_row (txt "a") 1 ∷ queued_row (txt "b") 2 ∷ []

abbrev listed : List Job
listed = map scan_job (recent_rows 1 rows)

lists : (list_recent (pos 1) (conn_of rows)).0 ≡ ok listed
unfolding list_recent is_bad_limit exec
lists = refl

list_recent-IsRecent_example : IsRecent (pos 1) rows listed
list_recent-IsRecent_example = list_recent-IsRecent (pos 1) (conn_of rows) listed lists
