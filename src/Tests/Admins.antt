-- ===== src/Tests/Admins.antt =====
-- Tests of the first administrator, the gate over the database and the record of an event.
use motekarindo_panel.Base.{◌≡◌, ◌≢◌, refl, true, some, [], ◌∷◌}
use motekarindo_panel.Base.Text.{txt, same, trim_space, to_lower}
use motekarindo_panel.Base.Text.Decimal.{decimal}
use motekarindo_panel.Base.Error.{Error, ok, err}
use motekarindo_panel.Base.Act.{lift, attempt, ◌>>=◌}
use motekarindo_panel.Base.Sql.{Conn, exec, transaction}
use motekarindo_panel.Schema.{Tables, no_tables}
use motekarindo_panel.Audit.{record_event, write, insert_event}
use motekarindo_panel.Audit.Check.{check_event, trim_event}
use motekarindo_panel.Rbac.{role_owner, permission_dns_manage}
use motekarindo_panel.Rbac.Access.{
  authorize, check_permission, has_permission_row, is_active_user, is_granted, decide,
}
use motekarindo_panel.Auth.Password.{hash_password, param_list}
use motekarindo_panel.Auth.Session.{validate}
use motekarindo_panel.Auth.Session.SqlStore.{sql_session_store, find_active_session, find_session}
use motekarindo_panel.Auth.Bootstrap.{
  BootstrapInput, BootstrapAdmin, create_first_admin, create_admin, insert_user,
}
use motekarindo_panel.Auth.Bootstrap.Created.{
  Created, create_first_admin-Created, create_first_admin-IsRefused,
}
use motekarindo_panel.Auth.Bootstrap.Entry.{IsLetIn, login_input, create_first_admin-login}
use motekarindo_panel.Server.Authorization.{served, require_permission}
use motekarindo_panel.Server.Gate.{IsEntitled, require_permission-IsEntitled}
use motekarindo_panel.Tests.Sessions.{
  pad, tools, tools-IsFaithful, small, small-Fits, secret, hashed_secret, anything, columns,
  event_id, before_login, drawn, open_tables, alice_principal,
}

abbrev first_input : BootstrapInput
first_input = record { email = txt "Root@B.C"; display_name = txt " Root "; password = secret }

abbrev first_admin : BootstrapAdmin
first_admin = record {
  id = txt "u0";
  email = txt "root@b.c";
  display_name = txt "Root";
  password_hash = hashed_secret;
}

abbrev seeded : Conn Tables
seeded = record {
  tables = record no_tables { roles = record { id = txt "r0"; name = role_owner } ∷ [] };
  faults = [];
}

creates :
    (create_first_admin tools
      (create_admin anything 5 event_id)
      small
      (ok (txt "u0"))
      (ok (1 ∷ 2 ∷ []))
      first_input
      seeded).0
    ≡ ok first_admin
unfolding create_first_admin ◌>>=◌ lift exec to_lower trim_space same hash_password pad param_list
    decimal create_admin transaction insert_user record_event check_event trim_event write
    insert_event
creates = refl

create_first_admin-Created_example :
    Created anything 5 event_id tools small
      (ok (txt "u0"))
      (ok (1 ∷ 2 ∷ []))
      first_input
      first_admin
      seeded.tables
      (create_first_admin tools
        (create_admin anything 5 event_id)
        small
        (ok (txt "u0"))
        (ok (1 ∷ 2 ∷ []))
        first_input
        seeded).1.tables
create_first_admin-Created_example =
    create_first_admin-Created anything 5 event_id tools small (ok (txt "u0")) (ok (1 ∷ 2 ∷ []))
      first_input seeded first_admin creates

has_alice : before_login.tables.users ≢ []
has_alice h = cc

create_first_admin-IsRefused_example :
    ((e : Error) × ((create_first_admin tools
          (create_admin anything 5 event_id)
          small
          (ok (txt "u0"))
          (ok (1 ∷ 2 ∷ []))
          first_input
          before_login).0
        ≡ err e))
    × ((create_first_admin tools
          (create_admin anything 5 event_id)
          small
          (ok (txt "u0"))
          (ok (1 ∷ 2 ∷ []))
          first_input
          before_login).1.tables
        ≡ before_login.tables)
create_first_admin-IsRefused_example =
    create_first_admin-IsRefused anything 5 event_id tools small (ok (txt "u0")) (ok (1 ∷ 2 ∷ []))
      first_input before_login has_alice

create_first_admin-login_example :
    IsLetIn columns anything 5 event_id tools tools-IsFaithful small small-Fits
      (1 ∷ 2 ∷ [])
      refl
      drawn
      (login_input first_input [] [])
      first_admin
      (create_first_admin tools
        (create_admin anything 5 event_id)
        small
        (ok (txt "u0"))
        (ok (1 ∷ 2 ∷ []))
        first_input
        seeded).1
create_first_admin-login_example =
    create_first_admin-login columns anything 5 event_id tools tools-IsFaithful small small-Fits
      (1 ∷ 2 ∷ []) refl (ok (txt "u0")) first_input seeded first_admin drawn [] [] creates refl

abbrev gate_tables : Conn Tables
gate_tables = record {
  tables = record open_tables.tables {
    permissions = record { id = txt "p1"; code = permission_dns_manage } ∷ [];
    user_roles = record { user_id = txt "u1"; role_id = txt "r1" } ∷ [];
    role_permissions = record { role_id = txt "r1"; permission_id = txt "p1" } ∷ [];
  };
  faults = [];
}

serves :
    (require_permission
      (validate (sql_session_store columns anything 5 event_id) tools 11)
      authorize
      permission_dns_manage
      true
      (some (txt "t1"))
      gate_tables).0
    ≡ served alice_principal
unfolding require_permission validate ◌>>=◌ lift attempt exec sql_session_store trim_space same
    find_active_session find_session authorize check_permission has_permission_row is_active_user
    is_granted decide
serves = refl

require_permission-IsEntitled_example :
    IsEntitled tools permission_dns_manage
      (columns.kept 11)
      (some (txt "t1"))
      gate_tables.tables
      alice_principal
require_permission-IsEntitled_example =
    require_permission-IsEntitled columns anything 5 event_id tools permission_dns_manage 11 true
      (some (txt "t1")) gate_tables alice_principal serves
