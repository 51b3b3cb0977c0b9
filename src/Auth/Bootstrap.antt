-- ===== src/Auth/Bootstrap.antt =====
-- internal/auth/bootstrap.go and sqlstore.go: the first administrator.
pub mod First
pub mod Created
pub mod Entry
use motekarindo_panel.Base.{
  ℕ, Bool, true, false, ◌&&◌, ◌||◌, not, Option, none, some, List, [], ◌∷◌, ◌++◌, any, map, length,
  ltb, ◌==◌, if◌then◌else◌,
}
use motekarindo_panel.Base.Text.{Text, txt, same, is_empty, byte_len, trim_space}
use motekarindo_panel.Base.Error.{
  sentinel, driver, invalid_email, invalid_display_name, weak_password, admin_already_exists,
  owner_role_not_seeded, Result, ok, err, refuse,
}
use motekarindo_panel.Base.Act.{Act, pure, lift, ◌>>=◌, ◌>>◌}
use motekarindo_panel.Base.Sql.{Sql, exec, transaction}
use motekarindo_panel.Schema.{Time, AuditRow, UserRow, RoleRow, UserRole, Tables}
use motekarindo_panel.Audit.{record_event}
use motekarindo_panel.Audit.Check.{Event}
use motekarindo_panel.Rbac.{role_owner}
use motekarindo_panel.Auth.{Toolkit}
use motekarindo_panel.Auth.Password.{PasswordHashParams, hash_password}

abbrev pub min_bootstrap_password_length : ℕ
min_bootstrap_password_length = 12

pub record BootstrapInput : Type 0 where
  pub email : Text
  pub display_name : Text
  pub password : Text

pub record BootstrapAdmin : Type 0 where
  pub id : Text
  pub email : Text
  pub display_name : Text
  pub password_hash : Text

abbrev pub admin_of : Text → Text → Text → Text → BootstrapAdmin
admin_of id email display_name password_hash = record {
  id = id;
  email = email;
  display_name = display_name;
  password_hash = password_hash;
}

-- The address parsed must be the value itself.
unfoldable pub is_address : Text → Option Text → Bool
unfolding same
is_address value none = false
is_address value (some address) = same address value

module _ (lib : Toolkit) where
  unfoldable pub normalize_email : Text → Result Text
  unfolding is_address
  normalize_email raw =
      let value = lib.lower (trim_space raw) in
      if is_empty value
      then err (sentinel invalid_email)
      else if is_address value (lib.parse_address value)
      then ok value
      else err (sentinel invalid_email)

  -- `create_admin` is the store's; `new_id` and `random` are what the generator of ids and the salt
  -- get.
  unfoldable pub create_first_admin :
      {S : Type 0}
      → (BootstrapAdmin → Act S (Unit {0}))
      → PasswordHashParams
      → Result Text
      → Result (List ℕ)
      → BootstrapInput
      → Act S BootstrapAdmin
  unfolding normalize_email byte_len
  create_first_admin create_admin params new_id random input = do
    email ← lift (normalize_email input.email)
    let display_name = trim_space input.display_name
    lift (refuse (is_empty display_name) (sentinel invalid_display_name))
    lift (
        refuse (ltb (byte_len input.password) min_bootstrap_password_length)
          (sentinel weak_password))
    id ← lift new_id
    password_hash ← lift (hash_password lib input.password params random)
    let admin = admin_of id email display_name password_hash
    create_admin admin
    pure admin

-- SELECT count(*) FROM users
unfoldable pub count_users : Tables → Result ℕ × Tables
count_users t = (ok (length t.users), t)

abbrev pub user_row : BootstrapAdmin → UserRow
user_row admin = record {
  id = admin.id;
  email = admin.email;
  password_hash = admin.password_hash;
  display_name = admin.display_name;
  is_active = true;
}

-- The primary key and the unique e-mail.
unfoldable pub user_clashes : UserRow → UserRow → Bool
user_clashes r u = same u.id r.id || same u.email r.email

unfoldable pub insert_user : BootstrapAdmin → Tables → Result (Unit {0}) × Tables
unfolding user_clashes
insert_user admin t =
    if any (user_clashes (user_row admin)) t.users
    then (err (driver (txt "user refused")), t)
    else (ok tt, record t { users = user_row admin ∷ t.users })

-- The rows that INSERT … SELECT … ON CONFLICT DO NOTHING adds: one for each role of the name that
-- the user does not have.
unfoldable pub new_grants : Text → List RoleRow → List UserRole → List UserRole
unfolding same
new_grants user_id [] granted = []
new_grants user_id (r ∷ roles) granted =
    let rest = new_grants user_id roles granted in
    if same r.name role_owner
      && not (any (λ g. same g.user_id user_id && same g.role_id r.id) granted)
    then record { user_id = user_id; role_id = r.id } ∷ rest
    else rest

-- It returns the number of rows affected.
unfoldable pub grant_owner : Text → Tables → Result ℕ × Tables
unfolding new_grants
grant_owner user_id t =
    let grants = new_grants user_id t.roles t.user_roles in
    (ok (length grants), record t { user_roles = grants ++ t.user_roles })

abbrev pub bootstrap_event : BootstrapAdmin → Event
bootstrap_event admin = record {
  id = [];
  actor_user_id = [];
  action = txt "auth.bootstrap_admin.created";
  target_type = txt "user";
  target_id = admin.id;
  ip_address = [];
  user_agent = [];
  metadata = some ((txt "source", txt "bootstrap") ∷ []);
  created_at = 0;
}

-- The first statement takes pg_advisory_xact_lock, so that one transaction at a time goes on; the
-- parameters are as in `record_event`.
module _ (accepts : AuditRow → Bool) (now : Time) (event_id : Result Text) where
  -- The writing statements.
  unfoldable pub enroll : BootstrapAdmin → Sql Tables (Unit {0})
  unfolding insert_user grant_owner
  enroll admin = do
    exec (insert_user admin)
    affected ← exec (grant_owner admin.id)
    lift (refuse (affected == 0) (sentinel owner_role_not_seeded))
    record_event accepts now event_id (bootstrap_event admin)
    pure tt

  unfoldable pub insert_admin : BootstrapAdmin → Sql Tables (Unit {0})
  unfolding count_users enroll
  insert_admin admin = do
    exec (λ t. (ok tt, t))
    count ← exec count_users
    lift (refuse (ltb 0 count) (sentinel admin_already_exists))
    enroll admin

  unfoldable pub create_admin : BootstrapAdmin → Sql Tables (Unit {0})
  unfolding insert_admin
  create_admin admin = transaction (insert_admin admin)
