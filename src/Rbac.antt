-- ===== src/Rbac.antt =====
-- internal/rbac/rbac.go: the roles and permissions that the panel starts with.
pub mod Access
pub mod Laws
use motekarindo_panel.Base.{
  Bool, true, false, not, Option, none, some, List, [], ◌∷◌, ◌++◌, map, any, if◌then◌else◌,
}
use motekarindo_panel.Base.Text.{Text, txt, same, is_empty}
use motekarindo_panel.Base.Error.{
  sentinel, note, plain, unknown_role, Result, ok, err, refuse, ◌>>◌,
}

abbrev pub role_owner : Text
role_owner = txt "owner"

abbrev pub role_admin : Text
role_admin = txt "admin"

abbrev pub role_reseller : Text
role_reseller = txt "reseller"

abbrev pub role_customer : Text
role_customer = txt "customer"

abbrev pub permission_system_admin : Text
permission_system_admin = txt "system:admin"

abbrev pub permission_settings_manage : Text
permission_settings_manage = txt "settings:manage"

abbrev pub permission_users_manage : Text
permission_users_manage = txt "users:manage"

abbrev pub permission_accounts_manage : Text
permission_accounts_manage = txt "accounts:manage"

abbrev pub permission_websites_manage : Text
permission_websites_manage = txt "websites:manage"

abbrev pub permission_databases_manage : Text
permission_databases_manage = txt "databases:manage"

abbrev pub permission_dns_manage : Text
permission_dns_manage = txt "dns:manage"

abbrev pub permission_mail_manage : Text
permission_mail_manage = txt "mail:manage"

abbrev pub permission_jobs_manage : Text
permission_jobs_manage = txt "jobs:manage"

abbrev pub permission_audit_read : Text
permission_audit_read = txt "audit:read"

abbrev pub permission_agent_execute : Text
permission_agent_execute = txt "agent:execute"

abbrev pub permission_billing_manage : Text
permission_billing_manage = txt "billing:manage"

abbrev pub permission_resellers_manage : Text
permission_resellers_manage = txt "resellers:manage"

pub record Permission : Type 0 where
  pub code : Text
  pub description : Text

pub record Role : Type 0 where
  pub name : Text
  pub description : Text
  pub permissions : List Text

abbrev pub permission : Text → Text → Permission
permission code description = record { code = code; description = description }

abbrev pub default_permissions : List Permission
default_permissions =
    permission permission_system_admin (txt "Full system administration")
    ∷ permission permission_settings_manage (txt "Manage panel and server settings")
    ∷ permission permission_users_manage (txt "Manage panel users and access")
    ∷ permission permission_accounts_manage (txt "Manage hosting accounts and packages")
    ∷ permission permission_websites_manage (txt "Manage websites, domains, and vhosts")
    ∷ permission permission_databases_manage (txt "Manage databases and database users")
    ∷ permission permission_dns_manage (txt "Manage DNS zones and records")
    ∷ permission permission_mail_manage (txt "Manage mail domains, mailboxes, and routing")
    ∷ permission permission_jobs_manage (txt "Manage background jobs and retries")
    ∷ permission permission_audit_read (txt "Read audit events")
    ∷ permission permission_agent_execute (txt "Execute allowlisted agent actions")
    ∷ permission permission_billing_manage (txt "Manage license, billing, and commercial settings")
    ∷ permission permission_resellers_manage (txt "Manage reseller accounts and ownership")
    ∷ []

abbrev pub all_permission_codes : List Text
all_permission_codes = map (λ p. p.code) default_permissions

abbrev pub default_roles : List Role
default_roles =
    record {
      name = role_owner;
      description = txt "System owner with all permissions";
      permissions = all_permission_codes;
    }
    ∷ record {
      name = role_admin;
      description = txt "Server administrator without commercial ownership controls";
      permissions =
          permission_settings_manage ∷ permission_users_manage ∷ permission_accounts_manage
          ∷ permission_websites_manage ∷ permission_databases_manage ∷ permission_dns_manage
          ∷ permission_mail_manage ∷ permission_jobs_manage ∷ permission_audit_read
          ∷ permission_agent_execute ∷ [];
    }
    ∷ record {
      name = role_reseller;
      description = txt "Reseller operator for assigned customer accounts";
      permissions =
          permission_accounts_manage ∷ permission_websites_manage ∷ permission_databases_manage
          ∷ permission_dns_manage ∷ permission_mail_manage ∷ [];
    }
    ∷ record {
      name = role_customer;
      description = txt "Hosting customer for owned resources";
      permissions =
          permission_websites_manage ∷ permission_databases_manage ∷ permission_dns_manage
          ∷ permission_mail_manage ∷ [];
    }
    ∷ []

-- The map of `HasPermission`; a later entry of a name replaces an earlier one.
unfoldable pub role_permissions : List Role → List (Text × List Text) → List (Text × List Text)
role_permissions [] m = m
role_permissions (role ∷ roles) m = role_permissions roles ((role.name, role.permissions) ∷ m)

-- m[name][code]
unfoldable pub has_entry : List (Text × List Text) → Text → Text → Bool
unfolding same
has_entry [] name code = false
has_entry ((n, codes) ∷ m) name code =
    if same n name then any (λ c. same c code) codes else has_entry m name code

unfoldable pub has_permission : List Text → Text → Bool
unfolding role_permissions has_entry
has_permission role_names code =
    any (λ name. has_entry (role_permissions default_roles []) name code) role_names

unfoldable pub find_role : List Role → Text → Result Role
unfolding same
find_role [] name = err (note (sentinel unknown_role) name)
find_role (role ∷ roles) name = if same role.name name then ok role else find_role roles name

unfoldable pub role_by_name : Text → Result Role
unfolding find_role
role_by_name name = find_role default_roles name

-- The loops of `ValidateDefaults`, with what they have seen.
unfoldable pub check_permissions : List Text → List Permission → Result (Unit {0})
unfolding same
check_permissions seen [] = ok tt
check_permissions seen (p ∷ permissions) = do
  refuse (is_empty p.code) (plain (txt "permission code cannot be empty"))
  refuse (any (λ c. same c p.code) seen) (plain (txt "duplicate permission code: " ++ p.code))
  check_permissions (p.code ∷ seen) permissions

unfoldable pub check_codes : List Text → Text → List Text → Result (Unit {0})
unfolding same
check_codes known role [] = ok tt
check_codes known role (code ∷ codes) = do
  refuse (not (any (λ c. same c code) known))
      (plain (txt "role " ++ (role ++ (txt " references unknown permission " ++ code))))
  check_codes known role codes

unfoldable pub check_roles : List Text → List Text → List Role → Result (Unit {0})
unfolding same check_codes
check_roles known seen [] = ok tt
check_roles known seen (r ∷ roles) = do
  refuse (is_empty r.name) (plain (txt "role name cannot be empty"))
  refuse (any (λ n. same n r.name) seen) (plain (txt "duplicate role name: " ++ r.name))
  check_codes known r.name r.permissions
  check_roles known (r.name ∷ seen) roles

unfoldable pub validate : List Permission → List Role → Result (Unit {0})
unfolding check_permissions check_roles
validate permissions roles = do
  check_permissions [] permissions
  check_roles (map (λ p. p.code) permissions) [] roles

abbrev pub validate_defaults : Result (Unit {0})
validate_defaults = validate default_permissions default_roles
