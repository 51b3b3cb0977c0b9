-- ===== src/Schema.antt =====
-- The tables of services/migrations that the panel's stores read and write, with the rows as the
-- columns' types have them. A NULL column is an `Option`.
use motekarindo_panel.Base.{
  ℕ, Bool, true, false, ◌&&◌, ◌||◌, not, Option, none, some, List, [], ◌∷◌, ◌==◌, leb,
  if◌then◌else◌,
}
use motekarindo_panel.Base.Text.{Text, byte_len}

-- Instants in nanoseconds since Go's zero time, which is 0.
abbrev pub Time : Type 0
Time = ℕ

pub data Status : Type 0 where
  queued running succeeded failed cancelled : Status

abbrev pub is_queued : Status → Bool
is_queued queued = true
is_queued _ = false

abbrev pub is_running : Status → Bool
is_running running = true
is_running _ = false

abbrev pub is_cancelled : Status → Bool
is_cancelled cancelled = true
is_cancelled _ = false

-- jobs
pub record JobRow : Type 0 where
  pub id : Text
  pub type : Text
  pub status : Status
  pub resource_key : Text
  pub idempotency_key : Text
  pub payload : Text
  pub attempts : ℕ
  pub max_attempts : ℕ
  pub retryable : Bool
  pub claim_token : Option Text
  pub run_after : Time
  pub lease_expires_at : Option Time
  pub started_at : Option Time
  pub finished_at : Option Time
  pub result_code : Option Text
  pub result : Option Text
  pub created_at : Time
  pub updated_at : Time

-- job_logs; the serial id is the position.
pub record LogRow : Type 0 where
  pub job_id : Text
  pub level : Text
  pub message : Text
  pub created_at : Time

-- audit_events, with the metadata before its encoding as jsonb
pub record AuditRow : Type 0 where
  pub id : Text
  pub actor_user_id : Option Text
  pub action : Text
  pub target_type : Text
  pub target_id : Text
  pub ip_address : Option Text
  pub user_agent : Text
  pub metadata : List (Text × Text)
  pub created_at : Time

-- server_settings
pub record SettingRow : Type 0 where
  pub key : Text
  pub value : Text
  pub is_immutable : Bool

-- users
pub record UserRow : Type 0 where
  pub id : Text
  pub email : Text
  pub password_hash : Text
  pub display_name : Text
  pub is_active : Bool

pub record RoleRow : Type 0 where
  pub id : Text
  pub name : Text

pub record PermissionRow : Type 0 where
  pub id : Text
  pub code : Text

-- user_roles
pub record UserRole : Type 0 where
  pub user_id : Text
  pub role_id : Text

-- role_permissions
pub record RolePermission : Type 0 where
  pub role_id : Text
  pub permission_id : Text

-- user_account_assignments
pub record Assignment : Type 0 where
  pub user_id : Text
  pub account_id : Text

pub record SessionRow : Type 0 where
  pub id : Text
  pub user_id : Text
  pub token_hash : Text
  pub ip_address : Option Text
  pub user_agent : Text
  pub expires_at : Time

pub record Tables : Type 0 where
  pub jobs : List JobRow
  pub job_logs : List LogRow
  pub audit_events : List AuditRow
  pub server_settings : List SettingRow
  pub users : List UserRow
  pub roles : List RoleRow
  pub permissions : List PermissionRow
  pub user_roles : List UserRole
  pub role_permissions : List RolePermission
  pub user_account_assignments : List Assignment
  pub sessions : List SessionRow

abbrev pub no_tables : Tables
no_tables = record {
  jobs = [];
  job_logs = [];
  audit_events = [];
  server_settings = [];
  users = [];
  roles = [];
  permissions = [];
  user_roles = [];
  role_permissions = [];
  user_account_assignments = [];
  sessions = [];
}

abbrev pub is_some {ℓ} : {A : Type ℓ} → Option A → Bool
is_some none = false
is_some (some a) = true

-- lo <= octet_length(s) <= hi
abbrev pub within : ℕ → ℕ → Text → Bool
within lo hi s = leb lo (byte_len s) && leb (byte_len s) hi

abbrev pub within_opt : ℕ → ℕ → Option Text → Bool
within_opt lo hi none = true
within_opt lo hi (some s) = within lo hi s

-- jobs_claim_lease_check
abbrev pub claim_lease_check : JobRow → Bool
claim_lease_check r =
    if is_running r.status
    then is_some r.claim_token && is_some r.lease_expires_at
    else not (is_some r.claim_token) && not (is_some r.lease_expires_at)

-- The spaces of JSON.
abbrev pub is_json_space : ℕ → Bool
is_json_space c = (c == 32) || ((c == 9) || ((c == 10) || (c == 13)))

-- jsonb_typeof(s) = 'object', of a text that is a JSON document.
unfoldable pub is_object_text : Text → Bool
is_object_text [] = false
is_object_text (c ∷ s) = let rest = is_object_text s in if is_json_space c then rest else c == b'{'

-- The CHECK constraints of the table jobs. jsonb is taken to print a document as it was given;
-- jobs_status_check holds of every `Status`, which has no 'retrying', a value that no code writes.
unfoldable pub job_checks : JobRow → Bool
unfolding byte_len is_object_text
job_checks r =
    within 1 128 r.type
    && within 0 512 r.resource_key
    && within 1 128 r.idempotency_key
    && leb r.attempts 25
    && leb 1 r.max_attempts
    && leb r.max_attempts 25
    && leb r.attempts r.max_attempts
    && is_object_text r.payload
    && within 0 65536 r.payload
    && within_opt 1 64 r.result_code
    && within_opt 0 65536 r.result
    && claim_lease_check r
