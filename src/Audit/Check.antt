-- ===== src/Audit/Check.antt =====
-- internal/audit/audit.go: the events, and the checks of `Writer.Record`.
use motekarindo_panel.Base.{
  ℕ, ◌+◌, Bool, ◌&&◌, ◌||◌, not, Option, none, some, List, [], ◌∷◌, any, all, ltb, if◌then◌else◌,
}
use motekarindo_panel.Base.Text.{Text, txt, same, is_empty, byte_len, trim_space}
use motekarindo_panel.Base.Error.{sentinel, invalid_event, Result, err, refuse, ◌>>◌}
use motekarindo_panel.Schema.{Time, AuditRow}

-- `metadata` is `none` for the nil map.
pub record Event : Type 0 where
  pub id : Text
  pub actor_user_id : Text
  pub action : Text
  pub target_type : Text
  pub target_id : Text
  pub ip_address : Text
  pub user_agent : Text
  pub metadata : Option (List (Text × Text))
  pub created_at : Time

abbrev pub max_action_bytes : ℕ
max_action_bytes = 128

abbrev pub max_target_type_bytes : ℕ
max_target_type_bytes = 64

abbrev pub max_target_id_bytes : ℕ
max_target_id_bytes = 256

abbrev pub max_user_agent_bytes : ℕ
max_user_agent_bytes = 2048

abbrev pub max_metadata_value_bytes : ℕ
max_metadata_value_bytes = 1024

abbrev pub max_metadata_bytes : ℕ
max_metadata_bytes = 8192

abbrev pub action_job_retried : Text
action_job_retried = txt "job.retried"

abbrev pub action_job_cancelled : Text
action_job_cancelled = txt "job.cancelled"

abbrev pub action_web_server_selected : Text
action_web_server_selected = txt "settings.web_server.selected"

abbrev pub action_web_server_change_denied : Text
action_web_server_change_denied = txt "settings.web_server.change_denied"

unfoldable pub audit_metadata_keys : List (Text × List Text)
audit_metadata_keys =
    (txt "auth.bootstrap_admin.created", txt "source" ∷ [])
    ∷ (txt "auth.login.succeeded", [])
    ∷ (txt "auth.login.failed", [])
    ∷ (txt "auth.login.rejected", txt "reason" ∷ [])
    ∷ (txt "auth.logout.succeeded", [])
    ∷ (action_job_retried, [])
    ∷ (action_job_cancelled, [])
    ∷ (action_web_server_selected, txt "value" ∷ [])
    ∷ (action_web_server_change_denied, txt "value" ∷ txt "current" ∷ [])
    ∷ []

-- m[key] of a Go map
unfoldable pub keys_of : Text → List (Text × List Text) → Option (List Text)
unfolding same
keys_of k [] = none
keys_of k ((a, keys) ∷ m) = if same a k then some keys else keys_of k m

unfoldable pub trim_event : Event → Event
unfolding trim_space
trim_event e = record e {
  actor_user_id = trim_space e.actor_user_id;
  action = trim_space e.action;
  target_type = trim_space e.target_type;
  target_id = trim_space e.target_id;
  ip_address = trim_space e.ip_address;
  user_agent = trim_space e.user_agent;
}

abbrev pub or_empty : Option (List (Text × Text)) → List (Text × Text)
or_empty none = []
or_empty (some m) = m

-- The loop over `event.Metadata`: whether each entry passes, and the bytes of all.
unfoldable pub entry_ok : List Text → Text × Text → Bool
unfolding byte_len same
entry_ok allowed (key, value) =
    any (λ a. same a key) allowed && not (ltb max_metadata_value_bytes (byte_len value))

unfoldable pub metadata_size : List (Text × Text) → ℕ
unfolding byte_len
metadata_size [] = 0
metadata_size ((key, value) ∷ m) = byte_len key + byte_len value + metadata_size m

unfoldable pub check_metadata : List Text → List (Text × Text) → Result (Unit {0})
unfolding entry_ok metadata_size
check_metadata allowed m = do
  refuse (not (all (entry_ok allowed) m)) (sentinel invalid_event)
  refuse (ltb max_metadata_bytes (metadata_size m)) (sentinel invalid_event)

-- The length and presence tests, on the trimmed event.
unfoldable pub has_invalid_field : Event → Bool
unfolding byte_len
has_invalid_field e =
    is_empty e.target_type
    || is_empty e.target_id
    || ltb max_action_bytes (byte_len e.action)
    || ltb max_target_type_bytes (byte_len e.target_type)
    || ltb max_target_id_bytes (byte_len e.target_id)
    || ltb max_user_agent_bytes (byte_len e.user_agent)

unfoldable pub check_event : Event → Result (Unit {0})
unfolding audit_metadata_keys keys_of has_invalid_field check_metadata
check_event e = elim (keys_of e.action audit_metadata_keys) [
  | none ↦ err (sentinel invalid_event)
  | some allowed ↦ do
    refuse (has_invalid_field e) (sentinel invalid_event)
    check_metadata allowed (or_empty e.metadata)
]

-- NULLIF(s, '')
abbrev pub nullif_empty : Text → Option Text
nullif_empty [] = none
nullif_empty (c ∷ s) = some (c ∷ s)

unfoldable pub audit_row : Event → AuditRow
audit_row e = record {
  id = e.id;
  actor_user_id = nullif_empty e.actor_user_id;
  action = e.action;
  target_type = e.target_type;
  target_id = e.target_id;
  ip_address = nullif_empty e.ip_address;
  user_agent = e.user_agent;
  metadata = or_empty e.metadata;
  created_at = e.created_at;
}
