-- ===== src/Audit/Listing.antt =====
-- `SQLStore.ListRecent` of internal/audit/sqlstore.go. The metadata that `decodeMetadata` reads back
-- is the map of texts that `Write` encoded.
use motekarindo_panel.Base.{
  ℕ, Bool, ◌&&◌, ◌||◌, not, Option, none, some, List, [], map, take, ltb, ◌==◌, if◌then◌else◌,
}
use motekarindo_panel.Base.Int.{ℤ, is_nonpos, to_ℕ}
use motekarindo_panel.Base.Sort.{text_lt, sort_by}
use motekarindo_panel.Base.Text.{Text}
use motekarindo_panel.Base.Error.{sentinel, invalid_limit, ok}
use motekarindo_panel.Base.Act.{fail}
use motekarindo_panel.Base.Sql.{Sql, exec}
use motekarindo_panel.Schema.{AuditRow, Tables}
use motekarindo_panel.Audit.Check.{Event}

abbrev pub max_recent_events : ℕ
max_recent_events = 100

-- COALESCE(s, '')
abbrev pub coalesce : Option Text → Text
coalesce none = []
coalesce (some s) = s

-- ORDER BY created_at DESC, id DESC
unfoldable pub event_newer : AuditRow → AuditRow → Bool
event_newer r s =
    not (ltb r.created_at s.created_at || ((r.created_at == s.created_at) && text_lt r.id s.id))

unfoldable pub scan_event : AuditRow → Event
scan_event r = record {
  id = r.id;
  actor_user_id = coalesce r.actor_user_id;
  action = r.action;
  target_type = r.target_type;
  target_id = r.target_id;
  ip_address = coalesce r.ip_address;
  user_agent = r.user_agent;
  metadata = some r.metadata;
  created_at = r.created_at;
}

unfoldable pub list_recent_events : ℤ → Sql Tables (List Event)
list_recent_events limit =
    if is_nonpos limit || ltb max_recent_events (to_ℕ limit)
    then fail (sentinel invalid_limit)
    else exec
        (λ t. (ok (map scan_event (take (to_ℕ limit) (sort_by event_newer t.audit_events))), t))
