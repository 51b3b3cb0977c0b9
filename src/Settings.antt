-- ===== src/Settings.antt =====
-- internal/settings: the choice of the web server, and the table server_settings.
pub mod Stored
pub mod Choice
use motekarindo_panel.Base.{
  ℕ, ◌+◌, Bool, true, false, ◌&&◌, ◌||◌, not, Option, none, some, List, [], ◌∷◌, ◌==◌,
  if◌then◌else◌,
}
use motekarindo_panel.Base.Text.{Text, txt, same, is_empty, trim_space, to_lower}
use motekarindo_panel.Base.Error.{
  Error, sentinel, note, setting_not_found, unsupported_web_server, web_server_already_selected,
  web_server_not_selected, is, Result, ok, err, refuse,
}
use motekarindo_panel.Base.Act.{Act, pure, fail, lift, attempt, ◌>>=◌, ◌>>◌}
use motekarindo_panel.Base.Sql.{Conn, Sql, exec}
use motekarindo_panel.Schema.{SettingRow, Tables}
use motekarindo_panel.Audit.Check.{
  Event, action_web_server_selected, action_web_server_change_denied,
}

abbrev pub web_server_setting_key : Text
web_server_setting_key = txt "web_server"

pub data WebServer : Type 0 where
  nginx apache : WebServer

abbrev pub name_of : WebServer → Text
name_of nginx = txt "nginx"
name_of apache = txt "apache"

-- Go's `Setting` has the columns that are read.
abbrev pub Setting : Type 0
Setting = SettingRow

-- The interface `Store`.
pub record SettingStore (S : Type 0) : Type 0 where
  pub get : Text → Act S Setting
  pub save : Setting → Act S (Unit {0})

-- The recorder of audit events is absent where it is nil.
pub record WebServerService (S : Type 0) : Type 0 where
  pub store : SettingStore S
  pub recorder : Option (Event → Act S Event)

unfoldable pub parse_web_server : Text → Result WebServer
unfolding same trim_space to_lower
parse_web_server value =
    let v = to_lower (trim_space value) in
    if same v (txt "nginx")
    then ok nginx
    else if same v (txt "apache")
    then ok apache
    else err (sentinel unsupported_web_server)

abbrev pub setting_event : Text → List (Text × Text) → Event
setting_event action metadata = record {
  id = [];
  actor_user_id = [];
  action = action;
  target_type = txt "server_setting";
  target_id = web_server_setting_key;
  ip_address = [];
  user_agent = [];
  metadata = some metadata;
  created_at = 0;
}

-- The setting that `Select` stores.
abbrev pub chosen : WebServer → Setting
chosen w = record { key = web_server_setting_key; value = name_of w; is_immutable = true }

-- err != nil && !errors.Is(err, ErrSettingNotFound)
abbrev pub check_read : Result Setting → Result (Unit {0})
check_read (ok setting) = ok tt
check_read (err e) = refuse (not (is setting_not_found e)) e

abbrev pub is_frozen : Setting → Bool
is_frozen setting = not (is_empty setting.value) && setting.is_immutable

abbrev pub denied_metadata : Text → Text → List (Text × Text)
denied_metadata requested current =
    if is_empty current
    then (txt "value", requested) ∷ []
    else (txt "value", requested) ∷ (txt "current", current) ∷ []

module _ {S : Type 0} (service : WebServerService S) where
  -- What the recorder returns is dropped.
  unfoldable pub record_if_any : Option (Event → Act S Event) → Event → Act S (Unit {0})
  record_if_any none event = pure tt
  record_if_any (some recorder) event = do attempt (recorder event); pure tt

  unfoldable pub record_selected : Text → Act S (Unit {0})
  unfolding record_if_any
  record_selected value =
      record_if_any service.recorder
        (setting_event action_web_server_selected ((txt "value", value) ∷ []))

  unfoldable pub record_change_denied : Text → Text → Act S (Unit {0})
  unfolding record_if_any
  record_change_denied requested current =
      record_if_any service.recorder
        (setting_event action_web_server_change_denied (denied_metadata requested current))

  unfoldable pub check_current : WebServer → Result Setting → Act S (Unit {0})
  check_current selected (err e) = pure tt
  check_current selected (ok current) =
      if is_frozen current
      then (do
        record_change_denied (name_of selected) current.value
        fail (note (sentinel web_server_already_selected) current.value))
      else pure tt

  unfoldable pub after_save : WebServer → Result (Unit {0}) → Act S WebServer
  after_save selected (ok u) = do record_selected (name_of selected); pure selected
  after_save selected (err e) =
      if is web_server_already_selected e
      then (do record_change_denied (name_of selected) []; fail e)
      else fail e

  unfoldable pub select : Text → Act S WebServer
  select value = do
    selected ← lift (parse_web_server value)
    current ← attempt (service.store.get web_server_setting_key)
    lift (check_read current)
    check_current selected current
    saved ← attempt (service.store.save (chosen selected))
    after_save selected saved

  unfoldable pub selected : Act S WebServer
  selected = do
    setting ← service.store.get web_server_setting_key
    lift (refuse (is_empty setting.value) (sentinel web_server_not_selected))
    lift (parse_web_server setting.value)

-- SELECT … FROM server_settings WHERE key = $1
unfoldable pub find_setting : Text → List SettingRow → Result Setting
unfolding same
find_setting key [] = err (sentinel setting_not_found)
find_setting key (r ∷ rows) = if same r.key key then ok r else find_setting key rows

-- INSERT … ON CONFLICT (key) DO UPDATE … WHERE …, and the rows affected.
unfoldable pub upsert : Setting → List SettingRow → List SettingRow
unfolding same
upsert setting [] = setting ∷ []
upsert setting (r ∷ rows) =
    if same r.key setting.key
    then if is_empty r.value || not r.is_immutable then setting ∷ rows else r ∷ rows
    else r ∷ upsert setting rows

unfoldable pub upserted : Setting → List SettingRow → ℕ
unfolding same
upserted setting [] = 1
upserted setting (r ∷ rows) =
    if same r.key setting.key
    then if is_empty r.value || not r.is_immutable then 1 else 0
    else upserted setting rows

unfoldable pub get_setting : Text → Sql Tables Setting
get_setting key = exec (λ t. (find_setting key t.server_settings, t))

unfoldable pub save_setting : Setting → Sql Tables (Unit {0})
save_setting setting = do
  affected ← exec (λ t. (
    ok (upserted setting t.server_settings),
    record t { server_settings = upsert setting t.server_settings },
  ))
  lift (refuse (affected == 0) (sentinel web_server_already_selected))

-- The service over the SQL store.
abbrev pub sql_service : Option (Event → Sql Tables Event) → WebServerService (Conn Tables)
sql_service recorder = record {
  store = record { get = get_setting; save = save_setting };
  recorder = recorder;
}
