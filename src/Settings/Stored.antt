-- ===== src/Settings/Stored.antt =====
-- What the statements of the settings' store do, and what `Select` leaves alone (internal/settings).
use motekarindo_panel.Base.{
  ◌≡◌, ◌||◌, ◌==◌, refl, sym, subst, ap, ◌∙◌, Bool, true, false, not, Option, none, some, List, [],
  ◌∷◌, arith, inl, inr, Bool-cases,
}
use motekarindo_panel.Base.Text.{Text, same, is_empty}
use motekarindo_panel.Base.Error.{Result, ok, err, ok-injective}
use motekarindo_panel.Base.Sql.{Sql}
use motekarindo_panel.Base.Sql.Keeps.{
  Keeps, Keeps-pure, Keeps-fail, Keeps-lift, Keeps-if, Keeps-bind, Keeps-exec, Keeps-attempt,
}
use motekarindo_panel.Schema.{Time, AuditRow, SettingRow, Tables}
use motekarindo_panel.Audit.{record_event}
use motekarindo_panel.Audit.Check.{Event}
use motekarindo_panel.Audit.Laws.{record_event-Keeps}
use motekarindo_panel.Jobs.SqlStore.Rows.Laws.{same_self}
use motekarindo_panel.Settings.{
  web_server_setting_key, WebServer, nginx, apache, name_of, Setting, parse_web_server, chosen,
  is_frozen, record_if_any, record_selected, record_change_denied, check_current, after_save,
  select, find_setting, upsert, upserted, get_setting, save_setting, sql_service,
}

-- The writer of audit events, if any, over the same connection.
abbrev pub recorder :
    Option ((AuditRow → Bool) × Time × Result Text) → Option (Event → Sql Tables Event)
recorder none = none
recorder (some (accepts, now, new_id)) = some (record_event accepts now new_id)

-- The stored choice of a web server cannot be replaced.
abbrev pub HasChoice : Setting → List SettingRow → Type 0
HasChoice setting rows =
    (find_setting web_server_setting_key rows ≡ ok setting) × (is_frozen setting ≡ true)

pub upsert-frozen :
    (setting old : Setting) (rows : List SettingRow)
    → find_setting setting.key rows ≡ ok old
    → is_frozen old ≡ true
    → upsert setting rows ≡ rows
unfolding upsert find_setting
upsert-frozen setting old [] h k = ground arith
upsert-frozen setting old (r ∷ rows) h k =
    let rest = upsert-frozen setting old rows in
    elim (Bool-cases (same r.key setting.key)) [
      | inl e ↦
          let frozen = subst (λ x. is_frozen x ≡ true) (sym (ok-injective (rw e at h))) k in
          rw e (ground (arith, frozen))
      | inr e ↦ rw e (ap (λ x. r ∷ x) (rest (rw e at h) k))
    ]

pub upsert-find :
    (setting : Setting) (rows : List SettingRow)
    → (upserted setting rows == 0) ≡ false
    → find_setting setting.key (upsert setting rows) ≡ ok setting
unfolding upsert upserted find_setting
upsert-find setting [] h = ground (arith, same_self setting.key)
upsert-find setting (r ∷ rows) h =
    let rest = upsert-find setting rows in
    elim (Bool-cases (same r.key setting.key)) [
      | inl e ↦ elim (Bool-cases (is_empty r.value || not r.is_immutable)) [
        | inl i ↦ rw (e, i) (rw (same_self setting.key) refl)
        | inr i ↦ absurd (ground (arith, rw (e, i) at h))
      ]
      | inr e ↦ rw (e, e) (rest (rw e at h))
    ]

pub parse_web_server-name_of : (w : WebServer) → parse_web_server (name_of w) ≡ ok w
unfolding parse_web_server
parse_web_server-name_of nginx = refl
parse_web_server-name_of apache = refl

module _ (rows : List SettingRow) (rec : Option ((AuditRow → Bool) × Time × Result Text)) where
  abbrev Same : Tables → Type 0
  Same t = t.server_settings ≡ rows

  record_if_any-Keeps :
      (o : Option ((AuditRow → Bool) × Time × Result Text)) (e : Event)
      → Keeps Same (record_if_any (sql_service (recorder rec)) (recorder o) e)
  unfolding record_if_any
  record_if_any-Keeps none e = Keeps-pure tt
  record_if_any-Keeps (some (accepts, now, new_id)) e =
      Keeps-bind _ _ (Keeps-attempt _ (record_event-Keeps (λ t r h. h) accepts now new_id e))
        (λ _. Keeps-pure tt)

  check_current-Keeps :
      (w : WebServer) (current : Result Setting)
      → Keeps Same (check_current (sql_service (recorder rec)) w current)
  unfolding check_current record_change_denied
  check_current-Keeps w (err e) = Keeps-pure tt
  check_current-Keeps w (ok current) =
      Keeps-if _ _ _ (Keeps-bind _ _ (record_if_any-Keeps rec _) (λ _. Keeps-fail _))
        (Keeps-pure tt)

  pub after_save-Keeps :
      (w : WebServer) (saved : Result (Unit {0}))
      → Keeps Same (after_save (sql_service (recorder rec)) w saved)
  unfolding after_save record_selected record_change_denied
  after_save-Keeps w (ok u) = Keeps-bind _ _ (record_if_any-Keeps rec _) (λ _. Keeps-pure w)
  after_save-Keeps w (err e) =
      Keeps-if _ _ _ (Keeps-bind _ _ (record_if_any-Keeps rec _) (λ _. Keeps-fail e)) (Keeps-fail e)

  save_setting-Keeps :
      (setting : Setting) → upsert setting rows ≡ rows → Keeps Same (save_setting setting)
  unfolding save_setting
  save_setting-Keeps setting h =
      Keeps-bind _ _ (Keeps-exec _ (λ t k. ap (upsert setting) k ∙ h)) (λ _. Keeps-lift _)

  get_setting-Keeps : (key : Text) → Keeps Same (get_setting key)
  unfolding get_setting
  get_setting-Keeps key = Keeps-exec _ (λ t k. k)

  pub select-Keeps :
      (value : Text)
      → ((w : WebServer) → upsert (chosen w) rows ≡ rows)
      → Keeps Same (select (sql_service (recorder rec)) value)
  unfolding select
  select-Keeps value h = Keeps-bind _ _ (Keeps-lift _) (λ w.
      Keeps-bind _ _ (Keeps-attempt _ (get_setting-Keeps web_server_setting_key)) (λ current.
        Keeps-bind _ _ (Keeps-lift _) (λ _. Keeps-bind _ _ (check_current-Keeps w current) (λ _.
          Keeps-bind _ _ (Keeps-attempt _ (save_setting-Keeps (chosen w) (h w)))
            (λ saved. after_save-Keeps w saved)))))
