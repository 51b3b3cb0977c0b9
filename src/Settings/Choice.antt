-- ===== src/Settings/Choice.antt =====
-- The choice of the web server over the SQL store (internal/settings): what is chosen is stored, and
-- a choice is for good.
use motekarindo_panel.Base.{
  ◌≡◌, ◌⊎◌, ◌==◌, refl, sym, subst, ap, ◌∙◌, Bool, true, false, Option, arith, inl, inr, Bool-cases,
}
use motekarindo_panel.Base.Text.{Text, is_empty}
use motekarindo_panel.Base.Error.{
  Error, Result, Result-cases, ok, err, is, refuse, sentinel, ok-injective, driver,
  web_server_already_selected,
}
use motekarindo_panel.Base.Act.{
  pure, fail, lift, attempt, ◌>>=◌, ◌>>◌, >>=-eq-ok, lift-eq-ok, attempt-then,
}
use motekarindo_panel.Base.Sql.{Conn, Sql, exec-eq-ok, exec-of_ok}
use motekarindo_panel.Schema.{Time, AuditRow, Tables}
use motekarindo_panel.Audit.Check.{Event}
use motekarindo_panel.Settings.{
  web_server_setting_key, WebServer, nginx, apache, name_of, Setting, selected, parse_web_server,
  chosen, check_read, is_frozen, check_current, after_save, select, find_setting, get_setting,
  save_setting, sql_service,
}
use motekarindo_panel.Settings.Stored.{
  recorder, parse_web_server-name_of, HasChoice, upsert-frozen, upsert-find, after_save-Keeps,
  select-Keeps,
}

is_frozen-chosen : (w : WebServer) → is_frozen (chosen w) ≡ true
is_frozen-chosen nginx = refl
is_frozen-chosen apache = refl

refused-not : (b : Bool) (e : Error) (u : Unit {0}) → refuse b e ≡ ok u → b ≡ false
refused-not true e u h = ground arith
refused-not false e u h = refl

module _ (rec : Option ((AuditRow → Bool) × Time × Result Text)) where
  get_setting-of :
      (old : Setting) (c : Conn Tables)
      → find_setting web_server_setting_key c.tables.server_settings ≡ ok old
      → ((get_setting web_server_setting_key c).0 ≡ ok old)
        ⊎ ((m : Text) × ((get_setting web_server_setting_key c).0 ≡ err (driver m)))
  unfolding get_setting
  get_setting-of old c h = exec-of_ok _ c old h

  driven : (m : Text) {u : Unit {0}} → check_read (err (driver m)) ≡ ok u → ⊥
  unfolding is
  driven m h = ground arith

  -- The checks of what was read end the method where it is a choice, or an error of the driver.
  check_current-frozen :
      (w : WebServer) (old : Setting) (current : Result Setting) (c : Conn Tables) (u v : Unit {0})
      → is_frozen old ≡ true
      → (current ≡ ok old) ⊎ ((m : Text) × (current ≡ err (driver m)))
      → check_read current ≡ ok u
      → (check_current (sql_service (recorder rec)) w current c).0 ≡ ok v
      → ⊥
  unfolding check_current fail
  check_current-frozen w old (err e) c u v f (inl q) r h = ground arith
  check_current-frozen w old (err e) c u v f (inr (m, q)) r h =
      driven m (subst (λ x. check_read x ≡ ok u) q r)
  check_current-frozen w old (ok s) c u v f (inr (m, q)) r h = ground arith
  check_current-frozen w old (ok s) c u v f (inl q) r h =
      let frozen = subst (λ x. is_frozen x ≡ true) (sym (ok-injective q)) f in
      let (x, _, h1, _) = >>=-eq-ok _ _ c v (rw frozen at h) in ground (arith, h1)

  select-never_ok :
      (old : Setting) (value : Text) (c : Conn Tables) (w : WebServer)
      → HasChoice old c.tables.server_settings
      → (select (sql_service (recorder rec)) value c).0 ≡ ok w
      → ⊥
  unfolding select
  select-never_ok old value c w (found, frozen) h =
      let (p, _, h1, _) = lift-eq-ok (parse_web_server value) _ c w h in
      let h2 = ap (λ x. x.0) (sym (attempt-then (get_setting web_server_setting_key) _ c)) ∙ h1 in
      let (u, read, h3, _) =
        lift-eq-ok (check_read (get_setting web_server_setting_key c).0) _ _ w h2 in
      let (v, checked, _, _) =
        >>=-eq-ok (check_current (sql_service (recorder rec)) p _) _ _ w h3 in
      check_current-frozen p old _ _ u v frozen (get_setting-of old c found) read checked

  -- Once a web server is chosen, every `Select`, of whatever value and wherever a statement fails,
  -- returns an error and leaves the table server_settings as it is.
  pub select-HasChoice :
      (old : Setting) (value : Text) (c : Conn Tables)
      → HasChoice old c.tables.server_settings
      → ((e : Error) × ((select (sql_service (recorder rec)) value c).0 ≡ err e))
        × ((select (sql_service (recorder rec)) value c).1.tables.server_settings
            ≡ c.tables.server_settings)
  select-HasChoice old value c h = (
    elim (Result-cases (select (sql_service (recorder rec)) value c).0) [
      | inl (w, e) ↦ absurd (select-never_ok old value c w h e)
      | inr q ↦ q
    ],
    (select-Keeps c.tables.server_settings rec value (λ w.
          upsert-frozen (chosen w) old c.tables.server_settings (ground (arith, h)) h.1)).after
        c refl,
  )

  save_setting-eq-ok :
      (setting : Setting) (c : Conn Tables) (u : Unit {0})
      → (save_setting setting c).0 ≡ ok u
      → find_setting setting.key (save_setting setting c).1.tables.server_settings ≡ ok setting
  unfolding save_setting lift
  save_setting-eq-ok setting c u h =
      let (n, ran, h1, q) = >>=-eq-ok _ _ c u h in
      let (counted, after) = exec-eq-ok _ c n ran in
      let nonzero = refused-not (n == 0) (sentinel web_server_already_selected) u h1 in
      ap (λ (x : Conn Tables). find_setting setting.key x.tables.server_settings) q
      ∙ ap (λ (t : Tables). find_setting setting.key t.server_settings) after
      ∙ upsert-find setting c.tables.server_settings
          (ap (λ k. k == 0) (ok-injective counted) ∙ nonzero)

  then_fail :
      {A B : Type 0} (m : Sql Tables A) (e : Error) (c : Conn Tables) (b : B)
      → ((m >>= λ _. fail e) c).0 ≡ ok b
      → ⊥
  unfolding fail
  then_fail m e c b h = let (_, _, h1, _) = >>=-eq-ok m _ c b h in ground (arith, h1)

  after_save-eq-ok :
      (p w : WebServer) (saved : Result (Unit {0})) (c : Conn Tables)
      → (after_save (sql_service (recorder rec)) p saved c).0 ≡ ok w
      → (p ≡ w) × (saved ≡ ok tt)
  unfolding after_save pure fail
  after_save-eq-ok p w (ok u) c h =
      let (v, _, h1, _) = >>=-eq-ok _ _ c w h in (ok-injective h1, refl)
  after_save-eq-ok p w (err e) c h = elim (Bool-cases (is web_server_already_selected e)) [
    | inl i ↦ absurd (then_fail _ e c w (rw i at h))
    | inr i ↦ absurd (ground (arith, rw i at h))
  ]

  -- The save of `Select`, and what follows it.
  abbrev saving : WebServer → Sql Tables WebServer
  saving p = attempt (save_setting (chosen p)) >>= after_save (sql_service (recorder rec)) p

  saving-eq-ok :
      (p w : WebServer) (c : Conn Tables)
      → (saving p c).0 ≡ ok w
      → (p ≡ w)
        × (find_setting web_server_setting_key (saving p c).1.tables.server_settings
            ≡ ok (chosen p))
  saving-eq-ok p w c h =
      let e =
        attempt-then (save_setting (chosen p)) (after_save (sql_service (recorder rec)) p) c in
      let (name, saved) = after_save-eq-ok p w _ _ (ap (λ x. x.0) (sym e) ∙ h) in
      let rows = (save_setting (chosen p) c).1.tables.server_settings in
      (
        name,
        ap (λ x. find_setting web_server_setting_key x.1.tables.server_settings) e
            ∙ ap (find_setting web_server_setting_key) (
                (after_save-Keeps rows rec p (save_setting (chosen p) c).0).after
                  (save_setting (chosen p) c).1 refl)
            ∙ save_setting-eq-ok (chosen p) c tt saved,
      )

  -- What follows the parsing.
  abbrev choosing : WebServer → Sql Tables WebServer
  choosing p = do
    current ← attempt (get_setting web_server_setting_key)
    lift (check_read current)
    check_current (sql_service (recorder rec)) p current
    saving p

  choosing-eq-ok :
      (p w : WebServer) (c : Conn Tables)
      → (choosing p c).0 ≡ ok w
      → (p ≡ w)
        × (find_setting web_server_setting_key (choosing p c).1.tables.server_settings
            ≡ ok (chosen p))
  choosing-eq-ok p w c h =
      let e =
        attempt-then (get_setting web_server_setting_key)
          (λ current.
            lift (check_read current)
            >> (check_current (sql_service (recorder rec)) p current >> saving p))
          c in
      let (u, _, h1, q1) = lift-eq-ok (check_read _) _ _ w (ap (λ x. x.0) (sym e) ∙ h) in
      let (v, _, h2, q2) = >>=-eq-ok (check_current (sql_service (recorder rec)) p _) _ _ w h1 in
      let (name, found) = saving-eq-ok p w _ h2 in
      let find =
        λ (x : Conn Tables). find_setting web_server_setting_key x.tables.server_settings in
      (name, ap find (ap (λ x. x.1) e ∙ q1 ∙ q2) ∙ found)

  value_of-chosen :
      (w : WebServer) → ((chosen w).value ≡ name_of w) × (parse_web_server (chosen w).value ≡ ok w)
  value_of-chosen nginx = (refl, parse_web_server-name_of nginx)
  value_of-chosen apache = (refl, parse_web_server-name_of apache)

  filled-chosen : (w : WebServer) → is_empty (chosen w).value ≡ false
  filled-chosen nginx = refl
  filled-chosen apache = refl

  -- `Selected` where the web server's choice is stored.
  selected-chosen :
      (service_of : Option (Event → Sql Tables Event)) (w : WebServer) (c : Conn Tables)
      → find_setting web_server_setting_key c.tables.server_settings ≡ ok (chosen w)
      → ((selected (sql_service service_of) c).0 ≡ ok w)
        ⊎ ((m : Text) × ((selected (sql_service service_of) c).0 ≡ err (driver m)))
  unfolding selected ◌>>=◌ lift
  selected-chosen service_of w c h = elim (get_setting-of (chosen w) c h) [
    | inl e ↦ inl (rw (e, filled-chosen w) (value_of-chosen w).1)
    | inr (m, e) ↦ inr (m, rw e refl)
  ]

  -- A `Select` that returns a web server has parsed it from the value, and has stored its name as a
  -- choice that cannot be replaced; `Selected` then returns this web server, or the driver's error.
  pub select-eq-ok :
      (value : Text) (c : Conn Tables) (w : WebServer)
      → (select (sql_service (recorder rec)) value c).0 ≡ ok w
      → (parse_web_server value ≡ ok w)
        × ((setting : Setting) × HasChoice setting
              (select (sql_service (recorder rec)) value c).1.tables.server_settings
            × (setting.value ≡ name_of w))
        × (((selected
                (sql_service (recorder rec))
                (select (sql_service (recorder rec)) value c).1).0
              ≡ ok w)
            ⊎ ((m : Text) × ((selected
                    (sql_service (recorder rec))
                    (select (sql_service (recorder rec)) value c).1).0
                  ≡ err (driver m))))
  unfolding select
  select-eq-ok value c w h =
      let (p, parsed, h1, q1) = lift-eq-ok (parse_web_server value) choosing c w h in
      let (name, found) = choosing-eq-ok p w c h1 in
      let find =
        λ (x : Conn Tables). find_setting web_server_setting_key x.tables.server_settings in
      let stored = ap find q1 ∙ found ∙ ap (λ x. ok (chosen x)) name in
      (
        parsed ∙ ap ok name,
        (chosen w, (stored, is_frozen-chosen w), (value_of-chosen w).0),
        selected-chosen (recorder rec) w (select (sql_service (recorder rec)) value c).1 stored,
      )
