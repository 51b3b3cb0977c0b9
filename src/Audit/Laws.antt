-- ===== src/Audit/Laws.antt =====
-- What an audit write leaves alone (internal/audit).
use motekarindo_panel.Base.{◌≡◌, refl, sym, ap, ◌∙◌, Bool, List, ◌∷◌, arith, inl, inr, Bool-cases}
use motekarindo_panel.Base.Text.{Text}
use motekarindo_panel.Base.Error.{Result, ok, ok-injective}
use motekarindo_panel.Base.Act.{pure, lift-eq-ok, >>=-eq-ok}
use motekarindo_panel.Base.Sql.{Conn, exec-eq-ok}
use motekarindo_panel.Base.Sql.Keeps.{Keeps, Keeps-exec, Keeps-bind, Keeps-lift, Keeps-pure}
use motekarindo_panel.Schema.{Time, AuditRow, Tables}
use motekarindo_panel.Audit.{insert_event, write, complete, record_event}
use motekarindo_panel.Audit.Check.{Event, trim_event, check_event, audit_row}

module _ {P : Tables → Type 0}
    (stays : (t : Tables) (rows : List AuditRow) → P t → P (record t { audit_events = rows }))
    (accepts : AuditRow → Bool) where
  insert_event-keeps : (e : Event) (t : Tables) → P t → P (insert_event accepts e t).1
  unfolding insert_event
  insert_event-keeps e t h = elim (Bool-cases (accepts (audit_row e))) [
    | inl q ↦ rw q (stays t _ h)
    | inr q ↦ rw q h
  ]

  write-Keeps : (e : Event) → Keeps P (write accepts e)
  unfolding write
  write-Keeps e = Keeps-exec _ (insert_event-keeps e)

  pub record_event-Keeps :
      (now : Time) (new_id : Result Text) (e : Event) → Keeps P (record_event accepts now new_id e)
  unfolding record_event
  record_event-Keeps now new_id e = Keeps-bind _ _ (Keeps-lift _) (λ _.
      Keeps-bind _ _ (Keeps-lift _) (λ id. Keeps-bind _ _ (write-Keeps _) (λ _. Keeps-pure _)))

module _ (accepts : AuditRow → Bool) where
  insert_event-eq-ok :
      (e : Event) (t : Tables) (u : Unit {0})
      → (insert_event accepts e t).0 ≡ ok u
      → (insert_event accepts e t).1 ≡ record t { audit_events = audit_row e ∷ t.audit_events }
  unfolding insert_event
  insert_event-eq-ok e t u h = elim (Bool-cases (accepts (audit_row e))) [
    | inl q ↦ rw q refl
    | inr q ↦ absurd (ground (arith, rw q at h))
  ]

  -- The row of an event as `Record` completes it stands in front of the others.
  abbrev pub IsRecorded : Time → Event → Text → Tables → Tables → Type 0
  IsRecorded now e id t t' = t' ≡ record t {
    audit_events = audit_row (complete accepts now (trim_event e) id) ∷ t.audit_events;
  }

  -- A `Record` that returns had an id and a trimmed event that passes every check; it returns this
  -- event completed, and has written its row and nothing else.
  pub record_event-eq-ok :
      (now : Time) (new_id : Result Text) (e : Event) (c : Conn Tables) (e' : Event)
      → (record_event accepts now new_id e c).0 ≡ ok e'
      → (check_event (trim_event e) ≡ ok tt)
        × ((id : Text) × (new_id ≡ ok id)
            × (e' ≡ complete accepts now (trim_event e) id)
            × IsRecorded now e id c.tables (record_event accepts now new_id e c).1.tables)
  unfolding record_event pure write
  record_event-eq-ok now new_id e c e' h =
      let (u, check, h1, q1) = lift-eq-ok (check_event (trim_event e)) _ c e' h in
      let (id, drawn, h2, q2) = lift-eq-ok new_id _ c e' h1 in
      let (v, ran, h3, q3) =
        >>=-eq-ok (write accepts (complete accepts now (trim_event e) id)) _ c e' h2 in
      let (wrote, after) = exec-eq-ok _ c v ran in
      let left = ap (λ (x : Conn Tables). x.tables) (q1 ∙ q2 ∙ q3) in
      (
        check,
        (id, drawn, sym (ok-injective h3), left ∙ after ∙ insert_event-eq-ok _ c.tables v wrote),
      )
