-- ===== src/Auth/Session/Stored.antt =====
-- What the writing calls of internal/auth/session_sqlstore.go store.
use motekarindo_panel.Base.{
  ◌≡◌, refl, sym, ap, subst, ◌∙◌, Bool, true, ◌∷◌, arith, inl, inr, Bool-cases,
}
use motekarindo_panel.Base.Text.{Text}
use motekarindo_panel.Base.Error.{Result, ok}
use motekarindo_panel.Base.Act.{pure, >>=-eq-ok}
use motekarindo_panel.Base.Sql.{Conn, exec, exec-eq-ok, transaction-eq-ok}
use motekarindo_panel.Schema.{Time, AuditRow, Tables}
use motekarindo_panel.Audit.{record_event}
use motekarindo_panel.Audit.Check.{Event}
use motekarindo_panel.Audit.Laws.{IsRecorded, record_event-eq-ok}
use motekarindo_panel.Auth.Session.{SessionRecord}
use motekarindo_panel.Auth.Session.SqlStore.{
  ColumnTypes, session_row, admits_session, insert_session, record_audit, create_session,
}

module _ (types : ColumnTypes) where
  insert_session-eq-ok :
      (s : SessionRecord) (t : Tables) (u : Unit {0})
      → (insert_session types s t).0 ≡ ok u
      → (admits_session types (session_row types s) t ≡ true)
        × ((insert_session types s t).1 ≡ record t { sessions = session_row types s ∷ t.sessions })
  unfolding insert_session
  insert_session-eq-ok s t u h = elim (Bool-cases (admits_session types (session_row types s) t)) [
    | inl q ↦ rw q (refl, refl)
    | inr q ↦ absurd (ground (arith, rw q at h))
  ]

module _ (accepts : AuditRow → Bool) (at : Time) (event_id : Result Text) where
  pub record_audit-eq-ok :
      (e : Event) (c : Conn Tables) (u : Unit {0})
      → (record_audit accepts at event_id e c).0 ≡ ok u
      → (id : Text) × IsRecorded accepts at e id c.tables
          (record_audit accepts at event_id e c).1.tables
  unfolding record_audit pure
  record_audit-eq-ok e c u h =
      let (e', ran, _, q) = >>=-eq-ok (record_event accepts at event_id e) _ c u h in
      let (_, recorded) = record_event-eq-ok accepts at event_id e c e' ran in
      let (id, _, _, after) = recorded in (id, ap (λ (x : Conn Tables). x.tables) q ∙ after)

  -- The tables with a session and the row of its event.
  abbrev pub IsStored : ColumnTypes → SessionRecord → Event → Tables → Tables → Type 0
  IsStored types s e t t' =
      (id : Text) × IsRecorded accepts at e id
        (record t { sessions = session_row types s ∷ t.sessions }) t'

module _ (types : ColumnTypes) (accepts : AuditRow → Bool) (at : Time)
    (event_id : Result Text) where
  pub create_session-eq-ok :
      (s : SessionRecord) (e : Event) (c : Conn Tables) (u : Unit {0})
      → (create_session types accepts at event_id s e c).0 ≡ ok u
      → (admits_session types (session_row types s) c.tables ≡ true)
        × IsStored accepts at event_id types s e c.tables
            (create_session types accepts at event_id s e c).1.tables
  unfolding create_session
  create_session-eq-ok s e c u h =
      let (b, tables, ran, left) = transaction-eq-ok _ c u h in
      let (v, inserted, h1, q) = >>=-eq-ok (exec (insert_session types s)) _ b u ran in
      let (done, after) = exec-eq-ok _ b v inserted in
      let (admitted, row) = insert_session-eq-ok types s b.tables v done in
      let (id, recorded) = record_audit-eq-ok accepts at event_id e _ u h1 in
      let start =
        after
        ∙ row
        ∙ ap (λ (t : Tables). record t { sessions = session_row types s ∷ t.sessions }) tables in
      (
        ap (admits_session types (session_row types s)) (sym tables) ∙ admitted,
        (
          id,
          subst
              (λ t.
                IsRecorded accepts at e id t
                  (create_session types accepts at event_id s e c).1.tables)
              start (left ∙ ap (λ (x : Conn Tables). x.tables) q ∙ recorded),
        ),
      )
