-- ===== src/Auth/Session/Closing.antt =====
-- What a logout does to the sessions (internal/auth/session.go over session_sqlstore.go).
use mathlib.Core.List.{Memᴰ}
use motekarindo_panel.Base.{
  ◌⊎◌, ◌≡◌, ◌≢◌, refl, sym, ap, subst, ◌∙◌, Bool, false, Option, none, some, List, [], ◌∷◌, arith,
  inl, inr, Bool-cases,
}
use motekarindo_panel.Base.Text.{Text, same, same_iff, is_empty}
use motekarindo_panel.Base.Error.{Result, ok, ok-injective}
use motekarindo_panel.Base.Act.{◌>>=◌, pure, >>=-eq-ok}
use motekarindo_panel.Base.Sql.{Conn, exec, exec-eq-ok}
use motekarindo_panel.Base.Sql.Unless.{transaction_unless, transaction_unless-eq-ok, left_by}
use motekarindo_panel.Schema.{Time, AuditRow, SessionRow, Tables}
use motekarindo_panel.Audit.Check.{Event}
use motekarindo_panel.Auth.{Toolkit}
use motekarindo_panel.Auth.Session.{Principal, LogoutInput, logout_event, logout, validate}
use motekarindo_panel.Auth.Session.SqlStore.{
  ColumnTypes, deleted_session, other_sessions, delete_sessions, record_deleted,
  delete_session_by_token_hash, record_audit, sql_session_store,
}
use motekarindo_panel.Auth.Session.Stored.{record_audit-eq-ok}
use motekarindo_panel.Auth.Session.Lifetime.{validate-IsAlive}

other_sessions-none :
    (hash : Text) (sessions : List SessionRow)
    → deleted_session hash sessions ≡ none
    → other_sessions hash sessions ≡ sessions
unfolding deleted_session other_sessions
other_sessions-none hash [] h = refl
other_sessions-none hash (s ∷ sessions) h = elim (Bool-cases (same s.token_hash hash)) [
  | inl e ↦ absurd (ground (arith, rw e at h))
  | inr e ↦ rw e (ap (λ x. s ∷ x) (other_sessions-none hash sessions (rw e at h)))
]

Memᴰ-split : {A : Type 0} {a x : A} {xs : List A} → Memᴰ a (x ∷ xs) → (a ≡ x) ⊎ Memᴰ a xs
Memᴰ-split (Memᴰ.head e) = inl e
Memᴰ-split (Memᴰ.tail m) = inr m

other_sessions-lacks :
    (hash : Text) (sessions : List SessionRow) (s : SessionRow)
    → Memᴰ s (other_sessions hash sessions)
    → s.token_hash ≢ hash
unfolding other_sessions
other_sessions-lacks hash [] s m e = elim m [ ]
other_sessions-lacks hash (x ∷ sessions) s m e = elim (Bool-cases (same x.token_hash hash)) [
  | inl b ↦ other_sessions-lacks hash sessions s (rw b at m) e
  | inr b ↦ elim (Memᴰ-split (rw b at m)) [
    | inl q ↦
        let hit = (same_iff x.token_hash hash).1 (ap (λ r. r.token_hash) (sym q) ∙ e) in
        absurd (ground (arith, hit, b))
    | inr k ↦ other_sessions-lacks hash sessions s k e
  ]
]

module _ (accepts : AuditRow → Bool) (at : Time) (event_id : Result Text) where
  record_deleted-sessions :
      (event : Event) (found : Option SessionRow) (c : Conn Tables) (r : Option (Unit {0}))
      (before : Tables)
      → (record_deleted accepts at event_id event found c).0 ≡ ok r
      → (found ≡ none → before.sessions ≡ c.tables.sessions)
      → (left_by before r (record_deleted accepts at event_id event found c).1.tables).sessions
        ≡ c.tables.sessions
  unfolding record_deleted pure
  record_deleted-sessions event none c r before h k =
      subst (λ x. (left_by before x c.tables).sessions ≡ c.tables.sessions) (ok-injective h)
        (k refl)
  record_deleted-sessions event (some s) c r before h k =
      let e = record event { actor_user_id = s.user_id; target_id = s.id } in
      let (u, ran, h1, q) = >>=-eq-ok (record_audit accepts at event_id e) _ c r h in
      let (id, recorded) = record_audit-eq-ok accepts at event_id e c u ran in
      let left =
        ap (λ (x : Conn Tables). x.tables.sessions) q ∙ ap (λ (t : Tables). t.sessions) recorded in
      subst
        (λ x.
          (left_by before x (record_deleted accepts at event_id event (some s) c).1.tables).sessions
          ≡ c.tables.sessions)
        (ok-injective h1) left

  -- A deletion that returns leaves the other sessions.
  delete_session_by_token_hash-eq-ok :
      (hash : Text) (event : Event) (c : Conn Tables) (u : Unit {0})
      → (delete_session_by_token_hash accepts at event_id hash event c).0 ≡ ok u
      → (delete_session_by_token_hash accepts at event_id hash event c).1.tables.sessions
        ≡ other_sessions hash c.tables.sessions
  unfolding delete_session_by_token_hash delete_sessions pure
  delete_session_by_token_hash-eq-ok hash event c u h =
      let body = exec (delete_sessions hash) >>= record_deleted accepts at event_id event in
      let (r, ran, _, q) = >>=-eq-ok (transaction_unless body) _ c u h in
      let (b, tables, inside, left) = transaction_unless-eq-ok body c r ran in
      let (found, scanned, h1, q1) = >>=-eq-ok (exec (delete_sessions hash)) _ b r inside in
      let (done, after) = exec-eq-ok _ b found scanned in
      let sessions = λ (t : Tables). t.sessions in
      let others = ap sessions after ∙ ap (λ (t : Tables). other_sessions hash t.sessions) tables in
      let kept = λ (n : found ≡ none). sym (
        others
        ∙ other_sessions-none hash c.tables.sessions (
            ap (λ (t : Tables). deleted_session hash t.sessions) (sym tables)
            ∙ ok-injective done
            ∙ n)) in
      ap (λ (x : Conn Tables). x.tables.sessions) q
      ∙ ap sessions left
      ∙ ap (λ (x : Conn Tables). (left_by c.tables r x.tables).sessions) q1
      ∙ record_deleted-sessions event found (exec (delete_sessions hash) b).1 r c.tables h1 kept
      ∙ others

  abbrev pub IsClosed : ColumnTypes → Toolkit → Text → Conn Tables → Conn Tables → Type 0
  IsClosed types lib token c c' =
      (c'.tables.sessions ≡ other_sessions (lib.hash_session_token token) c.tables.sessions)
      × ((now : Time) (p : Principal)
          → (validate (sql_session_store types accepts at event_id) lib now token c').0 ≢ ok p)

  -- A logout that returns has removed the sessions stored under the hash of the token and no other,
  -- and no `Validate` of the token finds a principal in what it leaves.
  pub logout-IsClosed :
      (types : ColumnTypes) (lib : Toolkit) (input : LogoutInput) (c : Conn Tables) (u : Unit {0})
      → is_empty input.token ≡ false
      → (logout (sql_session_store types accepts at event_id) lib input c).0 ≡ ok u
      → IsClosed types lib input.token c
          (logout (sql_session_store types accepts at event_id) lib input c).1
  unfolding logout sql_session_store
  logout-IsClosed types lib input c u filled h =
      let hash = lib.hash_session_token input.token in
      let others =
        delete_session_by_token_hash-eq-ok hash (logout_event input) c u (rw filled at h) in
      rw filled (
        others,
        λ now p k.
            let alive = validate-IsAlive types accepts at event_id lib now input.token _ p k in
            other_sessions-lacks hash c.tables.sessions alive.session
              (subst (λ x. Memᴰ alive.session x) others alive.has_session) alive.has_hash,
      )
