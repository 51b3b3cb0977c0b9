-- ===== src/Auth/Bootstrap/First.antt =====
-- There is one first administrator (internal/auth/bootstrap.go over sqlstore.go).
use motekarindo_panel.Base.{
  ◌≡◌, refl, sym, ap, ◌∙◌, Bool, true, false, ◌&&◌, not, List, [], ◌∷◌, ◌++◌, any, length, ltb,
  ◌==◌, arith, inl, inr, Bool-cases, and-eq-true,
}
use motekarindo_panel.Base.Text.{Text, same}
use motekarindo_panel.Base.Error.{Error, Result, ok, ok-injective, refuse}
use motekarindo_panel.Base.Act.{pure, lift-eq-ok, >>=-eq-ok}
use motekarindo_panel.Base.Sql.{Conn, exec, exec-eq-ok}
use motekarindo_panel.Schema.{Time, AuditRow, UserRow, RoleRow, UserRole, Tables}
use motekarindo_panel.Audit.{record_event}
use motekarindo_panel.Audit.Laws.{record_event-eq-ok}
use motekarindo_panel.Jobs.SqlStore.Rows.Laws.{same_self}
use motekarindo_panel.Rbac.{role_owner}
use motekarindo_panel.Auth.Bootstrap.{
  BootstrapAdmin, count_users, user_row, user_clashes, insert_user, new_grants, grant_owner,
  bootstrap_event, enroll, insert_admin,
}

-- The user has a role named owner.
pub is_owner_of : Text → List RoleRow → List UserRole → Bool
is_owner_of id roles granted =
    any (λ g. same g.user_id id && any (λ r. same r.id g.role_id && same r.name role_owner) roles)
      granted

abbrev pub IsPassed : Result (Unit {0}) → Type 0
IsPassed r = r ≡ ok tt

pub refuse-eq-ok_false : (b : Bool) (e : Error) (u : Unit {0}) → refuse b e ≡ ok u → b ≡ false
refuse-eq-ok_false true e u h = ground arith
refuse-eq-ok_false false e u h = refl

no_users_of : (users : List UserRow) → ltb 0 (length users) ≡ false → users ≡ []
no_users_of [] h = refl
no_users_of (u ∷ users) h = absurd (ground (arith, h))

is_owner_of-append :
    (id : Text) (roles : List RoleRow) (g h : List UserRole)
    → is_owner_of id roles g ≡ true
    → is_owner_of id roles (g ++ h) ≡ true
unfolding is_owner_of
is_owner_of-append id roles [] h k = ground (arith, k)
is_owner_of-append id roles (x ∷ g) h k = ground (arith, k, is_owner_of-append id roles g h)

-- Grants of roles that stand in a longer list of roles.
new_grants-is_owner :
    (id : Text) (roles all_roles : List RoleRow) (granted : List UserRole)
    → ((r : RoleRow)
        → any (λ x. same x.id r.id && same x.name role_owner) roles ≡ true
        → any (λ x. same x.id r.id && same x.name role_owner) all_roles ≡ true)
    → (length (new_grants id roles granted) == 0) ≡ false
    → is_owner_of id all_roles (new_grants id roles granted) ≡ true
unfolding new_grants is_owner_of
new_grants-is_owner id [] all_roles granted k h = ground (arith, h)
new_grants-is_owner id (r ∷ roles) all_roles granted k h =
    let rest = new_grants-is_owner id roles all_roles granted (λ x q. k x (ground (arith, q))) in
    elim (Bool-cases (
      same r.name role_owner
      && not (any (λ g. same g.user_id id && same g.role_id r.id) granted))) [
        | inl e ↦
            let named =
              (and-eq-true (same r.name role_owner)
                (not (any (λ g. same g.user_id id && same g.role_id r.id) granted)) e).0 in
            rw (e, same_self id) (ground (arith, k r (rw (same_self r.id, named) refl)))
        | inr e ↦ rw e (rest (rw e at h))
      ]

module _ (accepts : AuditRow → Bool) (at : Time) (event_id : Result Text) where
  insert_user-eq-ok :
      (admin : BootstrapAdmin) (t : Tables) (u : Unit {0})
      → (insert_user admin t).0 ≡ ok u
      → (insert_user admin t).1 ≡ record t { users = user_row admin ∷ t.users }
  unfolding insert_user
  insert_user-eq-ok admin t u h = elim (Bool-cases (any (user_clashes (user_row admin)) t.users)) [
    | inl e ↦ absurd (ground (arith, rw e at h))
    | inr e ↦ rw e refl
  ]

  -- What the creation of an administrator finds and leaves.
  pub record IsFirst (admin : BootstrapAdmin) (t t' : Tables) : Type 0 where
    pub had_none : t.users ≡ []
    pub has_one : t'.users ≡ user_row admin ∷ []
    pub is_owner : is_owner_of admin.id t'.roles t'.user_roles ≡ true

  -- The rows of an administrator.
  record IsEnrolled (admin : BootstrapAdmin) (t t' : Tables) : Type 0 where
    has_user : t'.users ≡ user_row admin ∷ t.users
    is_owner : is_owner_of admin.id t'.roles t'.user_roles ≡ true

  grant_owner-is_owner :
      (id : Text) (t : Tables)
      → (length (new_grants id t.roles t.user_roles) == 0) ≡ false
      → is_owner_of id t.roles (new_grants id t.roles t.user_roles ++ t.user_roles) ≡ true
  grant_owner-is_owner id t h =
      is_owner_of-append id t.roles (new_grants id t.roles t.user_roles) t.user_roles
        (new_grants-is_owner id t.roles t.roles t.user_roles (λ r q. q) h)

  enroll-IsEnrolled :
      (admin : BootstrapAdmin) (c : Conn Tables) (u : Unit {0})
      → (enroll accepts at event_id admin c).0 ≡ ok u
      → IsEnrolled admin c.tables (enroll accepts at event_id admin c).1.tables
  unfolding enroll grant_owner pure
  enroll-IsEnrolled admin c u h =
      let (b, inserted, h1, q1) = >>=-eq-ok (exec (insert_user admin)) _ c u h in
      let (done, after) = exec-eq-ok (insert_user admin) c b inserted in
      let c1 = (exec (insert_user admin) c).1 in
      let (k, granted, h2, q2) = >>=-eq-ok (exec (grant_owner admin.id)) _ c1 u h1 in
      let (count, after2) = exec-eq-ok (grant_owner admin.id) c1 k granted in
      let c2 = (exec (grant_owner admin.id) c1).1 in
      let (x, some_role, h3, q3) = lift-eq-ok _ _ c2 u h2 in
      let (e, ran, _, q4) =
        >>=-eq-ok (record_event accepts at event_id (bootstrap_event admin)) _ c2 u h3 in
      let (_, recorded) = record_event-eq-ok accepts at event_id (bootstrap_event admin) c2 e ran in
      let (id, _, _, wrote) = recorded in
      let start = after ∙ insert_user-eq-ok admin c.tables b done in
      let counted =
        ap (λ n. n == 0) (ok-injective count) ∙ refuse-eq-ok_false (k == 0) _ x some_role in
      let end = ap (λ (y : Conn Tables). y.tables) (q1 ∙ q2 ∙ q3 ∙ q4) in
      let tables = end ∙ wrote in
      record {
        has_user =
            ap (λ (t : Tables). t.users) tables
            ∙ ap (λ (t : Tables). t.users) after2
            ∙ ap (λ (t : Tables). t.users) start;
        is_owner =
            ap (λ (t : Tables). is_owner_of admin.id t.roles t.user_roles) tables
            ∙ ap (λ (t : Tables). is_owner_of admin.id t.roles t.user_roles) after2
            ∙ grant_owner-is_owner admin.id c1.tables counted;
      }

  pub insert_admin-IsFirst :
      (admin : BootstrapAdmin) (c : Conn Tables) (u : Unit {0})
      → (insert_admin accepts at event_id admin c).0 ≡ ok u
      → IsFirst admin c.tables (insert_admin accepts at event_id admin c).1.tables
  unfolding insert_admin count_users
  insert_admin-IsFirst admin c u h =
      let (a, locked, h1, q1) = >>=-eq-ok _ _ c u h in
      let (_, same_c) = exec-eq-ok _ c a locked in
      let (n, counted, h2, q2) = >>=-eq-ok (exec count_users) _ _ u h1 in
      let (count, same_d) = exec-eq-ok count_users _ n counted in
      let (v, none_yet, h3, q3) = lift-eq-ok _ _ _ u h2 in
      let o = enroll-IsEnrolled admin _ u h3 in
      let start = ap (λ (t : Tables). t.users) (same_d ∙ same_c) in
      let empty = no_users_of c.tables.users (
        ap (λ (t : Tables). ltb 0 (length t.users)) (sym same_c)
        ∙ ap (λ k. ltb 0 k) (ok-injective count)
        ∙ refuse-eq-ok_false (ltb 0 n) _ v none_yet) in
      let end = ap (λ (y : Conn Tables). y.tables) (q1 ∙ q2 ∙ q3) in
      record {
        had_none = empty;
        has_one =
            ap (λ (t : Tables). t.users) end
            ∙ o.has_user
            ∙ ap (λ l. user_row admin ∷ l) (start ∙ empty);
        is_owner = ap (λ (t : Tables). is_owner_of admin.id t.roles t.user_roles) end ∙ o.is_owner;
      }
