-- ===== src/Auth/Bootstrap/Created.antt =====
-- What `BootstrapService.CreateFirstAdmin` has checked and stored, and when it is refused
-- (internal/auth/bootstrap.go over sqlstore.go).
use motekarindo_panel.Base.{
  ◌≡◌, ◌≢◌, refl, sym, ap, subst, ◌∙◌, ℕ, Bool, false, List, [], ltb, inl, inr,
}
use motekarindo_panel.Base.Text.{Text, is_empty, byte_len, trim_space}
use motekarindo_panel.Base.Error.{Error, Result, Result-cases, ok, err, ok-injective}
use motekarindo_panel.Base.Act.{pure, lift-eq-ok, >>=-eq-ok}
use motekarindo_panel.Base.Sql.{Conn, transaction-eq-ok, transaction_err}
use motekarindo_panel.Base.Sql.Keeps.{Keeps, Keeps-bind, Keeps-lift, Keeps-pure}
use motekarindo_panel.Schema.{Time, AuditRow, Tables}
use motekarindo_panel.Auth.{Toolkit}
use motekarindo_panel.Auth.Password.{PasswordHashParams, hash_password}
use motekarindo_panel.Auth.Bootstrap.{
  BootstrapInput, BootstrapAdmin, admin_of, normalize_email, create_first_admin, insert_admin,
  create_admin, min_bootstrap_password_length,
}
use motekarindo_panel.Auth.Bootstrap.First.{IsFirst, insert_admin-IsFirst, refuse-eq-ok_false}

module _ (accepts : AuditRow → Bool) (at : Time) (event_id : Result Text) where
  create_admin-IsFirst :
      (admin : BootstrapAdmin) (c : Conn Tables) (u : Unit {0})
      → (create_admin accepts at event_id admin c).0 ≡ ok u
      → IsFirst accepts at event_id admin c.tables
          (create_admin accepts at event_id admin c).1.tables
  unfolding create_admin
  create_admin-IsFirst admin c u h =
      let (b, tables, ran, left) = transaction-eq-ok _ c u h in
      subst
        (λ t.
          IsFirst accepts at event_id admin t (create_admin accepts at event_id admin c).1.tables)
        tables
        (subst (λ t. IsFirst accepts at event_id admin b.tables t) (sym left)
          (insert_admin-IsFirst accepts at event_id admin b u ran))

  -- Where there is a user, the store refuses another first administrator.
  create_admin-Keeps :
      (admin : BootstrapAdmin) (t : Tables)
      → t.users ≢ []
      → Keeps (λ s. s ≡ t) (create_admin accepts at event_id admin)
  unfolding create_admin
  create_admin-Keeps admin t h = record {
    after = λ c e. elim (Result-cases (create_admin accepts at event_id admin c).0) [
      | inl (u, k) ↦
          absurd
            (h (ap (λ (s : Tables). s.users) (sym e) ∙ (create_admin-IsFirst admin c u k).had_none))
      | inr (x, k) ↦ transaction_err (insert_admin accepts at event_id admin) c k ∙ e
    ];
  }

  module _ (lib : Toolkit) (params : PasswordHashParams) (new_id : Result Text)
      (random : Result (List ℕ)) (input : BootstrapInput) where
    -- What has been checked of the input, and what is stored.
    pub record Created (admin : BootstrapAdmin) (t t' : Tables) : Type 0 where
      pub has_email : normalize_email lib input.email ≡ ok admin.email
      pub has_name :
          (admin.display_name ≡ trim_space input.display_name)
          × (is_empty admin.display_name ≡ false)
      pub is_long : ltb (byte_len input.password) min_bootstrap_password_length ≡ false
      pub has_id : new_id ≡ ok admin.id
      pub is_hashed : hash_password lib input.password params random ≡ ok admin.password_hash
      pub is_first : IsFirst accepts at event_id admin t t'

    -- A `CreateFirstAdmin` that returns an administrator has checked the address, the name and the
    -- password's 12 bytes, found no user, and left the administrator as the one user, active, with
    -- the hash of the password and the role of the owner.
    pub create_first_admin-Created :
        (c : Conn Tables) (admin : BootstrapAdmin)
        → (create_first_admin lib (create_admin accepts at event_id) params new_id random input c).0
          ≡ ok admin
        → Created admin c.tables
            (create_first_admin lib
              (create_admin accepts at event_id)
              params
              new_id
              random
              input
              c).1.tables
    unfolding create_first_admin pure
    create_first_admin-Created c admin h =
        let (email, has_email, h1, q1) = lift-eq-ok (normalize_email lib input.email) _ c admin h in
        let (u, named, h2, q2) = lift-eq-ok _ _ c admin h1 in
        let (v, long, h3, q3) = lift-eq-ok _ _ c admin h2 in
        let (id, has_id, h4, q4) = lift-eq-ok new_id _ c admin h3 in
        let (hash, hashed, h5, q5) =
          lift-eq-ok (hash_password lib input.password params random) _ c admin h4 in
        let made = admin_of id email (trim_space input.display_name) hash in
        let (w, created, h6, q6) = >>=-eq-ok (create_admin accepts at event_id made) _ c admin h5 in
        let left = ap (λ (y : Conn Tables). y.tables) (q1 ∙ q2 ∙ q3 ∙ q4 ∙ q5 ∙ q6) in
        let first = create_admin-IsFirst made c w created in
        let t' =
          (create_first_admin lib (create_admin accepts at event_id) params new_id random input
            c).1.tables in
        subst (λ a. Created a c.tables t') (ok-injective h6)
          (record {
            has_email = has_email;
            has_name = (refl, refuse-eq-ok_false _ _ u named);
            is_long = refuse-eq-ok_false _ _ v long;
            has_id = has_id;
            is_hashed = hashed;
            is_first = subst (IsFirst accepts at event_id made c.tables) (sym left) first;
          })

    create_first_admin-Keeps :
        (t : Tables)
        → t.users ≢ []
        → Keeps
            (λ s. s ≡ t)
            (create_first_admin lib (create_admin accepts at event_id) params new_id random input)
    unfolding create_first_admin
    create_first_admin-Keeps t h = Keeps-bind _ _ (Keeps-lift _) (λ email.
        Keeps-bind _ _ (Keeps-lift _) (λ u. Keeps-bind _ _ (Keeps-lift _) (λ v.
          Keeps-bind _ _ (Keeps-lift _) (λ id.
            Keeps-bind _ _ (Keeps-lift _)
              (λ hash. Keeps-bind _ _ (create_admin-Keeps _ t h) (λ w. Keeps-pure _))))))

    -- Where there is a user, every `CreateFirstAdmin` fails and changes no table.
    pub create_first_admin-IsRefused :
        (c : Conn Tables)
        → c.tables.users ≢ []
        → ((e : Error) × ((create_first_admin lib
                (create_admin accepts at event_id)
                params
                new_id
                random
                input
                c).0
              ≡ err e))
          × ((create_first_admin lib
                (create_admin accepts at event_id)
                params
                new_id
                random
                input
                c).1.tables
              ≡ c.tables)
    create_first_admin-IsRefused c h = (
      elim (Result-cases
          (create_first_admin lib (create_admin accepts at event_id) params new_id random input
            c).0) [
              | inl (admin, e) ↦ absurd (h (create_first_admin-Created c admin e).is_first.had_none)
              | inr q ↦ q
            ],
      (create_first_admin-Keeps c.tables h).after c refl,
    )
