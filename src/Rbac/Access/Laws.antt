-- ===== src/Rbac/Access/Laws.antt =====
-- Whom the authorizer lets in (internal/rbac).
use mathlib.Core.List.{Memᴰ}
use motekarindo_panel.Base.{
  ◌≡◌, ◌⊎◌, refl, sym, ap, ◌∙◌, Bool, true, false, ◌||◌, List, [], ◌∷◌, any, arith, inl, inr,
  Bool-cases, and-eq-true,
}
use motekarindo_panel.Base.Text.{Text, txt, same_iff, trim_space}
use motekarindo_panel.Base.Error.{Result, ok, err, ok-injective}
use motekarindo_panel.Base.Act.{lift, lift-eq-ok, attempt-then}
use motekarindo_panel.Base.Sql.{Conn, exec-eq-ok}
use motekarindo_panel.Schema.{UserRow, PermissionRow, UserRole, RolePermission, Tables}
use motekarindo_panel.Rbac.Access.{
  is_granted, is_active_user, is_global, is_assigned, has_account_permission_row, check_permission,
  has_permission_row, authorize, check_account_permission, decide, authorize_account,
}

-- A row of the list that passes.
abbrev pub Some : {A : Type 0} → (A → Bool) → List A → Type 0
Some {A} p xs = (x : A) × Memᴰ x xs × (p x ≡ true)

any-Some : {A : Type 0} (p : A → Bool) (xs : List A) → any p xs ≡ true → Some p xs
any-Some p [] h = cc
any-Some p (x ∷ xs) h = elim (Bool-cases (p x)) [
  | inl e ↦ (x, Memᴰ.head refl, e)
  | inr e ↦ let (y, m, k) = any-Some p xs (rw e at h) in (y, Memᴰ.tail m, k)
]

or-true : (a b : Bool) → (a || b) ≡ true → (a ≡ true) ⊎ (b ≡ true)
or-true true b h = inl refl
or-true false b h = inr h

-- A role of the user, by its id, a permission of the role, and the code of the permission.
pub record Grant (t : Tables) (code : Text) (u : UserRow) : Type 0 where
  pub link : UserRole
  pub linked : Memᴰ link t.user_roles
  pub of_user : link.user_id ≡ u.id
  pub share : RolePermission
  pub shared : Memᴰ share t.role_permissions
  pub of_role : share.role_id ≡ link.role_id
  pub permission : PermissionRow
  pub listed : Memᴰ permission t.permissions
  pub of_share : permission.id ≡ share.permission_id
  pub has_code : permission.code ≡ code

is_granted-Grant :
    (t : Tables) (code : Text) (u : UserRow) → is_granted t code u ≡ true → Grant t code u
unfolding is_granted
is_granted-Grant t code u h =
    let (ur, m, p) = any-Some _ t.user_roles h in
    let (mine, rest) = and-eq-true _ _ p in
    let (rp, n, q) = any-Some _ t.role_permissions rest in
    let (role, rest') = and-eq-true _ _ q in
    let (pr, o, r) = any-Some _ t.permissions rest' in
    let (share', code') = and-eq-true _ _ r in
    record {
      link = ur;
      linked = m;
      of_user = (same_iff _ _).0 mine;
      share = rp;
      shared = n;
      of_role = (same_iff _ _).0 role;
      permission = pr;
      listed = o;
      of_share = (same_iff _ _).0 share';
      has_code = (same_iff _ _).0 code';
    }

-- An active user of the id, a role of his that lists a permission of the code, and a reason why the
-- account is his: a role named owner or admin, or an assignment.
abbrev pub MayUse : Tables → Text → Text → Text → Type 0
MayUse t user_id code account_id =
    (u : UserRow) × Memᴰ u t.users
    × (is_active_user user_id u ≡ true)
    × Grant t code u
    × ((is_global t u ≡ true) ⊎ (is_assigned t account_id u ≡ true))

decide-ok :
    (message : Text) (allowed : Result Bool) (u : Unit {0})
    → decide message allowed ≡ ok u
    → allowed ≡ ok true
unfolding decide
decide-ok message (err e) u h = ground arith
decide-ok message (ok true) u h = refl
decide-ok message (ok false) u h = ground arith

-- An active user of the id, and a role of his that lists a permission of the code.
abbrev pub MayDo : Tables → Text → Text → Type 0
MayDo t user_id code =
    (u : UserRow) × Memᴰ u t.users × (is_active_user user_id u ≡ true) × Grant t code u

-- The user whom `Authorize` lets in is active and has a role with the permission. A failed query lets
-- nobody in.
pub authorize-MayDo :
    (user_id code : Text) (c : Conn Tables) (u : Unit {0})
    → (authorize user_id code c).0 ≡ ok u
    → MayDo c.tables user_id code
unfolding authorize check_permission has_permission_row lift
authorize-MayDo user_id code c u h =
    let query = check_permission user_id code in
    let (_, _, h1, _) = lift-eq-ok _ _ c u h in
    let h2 =
      ap (λ x. x.0) (sym (attempt-then query (λ r. lift (decide (txt "check permission") r)) c))
      ∙ h1 in
    let allowed = decide-ok (txt "check permission") (query c).0 u h2 in
    let (ran, _) = exec-eq-ok _ c true allowed in
    let (x, m, p) = any-Some _ c.tables.users (ok-injective ran) in
    let (active, granted) = and-eq-true _ _ p in
    (x, m, active, is_granted-Grant c.tables code x granted)

-- The user who is let into an account is active, has a role with the permission, and is an owner or
-- administrator or is assigned to the account. A failed query lets nobody in.
pub authorize_account-MayUse :
    (user_id code account_id : Text) (c : Conn Tables) (u : Unit {0})
    → (authorize_account user_id code account_id c).0 ≡ ok u
    → MayUse c.tables user_id code (trim_space account_id)
unfolding authorize_account check_account_permission has_account_permission_row lift
authorize_account-MayUse user_id code account_id c u h =
    let account = trim_space account_id in
    let query = check_account_permission user_id code account in
    let (_, _, h1, _) = lift-eq-ok _ _ c u h in
    let h2 =
      ap (λ x. x.0)
        (sym (attempt-then query (λ r. lift (decide (txt "check account permission") r)) c))
      ∙ h1 in
    let allowed = decide-ok (txt "check account permission") (query c).0 u h2 in
    let (ran, _) = exec-eq-ok _ c true allowed in
    let (x, m, p) = any-Some _ c.tables.users (ok-injective ran) in
    let (both, mine) = and-eq-true _ _ p in
    let (active, granted) = and-eq-true _ _ both in
    (x, m, active, is_granted-Grant c.tables code x granted, or-true _ _ mine)
