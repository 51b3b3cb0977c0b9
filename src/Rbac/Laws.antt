-- ===== src/Rbac/Laws.antt =====
-- What the default roles allow (internal/rbac/rbac.go).
use motekarindo_panel.Base.{
  ◌≡◌, ◌||◌, refl, ap, subst, sym, Bool, true, false, List, [], ◌∷◌, any, all, and-eq-true, ◌∙◌,
  inl, inr, Bool-cases,
}
use motekarindo_panel.Base.Text.{Text, same, same_iff}
use motekarindo_panel.Base.Error.{Result, ok, err}
use motekarindo_panel.Rbac.{
  Role, role_owner, role_admin, role_reseller, role_customer, default_roles, all_permission_codes,
  role_permissions, has_entry, has_permission, role_by_name, find_role,
}

-- A role is known and lists the code.
abbrev pub grants : Result Role → Text → Bool
grants (err e) code = false
grants (ok role) code = any (λ c. same c code) role.permissions

-- The map of `HasPermission` and the search of `RoleByName` say the same of a name.
abbrev Agree : Text → Text → Type 0
Agree code name =
    has_entry (role_permissions default_roles []) name code ≡ grants (role_by_name name) code

Agree-same : (code r name : Text) → Agree code r → same r name ≡ true → Agree code name
Agree-same code r name h e = subst (Agree code) ((same_iff r name).0 e) h

Agree-owner : (code : Text) → Agree code role_owner
unfolding has_entry role_permissions role_by_name find_role
Agree-owner code = refl

Agree-admin : (code : Text) → Agree code role_admin
unfolding has_entry role_permissions role_by_name find_role
Agree-admin code = refl

Agree-reseller : (code : Text) → Agree code role_reseller
unfolding has_entry role_permissions role_by_name find_role
Agree-reseller code = refl

Agree-customer : (code : Text) → Agree code role_customer
unfolding has_entry role_permissions role_by_name find_role
Agree-customer code = refl

Agree-other :
    (code name : Text)
    → same role_owner name ≡ false
    → same role_admin name ≡ false
    → same role_reseller name ≡ false
    → same role_customer name ≡ false
    → Agree code name
unfolding has_entry role_permissions role_by_name find_role
Agree-other code name o a r c = rw (o, a, r, c) refl

Agree-all : (code name : Text) → Agree code name
Agree-all code name = elim (Bool-cases (same role_owner name)) [
  | inl o ↦ Agree-same code role_owner name (Agree-owner code) o
  | inr o ↦ elim (Bool-cases (same role_admin name)) [
    | inl a ↦ Agree-same code role_admin name (Agree-admin code) a
    | inr a ↦ elim (Bool-cases (same role_reseller name)) [
      | inl r ↦ Agree-same code role_reseller name (Agree-reseller code) r
      | inr r ↦ elim (Bool-cases (same role_customer name)) [
        | inl c ↦ Agree-same code role_customer name (Agree-customer code) c
        | inr c ↦ Agree-other code name o a r c
      ]
    ]
  ]
]

-- `HasPermission` of some role names is true exactly where `RoleByName` finds, of one of the names,
-- a role that lists the permission; unknown names grant nothing.
pub has_permission-role_by_name :
    (names : List Text) (code : Text)
    → has_permission names code ≡ any (λ name. grants (role_by_name name) code) names
unfolding has_permission
has_permission-role_by_name [] code = refl
has_permission-role_by_name (name ∷ names) code =
    rw (Agree-all code name, has_permission-role_by_name names code) refl

any-subset :
    (code : Text) (xs ys : List Text)
    → all (λ c. any (λ d. same d c) ys) xs ≡ true
    → any (λ c. same c code) xs ≡ true
    → any (λ d. same d code) ys ≡ true
any-subset code [] ys h k = cc
any-subset code (c ∷ xs) ys h k = elim (Bool-cases (same c code)) [
  | inl e ↦ subst (λ x. any (λ d. same d x) ys ≡ true) ((same_iff c code).0 e) (and-eq-true _ _ h).0
  | inr e ↦ any-subset code xs ys (and-eq-true _ _ h).1 (rw e at k)
]

or-false : (b : Bool) → (b || false) ≡ b
or-false true = refl
or-false false = refl

has_permission-one :
    (name code : Text) → has_permission (name ∷ []) code ≡ grants (role_by_name name) code
has_permission-one name code = has_permission-role_by_name (name ∷ []) code ∙ or-false _

-- A role may what another may, if it lists all that the other lists.
may :
    (r s : Text) {x y : Role}
    → role_by_name r ≡ ok x
    → role_by_name s ≡ ok y
    → all (λ c. any (λ d. same d c) y.permissions) x.permissions ≡ true
    → (code : Text) → has_permission (r ∷ []) code ≡ true
    → has_permission (s ∷ []) code ≡ true
may r s {x} {y} gr gs h code k =
    has_permission-one s code
    ∙ ap (λ q. grants q code) gs
    ∙ any-subset code x.permissions y.permissions h
        (sym (has_permission-one r code ∙ ap (λ q. grants q code) gr) ∙ k)

-- The roles are ordered: whatever a customer may, a reseller may, whatever a reseller may, an
-- administrator may, and whatever an administrator may, the owner may, who may everything that
-- there is a permission for.
pub has_permission-ordered :
    (code : Text)
    → (has_permission (role_customer ∷ []) code ≡ true
        → has_permission (role_reseller ∷ []) code ≡ true)
      × (has_permission (role_reseller ∷ []) code ≡ true
          → has_permission (role_admin ∷ []) code ≡ true)
      × (has_permission (role_admin ∷ []) code ≡ true
          → has_permission (role_owner ∷ []) code ≡ true)
      × (has_permission (role_owner ∷ []) code ≡ any (λ c. same c code) all_permission_codes)
unfolding role_by_name find_role same
has_permission-ordered code = (
  may role_customer role_reseller refl refl refl code,
  may role_reseller role_admin refl refl refl code,
  may role_admin role_owner refl refl refl code,
  has_permission-one role_owner code,
)
