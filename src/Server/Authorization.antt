-- ===== src/Server/Authorization.antt =====
-- `Server.RequirePermission` of internal/server/authorization.go: what it answers a request, before
-- the next handler.
use motekarindo_panel.Base.{
  ℕ, ◌≡◌, refl, ap, subst, Bool, ◌||◌, not, Option, none, some, if◌then◌else◌, arith, Bool-cases,
  inl, inr,
}
use motekarindo_panel.Base.Text.{Text, txt, is_empty, trim_space}
use motekarindo_panel.Base.Error.{is, invalid_session, forbidden, Result, ok, err}
use motekarindo_panel.Base.Act.{Act}
use motekarindo_panel.Auth.Session.{Principal}

-- An error with its HTTP status and code, or the call of the next handler.
pub data Answer : Type 0 where
  refused : ℕ → Text → Answer
  served : Principal → Answer

abbrev pub internal_error : Answer
internal_error = refused 500 (txt "internal_error")

abbrev pub unauthenticated : Answer
unauthenticated = refused 401 (txt "unauthenticated")

abbrev pub blank : Text → Bool
blank s = is_empty (trim_space s)

-- The cookie's value, where there is one that is not blank.
abbrev pub cookie_value : Option Text → Option Text
cookie_value none = none
cookie_value (some v) = if blank v then none else some v

unfoldable pub after_authorize : {S : Type 0} → Principal → Result (Unit {0}) × S → Answer × S
after_authorize p (ok u, s) = (served p, s)
after_authorize p (err e, s) =
    (if is forbidden e then refused 403 (txt "forbidden") else internal_error, s)

module _ {S : Type 0} (validate : Text → Act S Principal)
    (authorize : Text → Text → Act S (Unit {0})) (permission : Text) where
  unfoldable pub after_validate : Result Principal × S → Answer × S
  unfolding after_authorize
  after_validate (ok p, s) = after_authorize p (authorize p.user_id permission s)
  after_validate (err e, s) = (if is invalid_session e then unauthenticated else internal_error, s)

  unfoldable pub with_cookie : Option Text → S → Answer × S
  unfolding after_validate
  with_cookie none s = (unauthenticated, s)
  with_cookie (some v) s = after_validate (validate v s)

  -- `wired` is whether the sessions, the authorization and the next handler are set.
  unfoldable pub require_permission : Bool → Option Text → S → Answer × S
  unfolding with_cookie
  require_permission wired cookie s =
      if not wired || blank permission
      then (internal_error, s)
      else with_cookie (cookie_value cookie) s

  -- What has happened before the next handler is called for a principal.
  pub record Admitted (cookie : Option Text) (s : S) (p : Principal) : Type 0 where
    pub value : Text
    pub has_cookie : cookie_value cookie ≡ some value
    pub is_valid : (validate value s).0 ≡ ok p
    pub is_allowed : (authorize p.user_id permission (validate value s).1).0 ≡ ok tt

  after_authorize-served :
      (p q : Principal) (r : Result (Unit {0})) (s : S)
      → (after_authorize p (r, s)).0 ≡ served q
      → (p ≡ q) × (r ≡ ok tt)
  unfolding after_authorize
  after_authorize-served p q (ok u) s h = (ground (arith, h), refl)
  after_authorize-served p q (err e) s h = ground arith

  after_validate-served :
      (q : Principal) (r : Result Principal) (s : S)
      → (after_validate (r, s)).0 ≡ served q
      → (r ≡ ok q) × ((authorize q.user_id permission s).0 ≡ ok tt)
  unfolding after_validate
  after_validate-served q (ok p) s h =
      let (e, k) =
        after_authorize-served p q (authorize p.user_id permission s).0
          (authorize p.user_id permission s).1 h in
      (ap ok e, subst (λ x. (authorize x.user_id permission s).0 ≡ ok tt) e k)
  after_validate-served q (err e) s h = ground arith

  with_cookie-served :
      (cookie : Option Text) (q : Principal) (s : S)
      → (with_cookie cookie s).0 ≡ served q
      → (v : Text) × (cookie ≡ some v)
        × ((validate v s).0 ≡ ok q)
        × ((authorize q.user_id permission (validate v s).1).0 ≡ ok tt)
  unfolding with_cookie
  with_cookie-served none q s h = ground arith
  with_cookie-served (some v) q s h =
      let (a, b) = after_validate-served q (validate v s).0 (validate v s).1 h in (v, refl, a, b)

  -- The next handler is called for a principal only if the request has a cookie that is not blank,
  -- the session of its value is valid for this principal, and the principal's user is authorized
  -- for the permission, in this order.
  pub require_permission-Admitted :
      (wired : Bool) (cookie : Option Text) (s : S) (p : Principal)
      → (require_permission wired cookie s).0 ≡ served p
      → Admitted cookie s p
  unfolding require_permission
  require_permission-Admitted wired cookie s p h =
      elim (Bool-cases (not wired || blank permission)) [
        | inl e ↦ absurd (ground (arith, rw e at h))
        | inr e ↦
            let (v, c, a, b) = with_cookie-served (cookie_value cookie) p s (rw e at h) in
            record { value = v; has_cookie = c; is_valid = a; is_allowed = b }
      ]
