-- ===== src/Database/Files/Distinct.antt =====
-- Migrations with different versions, and their sorting (internal/database/migration.go).
use motekarindo_panel.Base.{
  ◌≡◌, refl, ap, ◌∙◌, ℕ, Bool, false, ◌||◌, none, List, [], ◌∷◌, any, ltb, ◌==◌, arith, inl, inr,
  Bool-cases,
}
use motekarindo_panel.Base.Sort.{insert_by, sort_by, Chain}
use motekarindo_panel.Base.Text.{Text}
use motekarindo_panel.Database.{Migration}
use motekarindo_panel.Database.Files.{seen_as, version_le}

-- No migration of the list has the version.
abbrev pub has_version : ℕ → List Migration → Bool
has_version v ms = any (λ m. m.version == v) ms

-- The versions are all different.
unfoldable pub AreDistinct : List Migration → Type 0
AreDistinct [] = Unit {0}
AreDistinct (m ∷ ms) = (has_version m.version ms ≡ false) × AreDistinct ms

-- No version is one of those seen.
unfoldable pub AreFresh : List (ℕ × Text) → List Migration → Type 0
AreFresh seen [] = Unit {0}
AreFresh seen (m ∷ ms) = (seen_as m.version seen ≡ none) × AreFresh seen ms

abbrev pub version_lt : Migration → Migration → Bool
version_lt a b = ltb a.version b.version

has_version-insert_by :
    (v : ℕ) (m : Migration) (ms : List Migration)
    → has_version v (insert_by version_le m ms) ≡ ((m.version == v) || has_version v ms)
unfolding insert_by
has_version-insert_by v m [] = refl
has_version-insert_by v m (n ∷ ms) = elim (Bool-cases (version_le m n)) [
  | inl e ↦ rw e refl
  | inr e ↦ rw (e, has_version-insert_by v m ms) (ground arith)
]

has_version-sort_by :
    (v : ℕ) (ms : List Migration) → has_version v (sort_by version_le ms) ≡ has_version v ms
unfolding sort_by
has_version-sort_by v [] = refl
has_version-sort_by v (m ∷ ms) =
    has_version-insert_by v m (sort_by version_le ms)
    ∙ ap (λ b. (m.version == v) || b) (has_version-sort_by v ms)

insert_by-Chain :
    (m : Migration) (ms : List Migration)
    → has_version m.version ms ≡ false
    → Chain version_lt ms
    → Chain version_lt (insert_by version_le m ms)
unfolding insert_by
insert_by-Chain m [] a h = tt
insert_by-Chain m (n ∷ []) a h = elim (Bool-cases (version_le m n)) [
  | inl e ↦ rw e (ground (arith, a, e), tt)
  | inr e ↦ rw e (ground (arith, e), tt)
]
insert_by-Chain m (n ∷ k ∷ ms) a h =
    let rest = insert_by-Chain m (k ∷ ms) (ground (arith, a)) h.1 in
    elim (Bool-cases (version_le m n)) [
      | inl e ↦ rw e (ground (arith, a, e), h)
      | inr e ↦ rw e (elim (Bool-cases (version_le m k)) [
        | inl f ↦ rw f (ground (arith, e), rw f at rest)
        | inr f ↦ rw f (h.0, rw f at rest)
      ])
    ]

pub sort_by-Chain :
    (ms : List Migration) → AreDistinct ms → Chain version_lt (sort_by version_le ms)
unfolding sort_by AreDistinct
sort_by-Chain [] h = tt
sort_by-Chain (m ∷ ms) h =
    insert_by-Chain m (sort_by version_le ms) (has_version-sort_by m.version ms ∙ h.0)
      (sort_by-Chain ms h.1)

-- What is fresh after a version is not of it, and was fresh before.
pub AreFresh-cons :
    (v : ℕ) (name : Text) (seen : List (ℕ × Text)) (ms : List Migration)
    → AreFresh ((v, name) ∷ seen) ms
    → (has_version v ms ≡ false) × AreFresh seen ms
unfolding AreFresh seen_as
AreFresh-cons v name seen [] h = (refl, tt)
AreFresh-cons v name seen (m ∷ ms) h =
    let (absent, fresh) = AreFresh-cons v name seen ms h.1 in
    elim (Bool-cases (v == m.version)) [
      | inl e ↦ absurd (ground (arith, rw e at h.0))
      | inr e ↦ (ground (arith, e, absent), (rw e at h.0, fresh))
    ]
