-- ===== src/Jobs/SqlStore/Claim/Pick.antt =====
-- The ORDER BY … LIMIT 1 of the claim (Jobs/SqlStore/Claim.antt): what it picks, and when.
use mathlib.Core.List.{Memᴰ}
use motekarindo_panel.Base.{
  ◌≡◌, ◌⊎◌, refl, subst, Bool, true, false, Option, none, some, List, [], ◌∷◌, All, arith, inl, inr,
  Bool-cases,
}
use motekarindo_panel.Schema.{JobRow}
use motekarindo_panel.Jobs.SqlStore.Rows.Laws.{All-imp}
use motekarindo_panel.Jobs.SqlStore.Claim.{before, earlier, pick}

before_irrefl : (r : JobRow) → before r r ≡ false
unfolding before
before_irrefl r = ground arith

before_asymm : (r s : JobRow) → before r s ≡ true → before s r ≡ false
unfolding before
before_asymm r s h = ground arith

-- `x` is not before `s`, nor `s` before `r`.
before_trans : (r s x : JobRow) → before s r ≡ false → before x s ≡ false → before x r ≡ false
unfolding before
before_trans r s x h k = ground arith

-- A row of the list that the test passes and that no such row comes before.
pub record IsFirst (p : JobRow → Bool) (rows : List JobRow) (r : JobRow) : Type 0 where
  pub passes : p r ≡ true
  pub member : Memᴰ r rows
  pub first : All (λ s. p s ≡ true → before s r ≡ false) rows

module _ (p : JobRow → Bool) where
  IsFirst-skip :
      (x r : JobRow) (rows : List JobRow)
      → (p x ≡ true → before x r ≡ false)
      → IsFirst p rows r
      → IsFirst p (x ∷ rows) r
  IsFirst-skip x r rows h f = record {
    passes = f.passes;
    member = Memᴰ.tail f.member;
    first = (h, f.first);
  }

  -- Either no row passes and none is picked, or the first that passes is.
  abbrev pub Picked : List JobRow → Option JobRow → Type 0
  Picked rows o =
      ((o ≡ none) × All (λ s. p s ≡ false) rows) ⊎ ((r : JobRow) × (o ≡ some r) × IsFirst p rows r)

  earlier-IsFirst :
      (x s : JobRow) (rows : List JobRow)
      → p x ≡ true
      → IsFirst p rows s
      → (r : JobRow) × (earlier x (some s) ≡ some r) × IsFirst p (x ∷ rows) r
  unfolding earlier
  earlier-IsFirst x s rows h f = elim (Bool-cases (before s x)) [
    | inl e ↦ (s, rw e, IsFirst-skip x s rows (λ _. before_asymm s x e) f)
    | inr e ↦ (
      x,
      rw e,
      record {
        passes = h;
        member = Memᴰ.head refl;
        first = (
          λ _. before_irrefl x,
          All-imp (λ y. p y ≡ true → before y s ≡ false) (λ y. p y ≡ true → before y x ≡ false) rows
              (λ y g k. before_trans x s y e (g k)) f.first,
        );
      },
    )
  ]

  pub pick-Picked : (rows : List JobRow) → Picked rows (pick p rows)
  unfolding pick earlier
  pick-Picked [] = inl (refl, tt)
  pick-Picked (x ∷ rows) = elim (pick-Picked rows) [
    | inl (e, h) ↦ elim (Bool-cases (p x)) [
      | inl t ↦ inr (
        x,
        rw (t, e),
        record {
          passes = t;
          member = Memᴰ.head refl;
          first = (
            λ _. before_irrefl x,
            All-imp (λ y. p y ≡ false) (λ y. p y ≡ true → before y x ≡ false) rows (λ y g k. cc) h,
          );
        },
      )
      | inr t ↦ inl (rw (t, e), (t, h))
    ]
    | inr (s, e, f) ↦ elim (Bool-cases (p x)) [
      | inl t ↦ inr (rw (t, e) (earlier-IsFirst x s rows t f))
      | inr t ↦ inr (s, rw (t, e), IsFirst-skip x s rows (λ k. cc) f)
    ]
  ]

  pub pick-IsFirst : (rows : List JobRow) (r : JobRow) → pick p rows ≡ some r → IsFirst p rows r
  pick-IsFirst rows r h = elim (pick-Picked rows) [
    | inl (e, _) ↦ cc
    | inr (s, e, f) ↦ subst (IsFirst p rows) (cc) f
  ]
