-- ===== src/Base/Sort.antt =====
-- ORDER BY: the order of ids, insertion sort by a Boolean order, and chains that are in order.
use mathlib.Core.Path.{◌≡◌, refl, ap, ◌∙◌}
use mathlib.Core.Bool.{Bool, true, false}
use mathlib.Core.Logic.{inl, inr}
use mathlib.Core.List.{List, [], ◌∷◌, Perm}
use mathlib.Core.List.Perm
use Prim.Native.Nat.{ℕ, zero, suc}
use native.Mathlib.Omega.{arith}
use mathlib.Core.Bool.{◌&&◌, ◌||◌, not}
use motekarindo_panel.Base.Tests.{ltb, ◌==◌, if◌then◌else◌, Bool-cases}
use motekarindo_panel.Base.Lists.{take, any}
use motekarindo_panel.Base.Text.{Text, same}

-- The order of ids, which the server prints in one length and in lower case.
unfoldable pub text_lt : Text → Text → Bool
text_lt [] [] = false
text_lt [] (d ∷ t) = true
text_lt (c ∷ s) [] = false
text_lt (c ∷ s) (d ∷ t) = ltb c d || ((c == d) && text_lt s t)

pub text_lt_asymm : (s t : Text) → text_lt s t ≡ true → text_lt t s ≡ false
unfolding text_lt
text_lt_asymm [] [] h = refl
text_lt_asymm [] (d ∷ t) h = refl
text_lt_asymm (c ∷ s) [] h = ground arith
text_lt_asymm (c ∷ s) (d ∷ t) h = ground (arith, text_lt_asymm s t)

module _ {A : Type 0} (le : A → A → Bool) where
  unfoldable pub insert_by : A → List A → List A
  insert_by x [] = x ∷ []
  insert_by x (y ∷ ys) = let rest = insert_by x ys in if le x y then x ∷ y ∷ ys else y ∷ rest

  unfoldable pub sort_by : List A → List A
  unfolding insert_by
  sort_by [] = []
  sort_by (x ∷ xs) = insert_by x (sort_by xs)

  -- Each element is in order with the next.
  abbrev pub Chain : List A → Type 0
  Chain [] = Unit {0}
  Chain (x ∷ []) = Unit {0}
  Chain (x ∷ y ∷ ys) = (le x y ≡ true) × Chain (y ∷ ys)

  module _ (total : (x y : A) → le x y ≡ false → le y x ≡ true) where
    insert_by-Chain : (x : A) (ys : List A) → Chain ys → Chain (insert_by x ys)
    unfolding insert_by
    insert_by-Chain x [] h = tt
    insert_by-Chain x (y ∷ []) h = elim (Bool-cases (le x y)) [
      | inl e ↦ rw e (e, tt)
      | inr e ↦ rw e (total x y e, tt)
    ]
    insert_by-Chain x (y ∷ z ∷ zs) h =
        let rest = insert_by-Chain x (z ∷ zs) h.1 in
        elim (Bool-cases (le x y)) [
          | inl e ↦ rw e (e, h)
          | inr e ↦ rw e (elim (Bool-cases (le x z)) [
            | inl f ↦ rw f (total x y e, rw f at rest)
            | inr f ↦ rw f (h.0, rw f at rest)
          ])
        ]

    pub sort_by-Chain : (xs : List A) → Chain (sort_by xs)
    unfolding sort_by
    sort_by-Chain [] = tt
    sort_by-Chain (x ∷ xs) = insert_by-Chain x (sort_by xs) (sort_by-Chain xs)

  pub take-Chain : (n : ℕ) (xs : List A) → Chain xs → Chain (take n xs)
  take-Chain zero xs h = tt
  take-Chain (suc n) [] h = tt
  take-Chain (suc zero) (x ∷ xs) h = tt
  take-Chain (suc (suc n)) (x ∷ []) h = tt
  take-Chain (suc (suc n)) (x ∷ y ∷ ys) h = (h.0, take-Chain (suc n) (y ∷ ys) h.1)

-- What a sorted list has is what the list had.
module _ {A : Type 0} (le : A → A → Bool) where
  insert_by-Perm : (x : A) (ys : List A) → Perm (insert_by le x ys) (x ∷ ys)
  unfolding insert_by
  insert_by-Perm x [] = Perm.rfl
  insert_by-Perm x (y ∷ ys) = elim (Bool-cases (le x y)) [
    | inl e ↦ rw e Perm.rfl
    | inr e ↦ rw e (Perm.trans (Perm.cons y (insert_by-Perm x ys)) (Perm.swap x y ys))
  ]

  pub sort_by-Perm : (xs : List A) → Perm (sort_by le xs) xs
  unfolding sort_by
  sort_by-Perm [] = Perm.rfl
  sort_by-Perm (x ∷ xs) =
      Perm.trans (insert_by-Perm x (sort_by le xs)) (Perm.cons x (sort_by-Perm xs))

  pub any-insert_by :
      (p : A → Bool) (x : A) (ys : List A) → any p (insert_by le x ys) ≡ (p x || any p ys)
  unfolding insert_by
  any-insert_by p x [] = refl
  any-insert_by p x (y ∷ ys) = elim (Bool-cases (le x y)) [
    | inl e ↦ rw e refl
    | inr e ↦ rw (e, any-insert_by p x ys) (ground arith)
  ]

  pub any-sort_by : (p : A → Bool) (xs : List A) → any p (sort_by le xs) ≡ any p xs
  unfolding sort_by
  any-sort_by p [] = refl
  any-sort_by p (x ∷ xs) = any-insert_by p x (sort_by le xs) ∙ ap (λ b. p x || b) (any-sort_by p xs)

-- Strict order where no element is the same as another.
module _ {A : Type 0} (lt equal : A → A → Bool)
    (total : (a b : A) → equal b a ≡ false → lt b a ≡ false → lt a b ≡ true) where
  abbrev pub AreDistinct : List A → Type 0
  AreDistinct [] = Unit {0}
  AreDistinct (x ∷ xs) = (any (λ k. equal k x) xs ≡ false) × AreDistinct xs

  insert_by-strict :
      (x : A) (ys : List A)
      → any (λ k. equal k x) ys ≡ false
      → Chain lt ys
      → Chain lt (insert_by (λ a b. not (lt b a)) x ys)
  unfolding insert_by
  insert_by-strict x [] a h = tt
  insert_by-strict x (y ∷ []) a h = elim (Bool-cases (lt y x)) [
    | inl e ↦ rw e (e, tt)
    | inr e ↦ rw e (total x y (ground (arith, a)) e, tt)
  ]
  insert_by-strict x (y ∷ z ∷ zs) a h =
      let rest = insert_by-strict x (z ∷ zs) (ground (arith, a)) h.1 in
      elim (Bool-cases (lt y x)) [
        | inr e ↦ rw e (total x y (ground (arith, a)) e, h)
        | inl e ↦ rw e (elim (Bool-cases (lt z x)) [
          | inr f ↦ rw f (e, rw f at rest)
          | inl f ↦ rw f (h.0, rw f at rest)
        ])
      ]

  pub sort_by-strict : (xs : List A) → AreDistinct xs → Chain lt (sort_by (λ a b. not (lt b a)) xs)
  unfolding sort_by
  sort_by-strict [] h = tt
  sort_by-strict (x ∷ xs) h =
      insert_by-strict x (sort_by (λ a b. not (lt b a)) xs)
        (any-sort_by (λ a b. not (lt b a)) (λ k. equal k x) xs ∙ h.0) (sort_by-strict xs h.1)

pub text_lt_total : (a b : Text) → same b a ≡ false → text_lt b a ≡ false → text_lt a b ≡ true
unfolding text_lt same
text_lt_total [] [] h k = ground (arith, h)
text_lt_total [] (d ∷ t) h k = refl
text_lt_total (c ∷ s) [] h k = ground (arith, k)
text_lt_total (c ∷ s) (d ∷ t) h k = ground (arith, h, k, text_lt_total s t)
