-- ===== src/Base/Text/Split.antt =====
-- `strings.Split` at one character, `strings.Cut`, and what they give of a text joined by hand.
use mathlib.Core.Path.{◌≡◌, refl}
use mathlib.Core.Bool.{Bool, true, not}
use mathlib.Core.Option.{Option, none, some}
use mathlib.Core.List.{List, [], ◌∷◌, ◌++◌}
use mathlib.Core.Logic.{inl, inr}
use Prim.Native.Nat.{ℕ}
use native.Mathlib.Omega.{arith}
use motekarindo_panel.Base.Tests.{◌==◌, if◌then◌else◌, Bool-cases}
use motekarindo_panel.Base.Lists.{all}
use motekarindo_panel.Base.Text.{Text}

-- strings.Cut(s, "=")
unfoldable pub cut : Text → Option (Text × Text)
cut [] = none
cut (c ∷ s) =
    let rest = cut s in
    if c == b'=' then some ([], s) else elim rest [ none ↦ none | some (k, v) ↦ some (c ∷ k, v) ]

abbrev pub cons_head : ℕ → List Text → List Text
cons_head d [] = (d ∷ []) ∷ []
cons_head d (s ∷ parts) = (d ∷ s) ∷ parts

-- strings.Split(s, c)
unfoldable pub split : ℕ → Text → List Text
split c [] = [] ∷ []
split c (d ∷ s) = let rest = split c s in if d == c then [] ∷ rest else cons_head d rest

-- The text does not have the character.
abbrev pub lacks : ℕ → Text → Bool
lacks c s = all (λ d. not (d == c)) s

pub split-append : (c : ℕ) (s t : Text) → lacks c s ≡ true → split c (s ++ (c ∷ t)) ≡ s ∷ split c t
unfolding split
split-append c [] t h = ground arith
split-append c (d ∷ s) t h = elim (Bool-cases (d == c)) [
  | inl e ↦ absurd (ground (arith, e, h))
  | inr e ↦ rw (e, split-append c s t (ground (arith, e, h))) refl
]

pub split-whole : (c : ℕ) (s : Text) → lacks c s ≡ true → split c s ≡ s ∷ []
unfolding split
split-whole c [] h = refl
split-whole c (d ∷ s) h = elim (Bool-cases (d == c)) [
  | inl e ↦ absurd (ground (arith, e, h))
  | inr e ↦ rw (e, split-whole c s (ground (arith, e, h))) refl
]
