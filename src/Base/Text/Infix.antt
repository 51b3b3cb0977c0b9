-- ===== src/Base/Text/Infix.antt =====
-- Parts of a text: what trimming and cutting leave of it, and the words that they can contain.
use mathlib.Core.Path.{◌≡◌, refl, ap}
use mathlib.Core.Logic.{inl, inr}
use mathlib.Core.Bool.{true}
use mathlib.Core.List.{[], ◌∷◌, ◌++◌, map, append-nil, append_assoc, map-append}
use Prim.Native.Nat.{ℕ, zero, suc}
use native.Mathlib.Omega.{arith}
use motekarindo_panel.Base.Tests.{Bool-cases}
use motekarindo_panel.Base.Lists.{take}
use motekarindo_panel.Base.Text.{
  Text, is_space, trim_left, cons_unless_blank, trim_right, trim_space, to_lower, to_lower_rune,
  has_prefix, contains,
}

-- t is what is left of s without a beginning and an end.
pub record Infix (t s : Text) : Type 0 where
  pub front : Text
  pub back : Text
  pub joined : s ≡ front ++ (t ++ back)

pub Infix-refl : (s : Text) → Infix s s
Infix-refl s = record { front = []; back = []; joined = rw append-nil }

pub Infix-trans : {a b c : Text} → Infix a b → Infix b c → Infix a c
Infix-trans {a} h k = record {
  front = k.front ++ h.front;
  back = h.back ++ k.back;
  joined = rw (k.joined, h.joined) (simp append_assoc);
}

Infix-cons : (c : ℕ) {t s : Text} → Infix t s → Infix t (c ∷ s)
Infix-cons c h = record { front = c ∷ h.front; back = h.back; joined = ap (◌∷◌ c) h.joined }

trim_left-Infix : (s : Text) → Infix (trim_left s) s
unfolding trim_left
trim_left-Infix [] = Infix-refl []
trim_left-Infix (c ∷ s) = elim (Bool-cases (is_space c)) [
  | inl e ↦ rw e (Infix-cons c (trim_left-Infix s))
  | inr e ↦ rw e (Infix-refl (c ∷ s))
]

-- A beginning of a text.
IsStart : Text → Text → Type 0
IsStart t s = (back : Text) × (s ≡ t ++ back)

cons_unless_blank-IsStart :
    (c : ℕ) (t s : Text) → IsStart t s → IsStart (cons_unless_blank c t) (c ∷ s)
unfolding cons_unless_blank IsStart
cons_unless_blank-IsStart c [] s (back, e) = elim (Bool-cases (is_space c)) [
  | inl p ↦ rw p (c ∷ s, refl)
  | inr p ↦ rw p (s, refl)
]
cons_unless_blank-IsStart c (d ∷ t) s (back, e) = (back, ap (◌∷◌ c) e)

trim_right-IsStart : (s : Text) → IsStart (trim_right s) s
unfolding trim_right IsStart
trim_right-IsStart [] = ([], refl)
trim_right-IsStart (c ∷ s) = cons_unless_blank-IsStart c (trim_right s) s (trim_right-IsStart s)

take-IsStart : (n : ℕ) (s : Text) → IsStart (take n s) s
unfolding IsStart
take-IsStart zero s = (s, refl)
take-IsStart (suc n) [] = ([], refl)
take-IsStart (suc n) (c ∷ s) = let p = take-IsStart n s in (p.0, ap (◌∷◌ c) p.1)

Infix-IsStart : {t s : Text} → IsStart t s → Infix t s
unfolding IsStart
Infix-IsStart p = record { front = []; back = p.0; joined = p.1 }

pub take-Infix : (n : ℕ) (s : Text) → Infix (take n s) s
take-Infix n s = Infix-IsStart (take-IsStart n s)

pub trim_space-Infix : (s : Text) → Infix (trim_space s) s
unfolding trim_space
trim_space-Infix s =
    Infix-trans (Infix-IsStart (trim_right-IsStart (trim_left s))) (trim_left-Infix s)

has_prefix-append :
    (word s back : Text) → has_prefix word s ≡ true → has_prefix word (s ++ back) ≡ true
unfolding has_prefix
has_prefix-append [] s back h = refl
has_prefix-append (c ∷ word) [] back h = ground arith
has_prefix-append (c ∷ word) (d ∷ s) back h = ground (arith, has_prefix-append word s back)

contains-append_left :
    (word front s : Text) → contains s word ≡ true → contains (front ++ s) word ≡ true
unfolding contains
contains-append_left word [] s h = h
contains-append_left word (c ∷ front) s h = ground (arith, contains-append_left word front s h)

contains-of_prefix : (word s : Text) → has_prefix word s ≡ true → contains s word ≡ true
unfolding contains
contains-of_prefix word [] h = h
contains-of_prefix word (c ∷ s) h = rw h

contains-append_right :
    (word s back : Text) → contains s word ≡ true → contains (s ++ back) word ≡ true
unfolding contains
contains-append_right word [] back h =
    contains-of_prefix word back (has_prefix-append word [] back h)
contains-append_right word (c ∷ s) back h =
    ground (arith, has_prefix-append word (c ∷ s) back, contains-append_right word s back)

-- A part of a text mentions, in any case, only words that the whole mentions.
pub contains-Infix :
    (word : Text) {t s : Text}
    → Infix t s
    → contains (to_lower t) word ≡ true
    → contains (to_lower s) word ≡ true
unfolding to_lower
contains-Infix word h e =
    rw (h.joined, map-append, map-append)
      (contains-append_left word (map to_lower_rune h.front) _
        (contains-append_right word _ (map to_lower_rune h.back) e))
