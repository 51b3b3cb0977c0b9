-- ===== src/Base/Text/Decimal.antt =====
-- `%d` of a number that is not negative, and `strconv.Atoi`, which takes a sign and the digits of a
-- number in the range of a 64-bit int.
use mathlib.Core.Path.{◌≡◌, refl, ap}
use mathlib.Core.Logic.{◌≢◌, inl, inr}
use mathlib.Core.Bool.{Bool, true, false, ◌&&◌, ◌||◌, not}
use mathlib.Core.Option.{Option, none, some}
use mathlib.Core.List.{[], ◌∷◌, ◌++◌}
use Prim.Native.Nat.{ℕ, zero, suc, ◌+◌, ◌-◌, ◌*◌, ◌/◌, ◌%◌, ◌^◌, ◌<◌}
use native.Mathlib.Omega.{arith}
use motekarindo_panel.Base.Tests.{ltb, leb, ◌==◌, if◌then◌else◌, Bool-cases}
use motekarindo_panel.Base.Lists.{all}
use motekarindo_panel.Base.Int.{ℤ, pos, negsuc}
use motekarindo_panel.Base.Text.{Text, is_empty}
use motekarindo_panel.Base.Text.Split.{lacks}

-- The digits of a number below 10 to the power of the fuel.
unfoldable pub digits : ℕ → ℕ → Text
digits zero n = []
digits (suc fuel) n =
    let front = digits fuel (n / 10) in
    if ltb n 10 then (b'0' + n) ∷ [] else front ++ ((b'0' + n % 10) ∷ [])

-- %d of a number below 10 ^ 20, which every uint64 is
unfoldable pub decimal : ℕ → Text
unfolding digits
decimal = digits 20

abbrev pub is_digit : ℕ → Bool
is_digit c = leb b'0' c && leb c b'9'

unfoldable pub read_digits : ℕ → Text → ℕ
read_digits n [] = n
read_digits n (c ∷ s) = read_digits (n * 10 + (c - b'0')) s

-- Behind the sign: the number, if there are digits and nothing else.
unfoldable pub unsigned : Text → Option ℕ
unfolding read_digits
unsigned s = if is_empty s || not (all is_digit s) then none else some (read_digits 0 s)

abbrev pub signed : Bool → Option ℕ → Option ℤ
signed negative none = none
signed true (some zero) = some (pos 0)
signed true (some (suc n)) = if leb (suc n) (2 ^ 63) then some (negsuc n) else none
signed false (some n) = if ltb n (2 ^ 63) then some (pos n) else none

-- strconv.Atoi; `none` is an error
unfoldable pub atoi : Text → Option ℤ
unfolding unsigned
atoi [] = none
atoi (c ∷ s) =
    if c == b'-'
    then signed true (unsigned s)
    else if c == b'+'
    then signed false (unsigned s)
    else signed false (unsigned (c ∷ s))

read_digits-append : (n : ℕ) (s t : Text) → read_digits n (s ++ t) ≡ read_digits (read_digits n s) t
unfolding read_digits
read_digits-append n [] t = refl
read_digits-append n (c ∷ s) t = read_digits-append (n * 10 + (c - b'0')) s t

all-append_one :
    (p : ℕ → Bool) (s : Text) (c : ℕ) → all p s ≡ true → p c ≡ true → all p (s ++ (c ∷ [])) ≡ true
all-append_one p [] c h k = ground (arith, k)
all-append_one p (d ∷ s) c h k = ground (arith, all-append_one p s c, k)

digits-all : (fuel n : ℕ) → all is_digit (digits fuel n) ≡ true
unfolding digits
digits-all zero n = refl
digits-all (suc fuel) n = elim (Bool-cases (ltb n 10)) [
  | inl e ↦ rw e (ground arith)
  | inr e ↦ rw e (
      all-append_one is_digit (digits fuel (n / 10)) (b'0' + n % 10) (digits-all fuel (n / 10))
        (ground arith))
]

read_digits-digits : (fuel n : ℕ) → n < 10 ^ fuel → read_digits 0 (digits fuel n) ≡ n
unfolding digits read_digits
read_digits-digits zero n h = omega arith
read_digits-digits (suc fuel) n h = elim (Bool-cases (ltb n 10)) [
  | inl e ↦ rw e (omega arith)
  | inr e ↦
      rw
        (
          e,
          read_digits-append 0 (digits fuel (n / 10)) ((b'0' + n % 10) ∷ []),
          read_digits-digits fuel (n / 10) (omega arith),
        )
        (omega arith)
]

snoc-filled : (s : Text) (c : ℕ) → is_empty (s ++ (c ∷ [])) ≡ false
snoc-filled [] c = refl
snoc-filled (d ∷ s) c = refl

digits-filled : (fuel n : ℕ) → is_empty (digits (suc fuel) n) ≡ false
unfolding digits
digits-filled fuel n = elim (Bool-cases (ltb n 10)) [
  | inl e ↦ rw e refl
  | inr e ↦ rw e (snoc-filled (digits fuel (n / 10)) _)
]

-- What is printed is read back.
pub unsigned-decimal : (n : ℕ) → n < 10 ^ 20 → unsigned (decimal n) ≡ some n
unfolding unsigned decimal
unsigned-decimal n h =
    rw (digits-filled 19 n, digits-all 20 n) (ap some (read_digits-digits 20 n h))

-- Digits are no other characters.
pub lacks-digits :
    (c : ℕ) (s : Text) → is_digit c ≡ false → all is_digit s ≡ true → lacks c s ≡ true
lacks-digits c [] h k = refl
lacks-digits c (d ∷ s) h k = elim (Bool-cases (d == c)) [
  | inl e ↦ absurd (ground (arith, e, h, k))
  | inr e ↦ rw e (lacks-digits c s h (ground (arith, k)))
]

pub lacks-decimal : (c n : ℕ) → is_digit c ≡ false → lacks c (decimal n) ≡ true
unfolding decimal
lacks-decimal c n h = lacks-digits c _ h (digits-all 20 n)

decimal-all : (n : ℕ) → all is_digit (decimal n) ≡ true
unfolding decimal
decimal-all n = digits-all 20 n

empty-refused : (n : ℕ) → unsigned [] ≢ some n
unfolding unsigned
empty-refused n h = cc

-- A text that starts with a digit is read as it stands.
atoi-unsigned :
    (s : Text) (n : ℕ)
    → all is_digit s ≡ true
    → unsigned s ≡ some n
    → n < 2 ^ 63
    → atoi s ≡ some (pos n)
unfolding atoi
atoi-unsigned [] n h k l = absurd (empty-refused n k)
atoi-unsigned (c ∷ s) n h k l = rw k (ground (arith, h, l))

pub atoi-decimal : (n : ℕ) → n < 2 ^ 63 → atoi (decimal n) ≡ some (pos n)
atoi-decimal n h = atoi-unsigned (decimal n) n (decimal-all n) (unsigned-decimal n (omega arith)) h
