-- ===== src/Base/Act.antt =====
-- Methods that change a state and can fail. What was written before an error stays written, so the
-- state comes back beside the error too.
use mathlib.Core.Path.{◌≡◌, refl}
use mathlib.Core.Logic.{◌⊎◌, inl, inr}
use native.Mathlib.Omega.{arith}
use motekarindo_panel.Base.Error.{Error, Result, ok, err}

abbrev pub Act : Type 0 → Type 0 → Type 0
Act S A = S → Result A × S

module _ {S A : Type 0} where
  unfoldable pub pure : A → Act S A
  pure a s = (ok a, s)

  unfoldable pub fail : Error → Act S A
  fail e s = (err e, s)

  unfoldable pub lift : Result A → Act S A
  lift r s = (r, s)

  -- The error is given to the caller, who goes on.
  unfoldable pub attempt : Act S A → Act S (Result A)
  attempt m s = (ok (m s).0, (m s).1)

module _ {S A B : Type 0} where
  abbrev pub continue : Result A → (A → Act S B) → Act S B
  continue (ok a) f s = f a s
  continue (err e) f s = (err e, s)

  infixl 10 ◌>>=◌ ◌>>◌
  -- opening this opens `pure`, `fail` and `lift` too
  unfoldable pub ◌>>=◌ : Act S A → (A → Act S B) → Act S B
  unfolding pure fail lift
  ◌>>=◌ m f s = let (r, s') = m s in continue r f s'

  abbrev pub ◌>>◌ : Act S A → Act S B → Act S B
  m >> n = m >>= λ _. n

  continue-eq-ok :
      (r : Result A) (f : A → Act S B) (s : S) (b : B)
      → (continue r f s).0 ≡ ok b
      → (a : A) × (r ≡ ok a) × ((f a s).0 ≡ ok b) × ((continue r f s).1 ≡ (f a s).1)
  continue-eq-ok (ok a) f s b h = (a, refl, h, refl)
  continue-eq-ok (err e) f s b h = ground arith

  -- A chain that returns: its first step returned, and the rest from there.
  pub >>=-eq-ok :
      (m : Act S A) (f : A → Act S B) (s : S) (b : B)
      → ((m >>= f) s).0 ≡ ok b
      → (a : A) × ((m s).0 ≡ ok a) × ((f a (m s).1).0 ≡ ok b) × (((m >>= f) s).1 ≡ (f a (m s).1).1)
  unfolding ◌>>=◌
  >>=-eq-ok m f s b h = continue-eq-ok (m s).0 f (m s).1 b h

  pub lift-eq-ok :
      (r : Result A) (f : A → Act S B) (s : S) (b : B)
      → ((lift r >>= f) s).0 ≡ ok b
      → (a : A) × (r ≡ ok a) × ((f a s).0 ≡ ok b) × (((lift r >>= f) s).1 ≡ (f a s).1)
  unfolding ◌>>=◌ lift
  lift-eq-ok r f s b h = continue-eq-ok r f s b h

module _ {S A B : Type 0} where
  continue-eq-err :
      (r : Result A) (f : A → Act S B) (s : S) (e : Error)
      → (continue r f s).0 ≡ err e
      → ((x : Error) × (r ≡ err x) × ((continue r f s).1 ≡ s))
        ⊎ ((a : A) × ((f a s).0 ≡ err e) × ((continue r f s).1 ≡ (f a s).1))
  continue-eq-err (ok a) f s e h = inr (a, h, refl)
  continue-eq-err (err x) f s e h = inl (x, refl, refl)

  -- A chain that fails: its first step failed, or the rest from there.
  pub >>=-eq-err :
      (m : Act S A) (f : A → Act S B) (s : S) (e : Error)
      → ((m >>= f) s).0 ≡ err e
      → ((x : Error) × ((m s).0 ≡ err x) × (((m >>= f) s).1 ≡ (m s).1))
        ⊎ ((a : A) × ((f a (m s).1).0 ≡ err e) × (((m >>= f) s).1 ≡ (f a (m s).1).1))
  unfolding ◌>>=◌
  >>=-eq-err m f s e h = continue-eq-err (m s).0 f (m s).1 e h

  pub attempt-then :
      (m : Act S A) (f : Result A → Act S B) (s : S) → (attempt m >>= f) s ≡ f (m s).0 (m s).1
  unfolding ◌>>=◌ attempt
  attempt-then m f s = refl
