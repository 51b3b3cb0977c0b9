-- ===== src/Base/Sql/Unless.antt =====
-- A transaction whose body may stop without an error: `return nil` under `defer tx.Rollback()`.
use mathlib.Core.Path.{◌≡◌, refl}
use mathlib.Core.Option.{Option, none, some}
use mathlib.Core.List.{List, [], ◌∷◌}
use native.Mathlib.Omega.{arith}
use motekarindo_panel.Base.Text.{Text}
use motekarindo_panel.Base.Error.{driver, Result, ok, err}
use motekarindo_panel.Base.Sql.{Conn, Sql, finish}

module _ {D A : Type 0} where
  finish_unless : D → Result (Option A) → List (Option Text) → D → Result (Option A) × Conn D
  unfolding finish
  finish_unless before (ok none) faults t = (ok none, record { tables = before; faults = faults })
  finish_unless before (ok (some a)) faults t = finish before (ok (some a)) faults t
  finish_unless before (err e) faults t = finish before (err e) faults t

  begun_unless : Sql D (Option A) → D → List (Option Text) → Result (Option A) × Conn D
  unfolding finish_unless
  begun_unless body t faults =
      let (r, c) = body (record { tables = t; faults = faults }) in
      finish_unless t r c.faults c.tables

  begin_unless : Sql D (Option A) → D → List (Option Text) → Result (Option A) × Conn D
  unfolding begun_unless
  begin_unless body t [] = begun_unless body t []
  begin_unless body t (none ∷ rest) = begun_unless body t rest
  begin_unless body t (some m ∷ rest) = (err (driver m), record { tables = t; faults = rest })

  -- The body, committed where it gives a value, rolled back where it gives none or fails.
  unfoldable pub transaction_unless : Sql D (Option A) → Sql D (Option A)
  unfolding begin_unless
  transaction_unless body c = begin_unless body c.tables c.faults

  -- The tables that a body which returned leaves.
  abbrev pub left_by : D → Option A → D → D
  left_by before none t = before
  left_by before (some a) t = t

  finish_unless-eq-ok :
      (before : D) (r : Result (Option A)) (faults : List (Option Text)) (t : D) (a : Option A)
      → (finish_unless before r faults t).0 ≡ ok a
      → (r ≡ ok a) × ((finish_unless before r faults t).1.tables ≡ left_by before a t)
  unfolding finish_unless finish
  finish_unless-eq-ok before (err e) faults t a h = ground arith
  finish_unless-eq-ok before (ok none) faults t none h = (h, refl)
  finish_unless-eq-ok before (ok none) faults t (some a) h = ground (arith, h)
  finish_unless-eq-ok before (ok (some b)) [] t none h = ground (arith, h)
  finish_unless-eq-ok before (ok (some b)) [] t (some a) h = (h, refl)
  finish_unless-eq-ok before (ok (some b)) (none ∷ rest) t none h = ground (arith, h)
  finish_unless-eq-ok before (ok (some b)) (none ∷ rest) t (some a) h = (h, refl)
  finish_unless-eq-ok before (ok (some b)) (some m ∷ rest) t a h = ground arith

  begin_unless-eq-ok :
      (body : Sql D (Option A)) (t : D) (faults : List (Option Text)) (a : Option A)
      → (begin_unless body t faults).0 ≡ ok a
      → (b : Conn D) × (b.tables ≡ t)
        × ((body b).0 ≡ ok a)
        × ((begin_unless body t faults).1.tables ≡ left_by t a (body b).1.tables)
  unfolding begin_unless
  begin_unless-eq-ok body t [] a h =
      let (e, k) = finish_unless-eq-ok t _ _ _ a h in
      (record { tables = t; faults = [] }, refl, e, k)
  begin_unless-eq-ok body t (none ∷ rest) a h =
      let (e, k) = finish_unless-eq-ok t _ _ _ a h in
      (record { tables = t; faults = rest }, refl, e, k)
  begin_unless-eq-ok body t (some m ∷ rest) a h = ground arith

  -- A transaction that returns ran its body, and committed what that left if it gave a value.
  pub transaction_unless-eq-ok :
      (body : Sql D (Option A)) (c : Conn D) (a : Option A)
      → (transaction_unless body c).0 ≡ ok a
      → (b : Conn D) × (b.tables ≡ c.tables)
        × ((body b).0 ≡ ok a)
        × ((transaction_unless body c).1.tables ≡ left_by c.tables a (body b).1.tables)
  unfolding transaction_unless
  transaction_unless-eq-ok body c a h = begin_unless-eq-ok body c.tables c.faults a h
