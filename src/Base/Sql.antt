-- ===== src/Base/Sql.antt =====
-- database/sql over one connection: statements that can fail, and transactions.
pub mod Keeps
pub mod Unless
use mathlib.Core.Path.{◌≡◌, refl}
use mathlib.Core.Logic.{◌⊎◌, inl, inr}
use mathlib.Core.Option.{Option, none, some}
use mathlib.Core.List.{List, [], ◌∷◌}
use native.Mathlib.Omega.{arith}
use motekarindo_panel.Base.Text.{Text}
use motekarindo_panel.Base.Error.{Error, driver, Result, ok, err}
use motekarindo_panel.Base.Act.{Act}

-- The committed tables, and for each statement to come the message with which the server or the
-- network fails it, if it does. After the list's end nothing fails.
pub record Conn (D : Type 0) : Type 0 where
  pub tables : D
  pub faults : List (Option Text)

abbrev pub Sql : Type 0 → Type 0 → Type 0
Sql D A = Act (Conn D) A

-- The message with which the next statement is failed, if it is.
abbrev pub next_fault : List (Option Text) → Option Text
next_fault [] = none
next_fault (fault ∷ rest) = fault

module _ {D A : Type 0} where
  on_tables : (D → Result A × D) → List (Option Text) → D → Result A × Conn D
  on_tables run rest t = let (r, t') = run t in (r, record { tables = t'; faults = rest })

  exec_with : (D → Result A × D) → List (Option Text) → D → Result A × Conn D
  unfolding on_tables
  exec_with run [] t = on_tables run [] t
  exec_with run (none ∷ rest) t = on_tables run rest t
  exec_with run (some m ∷ rest) t = (err (driver m), record { tables = t; faults = rest })

  -- One statement: it fails with the driver's error, or runs on the tables.
  unfoldable pub exec : (D → Result A × D) → Sql D A
  unfolding exec_with
  exec run c = exec_with run c.faults c.tables

  exec_with-eq-ok :
      (run : D → Result A × D) (faults : List (Option Text)) (t : D) (a : A)
      → (exec_with run faults t).0 ≡ ok a
      → ((run t).0 ≡ ok a) × ((exec_with run faults t).1.tables ≡ (run t).1)
  unfolding exec_with
  exec_with-eq-ok run [] t a h = (h, refl)
  exec_with-eq-ok run (none ∷ rest) t a h = (h, refl)
  exec_with-eq-ok run (some m ∷ rest) t a h = ground arith

  -- A statement that returned ran on the tables.
  pub exec-eq-ok :
      (run : D → Result A × D) (c : Conn D) (a : A)
      → (exec run c).0 ≡ ok a
      → ((run c.tables).0 ≡ ok a) × ((exec run c).1.tables ≡ (run c.tables).1)
  unfolding exec
  exec-eq-ok run c a h = exec_with-eq-ok run c.faults c.tables a h

  exec_with-cases :
      (run : D → Result A × D) (faults : List (Option Text)) (t : D)
      → ((next_fault faults ≡ none)
          × ((exec_with run faults t).0 ≡ (run t).0)
          × ((exec_with run faults t).1.tables ≡ (run t).1))
        ⊎ ((m : Text) × (next_fault faults ≡ some m)
            × ((exec_with run faults t).0 ≡ err (driver m))
            × ((exec_with run faults t).1.tables ≡ t))
  unfolding exec_with
  exec_with-cases run [] t = inl (refl, refl, refl)
  exec_with-cases run (none ∷ rest) t = inl (refl, refl, refl)
  exec_with-cases run (some m ∷ rest) t = inr (m, refl, refl, refl)

  -- A statement runs on the tables, or is failed and leaves them.
  pub exec-cases :
      (run : D → Result A × D) (c : Conn D)
      → ((next_fault c.faults ≡ none)
          × ((exec run c).0 ≡ (run c.tables).0)
          × ((exec run c).1.tables ≡ (run c.tables).1))
        ⊎ ((m : Text) × (next_fault c.faults ≡ some m)
            × ((exec run c).0 ≡ err (driver m))
            × ((exec run c).1.tables ≡ c.tables))
  unfolding exec
  exec-cases run c = exec_with-cases run c.faults c.tables

  exec_with-of_ok :
      (run : D → Result A × D) (faults : List (Option Text)) (t : D) (a : A)
      → (run t).0 ≡ ok a
      → ((exec_with run faults t).0 ≡ ok a)
        ⊎ ((m : Text) × ((exec_with run faults t).0 ≡ err (driver m)))
  unfolding exec_with
  exec_with-of_ok run [] t a h = inl h
  exec_with-of_ok run (none ∷ rest) t a h = inl h
  exec_with-of_ok run (some m ∷ rest) t a h = inr (m, refl)

  -- A statement that returns on the tables returns, unless it is failed.
  pub exec-of_ok :
      (run : D → Result A × D) (c : Conn D) (a : A)
      → (run c.tables).0 ≡ ok a
      → ((exec run c).0 ≡ ok a) ⊎ ((m : Text) × ((exec run c).0 ≡ err (driver m)))
  unfolding exec
  exec-of_ok run c a h = exec_with-of_ok run c.faults c.tables a h

module _ {D A : Type 0} where
  -- tx.Commit(), or tx.Rollback() to the tables before the transaction
  finish : D → Result A → List (Option Text) → D → Result A × Conn D
  finish before (err e) faults t = (err e, record { tables = before; faults = faults })
  finish before (ok a) [] t = (ok a, record { tables = t; faults = [] })
  finish before (ok a) (none ∷ rest) t = (ok a, record { tables = t; faults = rest })
  finish before (ok a) (some m ∷ rest) t =
      (err (driver m), record { tables = before; faults = rest })

  begun : Sql D A → D → List (Option Text) → Result A × Conn D
  unfolding finish
  begun body t faults =
      let (r, c) = body (record { tables = t; faults = faults }) in finish t r c.faults c.tables

  begin : Sql D A → D → List (Option Text) → Result A × Conn D
  unfolding begun
  begin body t [] = begun body t []
  begin body t (none ∷ rest) = begun body t rest
  begin body t (some m ∷ rest) = (err (driver m), record { tables = t; faults = rest })

  -- db.BeginTx, `defer tx.Rollback()`, the body, `return tx.Commit()`
  unfoldable pub transaction : Sql D A → Sql D A
  unfolding begin
  transaction body c = begin body c.tables c.faults

  finish-cases :
      (before : D) (r : Result A) (faults : List (Option Text)) (t : D) (a : A)
      → (finish before r faults t).0 ≡ ok a
      → (r ≡ ok a) × ((finish before r faults t).1.tables ≡ t)
  unfolding finish
  finish-cases before (err e) faults t a h = ground arith
  finish-cases before (ok b) [] t a h = (h, refl)
  finish-cases before (ok b) (none ∷ rest) t a h = (h, refl)
  finish-cases before (ok b) (some m ∷ rest) t a h = ground arith

  finish_err :
      (before : D) (r : Result A) (faults : List (Option Text)) (t : D)
      → {e : Error} → (finish before r faults t).0 ≡ err e
      → (finish before r faults t).1.tables ≡ before
  unfolding finish
  finish_err before (err e) faults t h = refl
  finish_err before (ok b) [] t h = ground arith
  finish_err before (ok b) (none ∷ rest) t h = ground arith
  finish_err before (ok b) (some m ∷ rest) t h = refl

  begin_err :
      (body : Sql D A) (t : D) (faults : List (Option Text))
      → {e : Error} → (begin body t faults).0 ≡ err e
      → (begin body t faults).1.tables ≡ t
  unfolding begin
  begin_err body t [] h = finish_err t _ _ _ h
  begin_err body t (none ∷ rest) h = finish_err t _ _ _ h
  begin_err body t (some m ∷ rest) h = refl

  -- A transaction that fails, at whatever statement, changes no table.
  pub transaction_err :
      (body : Sql D A) (c : Conn D)
      → {e : Error} → (transaction body c).0 ≡ err e
      → (transaction body c).1.tables ≡ c.tables
  unfolding transaction
  transaction_err body c h = begin_err body c.tables c.faults h

  -- Where the body runs in the transaction, after BeginTx.
  abbrev pub Ran : Sql D A → Conn D → A → Type 0
  Ran body c a =
      (b : Conn D) × (b.tables ≡ c.tables)
      × ((body b).0 ≡ ok a)
      × ((transaction body c).1.tables ≡ (body b).1.tables)

  begin-eq-ok :
      (body : Sql D A) (t : D) (faults : List (Option Text)) (a : A)
      → (begin body t faults).0 ≡ ok a
      → (b : Conn D) × (b.tables ≡ t)
        × ((body b).0 ≡ ok a)
        × ((begin body t faults).1.tables ≡ (body b).1.tables)
  unfolding begin
  begin-eq-ok body t [] a h =
      let p = finish-cases t _ _ _ a h in (record { tables = t; faults = [] }, refl, p.0, p.1)
  begin-eq-ok body t (none ∷ rest) a h =
      let p = finish-cases t _ _ _ a h in (record { tables = t; faults = rest }, refl, p.0, p.1)
  begin-eq-ok body t (some m ∷ rest) a h = ground arith

  -- A transaction that returns ran its body on the tables and committed what that left.
  pub transaction-eq-ok :
      (body : Sql D A) (c : Conn D) (a : A) → (transaction body c).0 ≡ ok a → Ran body c a
  unfolding transaction
  transaction-eq-ok body c a h = begin-eq-ok body c.tables c.faults a h
