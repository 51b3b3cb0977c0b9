-- ===== src/Base/Sql/Keeps.antt =====
-- Properties of the tables that an action keeps, whether it returns or fails, and wherever a
-- statement fails: a rule for each way to build an action.
use mathlib.Core.Bool.{Bool, true, false}
use mathlib.Core.Option.{Option, none, some}
use mathlib.Core.List.{List, [], ◌∷◌}
use motekarindo_panel.Base.Tests.{if◌then◌else◌}
use motekarindo_panel.Base.Text.{Text}
use motekarindo_panel.Base.Error.{Error, Result, ok, err}
use motekarindo_panel.Base.Act.{pure, fail, lift, attempt, ◌>>=◌, continue}
use motekarindo_panel.Base.Sql.{Conn, Sql, exec_with, exec, finish, begin, transaction}

pub record Keeps {D A : Type 0} (P : D → Type 0) (m : Sql D A) : Type 0 where
  pub after : (c : Conn D) → P c.tables → P (m c).1.tables

finish-keeps :
    {D A : Type 0} (P : D → Type 0) (before : D) (r : Result A) (faults : List (Option Text))
    (t : D)
    → P before
    → P t
    → P (finish before r faults t).1.tables
unfolding finish
finish-keeps P before (err e) faults t h k = h
finish-keeps P before (ok a) [] t h k = k
finish-keeps P before (ok a) (none ∷ rest) t h k = k
finish-keeps P before (ok a) (some m ∷ rest) t h k = h

module _ {D A : Type 0} {P : D → Type 0} where
  pub Keeps-pure : (a : A) → Keeps P (pure {S = Conn D} a)
  unfolding pure
  Keeps-pure a = record { after = λ c h. h }

  pub Keeps-fail : (e : Error) → Keeps P (fail {S = Conn D} {A = A} e)
  unfolding fail
  Keeps-fail e = record { after = λ c h. h }

  pub Keeps-lift : (r : Result A) → Keeps P (lift {S = Conn D} r)
  unfolding lift
  Keeps-lift r = record { after = λ c h. h }

  pub Keeps-attempt : (m : Sql D A) → Keeps P m → Keeps P (attempt m)
  unfolding attempt
  Keeps-attempt m k = record { after = λ c h. k.after c h }

  exec_with-keeps :
      (run : D → Result A × D) (faults : List (Option Text)) (t : D)
      → ((s : D) → P s → P (run s).1)
      → P t
      → P (exec_with run faults t).1.tables
  unfolding exec_with
  exec_with-keeps run [] t k h = k t h
  exec_with-keeps run (none ∷ rest) t k h = k t h
  exec_with-keeps run (some m ∷ rest) t k h = h

  pub Keeps-exec : (run : D → Result A × D) → ((s : D) → P s → P (run s).1) → Keeps P (exec run)
  unfolding exec
  Keeps-exec run k = record { after = λ c h. exec_with-keeps run c.faults c.tables k h }

  pub Keeps-if : (b : Bool) (m n : Sql D A) → Keeps P m → Keeps P n → Keeps P (if b then m else n)
  Keeps-if true m n km kn = km
  Keeps-if false m n km kn = kn

  begin-keeps :
      (body : Sql D A) (t : D) (faults : List (Option Text))
      → Keeps P body
      → P t
      → P (begin body t faults).1.tables
  unfolding begin
  begin-keeps body t [] k h = finish-keeps P t _ _ _ h (k.after _ h)
  begin-keeps body t (none ∷ rest) k h = finish-keeps P t _ _ _ h (k.after _ h)
  begin-keeps body t (some m ∷ rest) k h = h

  pub Keeps-transaction : (body : Sql D A) → Keeps P body → Keeps P (transaction body)
  unfolding transaction
  Keeps-transaction body k = record { after = λ c h. begin-keeps body c.tables c.faults k h }

module _ {D A B : Type 0} {P : D → Type 0} where
  continue-keeps :
      (r : Result A) (f : A → Sql D B) (c : Conn D)
      → ((a : A) → Keeps P (f a))
      → P c.tables
      → P (continue r f c).1.tables
  continue-keeps (ok a) f c k h = (k a).after c h
  continue-keeps (err e) f c k h = h

  pub Keeps-bind :
      (m : Sql D A) (f : A → Sql D B) → Keeps P m → ((a : A) → Keeps P (f a)) → Keeps P (m >>= f)
  unfolding ◌>>=◌
  Keeps-bind m f km kf = record {
    after = λ c h. continue-keeps (m c).0 f (m c).1 kf (km.after c h);
  }
