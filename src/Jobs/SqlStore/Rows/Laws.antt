-- ===== src/Jobs/SqlStore/Rows/Laws.antt =====
-- Updates of rows (Jobs/SqlStore/Rows.antt) and properties of all rows.
use mathlib.Core.List.{Memᴰ}
use motekarindo_panel.Base.{
  ◌≡◌, refl, ap, subst, sym, Bool, true, false, List, [], ◌∷◌, map, All, any, arith,
}
use motekarindo_panel.Base.Text.{Text, same, same_iff}
use motekarindo_panel.Schema.{JobRow}

module _ {ℓ κ} {A : Type ℓ} (P Q : A → Type κ) where
  pub All-imp : (xs : List A) → ((x : A) → P x → Q x) → All P xs → All Q xs
  All-imp [] f h = tt
  All-imp (x ∷ xs) f h = (f x h.0, All-imp xs f h.1)

  pub All-and : (xs : List A) → All P xs → All Q xs → All (λ x. P x × Q x) xs
  All-and [] f h = tt
  All-and (x ∷ xs) f h = ((f.0, h.0), All-and xs f.1 h.1)

  pub All-map : (g : A → A) (xs : List A) → ((x : A) → P x → Q (g x)) → All P xs → All Q (map g xs)
  All-map g [] f h = tt
  All-map g (x ∷ xs) f h = (f x h.0, All-map g xs f h.1)

pub All-of_any-false {ℓ} :
    {A : Type ℓ} (p : A → Bool) (xs : List A) → any p xs ≡ false → All (λ x. p x ≡ false) xs
All-of_any-false p [] h = tt
All-of_any-false p (x ∷ xs) h = (ground arith, All-of_any-false p xs (ground arith))

pub All-Mem {ℓ κ} : {A : Type ℓ} (P : A → Type κ) {x : A} (xs : List A) → All P xs → Memᴰ x xs → P x
All-Mem P xs h (Memᴰ.head e) = subst P (sym e) h.0
All-Mem P _ h (Memᴰ.tail {xs = l} m) = All-Mem P l h.1 m

pub same_self : (s : Text) → same s s ≡ true
same_self s = (same_iff s s).1 refl

pub same_comm : (s t : Text) → same s t ≡ same t s
unfolding same
same_comm [] [] = refl
same_comm [] (d ∷ t) = refl
same_comm (c ∷ s) [] = refl
same_comm (c ∷ s) (d ∷ t) = ground (arith, same_comm s t)

-- The primary key.
abbrev pub DistinctIds : List JobRow → Type 0
DistinctIds [] = Unit {0}
DistinctIds (r ∷ rows) = All (λ s. same r.id s.id ≡ false) rows × DistinctIds rows

-- With distinct ids, a row of the table is the one that has its id.
pub row_of_id :
    (r : JobRow) (rows : List JobRow)
    → DistinctIds rows
    → Memᴰ r rows
    → All (λ s. same s.id r.id ≡ true → s ≡ r) rows
row_of_id r _ d (Memᴰ.head {x = x} {xs = l} e) = (
  λ _. sym e,
  All-imp (λ s. same x.id s.id ≡ false) (λ s. same s.id r.id ≡ true → s ≡ r) l
      (λ s h k. cc (same_comm s.id r.id, ap (λ (a : JobRow). same a.id s.id) e)) d.0,
)
row_of_id r _ d (Memᴰ.tail {x = x} {xs = l} m) =
    (λ k. cc (All-Mem (λ s. same x.id s.id ≡ false) l d.0 m), row_of_id r l d.1 m)

pub DistinctIds-map :
    (g : JobRow → JobRow) (rows : List JobRow)
    → ((r : JobRow) → (g r).id ≡ r.id)
    → DistinctIds rows
    → DistinctIds (map g rows)
DistinctIds-map g [] keep d = tt
DistinctIds-map g (r ∷ rows) keep d = (
  All-map (λ s. same r.id s.id ≡ false) (λ s. same (g r).id s.id ≡ false) g rows
      (λ s h. rw (keep r, keep s) h) d.0,
  DistinctIds-map g rows keep d.1,
)
