-- ===== src/Jobs/SqlStore/Claim/Exclusive.antt =====
-- One live lease to a resource: no two jobs of the same resource key run at the same time.
use mathlib.Core.List.{Memᴰ}
use motekarindo_panel.Base.{
  ◌≤◌, ◌≡◌, ◌⊎◌, ap, Bool, true, false, ◌&&◌, ◌||◌, not, List, [], ◌∷◌, map, All, any, arith, inl,
  inr, Bool-cases, if◌then◌else◌,
}
use motekarindo_panel.Base.Text.{Text, same, same_iff, is_empty}
use motekarindo_panel.Schema.{Time, JobRow}
use motekarindo_panel.Jobs.SqlStore.Rows.Laws.{
  All-imp, All-and, All-map, All-of_any-false, same_self, same_comm, DistinctIds, row_of_id,
  DistinctIds-map,
}
use motekarindo_panel.Jobs.SqlStore.Claim.{live, holds_resource, claim_row}

-- Two jobs that run under leases of one resource, which the empty key does not name.
abbrev pub conflict : Time → JobRow → JobRow → Bool
conflict now r s =
    live now r && live now s && same r.resource_key s.resource_key && not (is_empty r.resource_key)

abbrev pub Exclusive : Time → List JobRow → Type 0
Exclusive now [] = Unit {0}
Exclusive now (r ∷ rows) = All (λ s. conflict now r s ≡ false) rows × Exclusive now rows

-- A lease that is live later is live now.
live_mono : (r : JobRow) (now later : Time) → now ≤ later → live later r ≡ true → live now r ≡ true
unfolding live
live_mono r now later h l = ground arith

pub Exclusive-later :
    (now later : Time) (rows : List JobRow)
    → now ≤ later
    → Exclusive now rows
    → Exclusive later rows
Exclusive-later now later [] h e = tt
Exclusive-later now later (r ∷ rows) h e = (
  All-imp (λ s. conflict now r s ≡ false) (λ s. conflict later r s ≡ false) rows
      (λ s k. ground (arith, live_mono r now later h, live_mono s now later h)) e.0,
  Exclusive-later now later rows h e.1,
)

-- An update that leaves a row as it is, or without a live lease.
abbrev pub Quiet : Time → (JobRow → JobRow) → Type 0
Quiet now g = (r : JobRow) → (g r ≡ r) ⊎ (live now (g r) ≡ false)

conflict-Quiet :
    (now : Time) (g : JobRow → JobRow) (r s : JobRow)
    → Quiet now g
    → conflict now r s ≡ false
    → conflict now (g r) (g s) ≡ false
conflict-Quiet now g r s q h = elim (q r) [
  | inr e ↦ rw e
  | inl e ↦ elim (q s) [ inl f ↦ rw (e, f) h | inr f ↦ ground arith ]
]

pub Exclusive-Quiet :
    (now : Time) (g : JobRow → JobRow) (rows : List JobRow)
    → Quiet now g
    → Exclusive now rows
    → Exclusive now (map g rows)
Exclusive-Quiet now g [] q e = tt
Exclusive-Quiet now g (r ∷ rows) q e = (
  All-map (λ s. conflict now r s ≡ false) (λ s. conflict now (g r) s ≡ false) g rows
      (λ s h. conflict-Quiet now g r s q h) e.0,
  Exclusive-Quiet now g rows q e.1,
)

-- Another row that holds the resource `key`, for the job `id`.
abbrev holds : Time → Text → Text → JobRow → Bool
holds now id key s = live now s && same s.resource_key key && not (same s.id id)

-- The row of the id has the key, and no other holds it, unless it is empty.
abbrev Free : Time → Text → Text → JobRow → Type 0
Free now id key s =
    (same s.id id ≡ true → s.resource_key ≡ key)
    × ((is_empty key || not (holds now id key s)) ≡ true)

module _ (now lease : Time) (token id key : Text) where
  abbrev claimed : JobRow → JobRow
  claimed r = if same r.id id then claim_row token now lease r else r

  id_twice : (r s : JobRow) → same r.id id ≡ true → same s.id id ≡ true → same r.id s.id ≡ true
  id_twice r s p q = ground (arith, same_iff r.id id, same_iff s.id id, same_iff r.id s.id)

  conflict-claimed :
      (r s : JobRow)
      → same r.id s.id ≡ false
      → Free now id key r
      → Free now id key s
      → conflict now r s ≡ false
      → conflict now (claimed r) (claimed s) ≡ false
  unfolding claim_row
  conflict-claimed r s d fr fs h = elim (Bool-cases (same r.id id)) [
    | inl p ↦ elim (Bool-cases (same s.id id)) [
      | inl q ↦ cc (id_twice r s p q)
      | inr q ↦ rw (p, q) (ground (arith, fr.0 p, same_comm s.resource_key key))
    ]
    | inr p ↦ elim (Bool-cases (same s.id id)) [
      | inl q ↦
          rw (p, q) (ground (arith, fs.0 q, same_iff r.resource_key s.resource_key, same_self key))
      | inr q ↦ rw (p, q) h
    ]
  ]

  Exclusive-claimed :
      (rows : List JobRow)
      → DistinctIds rows
      → All (Free now id key) rows
      → Exclusive now rows
      → Exclusive now (map claimed rows)
  Exclusive-claimed [] d f e = tt
  Exclusive-claimed (r ∷ rows) d f e = (
    All-map (λ s. ((same r.id s.id ≡ false) × Free now id key s) × (conflict now r s ≡ false))
        (λ s. conflict now (claimed r) s ≡ false) claimed rows
        (λ s h. conflict-claimed r s h.0.0 f.0 h.0.1 h.1)
        (All-and _ _ rows (All-and _ _ rows d.0 f.1) e.0),
    Exclusive-claimed rows d.1 f.1 e.1,
  )

-- The candidate's row, and what its NOT EXISTS says of the others.
All-Free :
    (now : Time) (r : JobRow) (rows : List JobRow)
    → DistinctIds rows
    → Memᴰ r rows
    → (is_empty r.resource_key || not (any (holds_resource now r) rows)) ≡ true
    → All (Free now r.id r.resource_key) rows
unfolding holds_resource
All-Free now r rows d m h = All-and _ _ rows keyed (elim (Bool-cases (is_empty r.resource_key)) [
  | inl e ↦ All-imp Keyed Unheld rows (λ s k. rw e) keyed
  | inr e ↦
      All-imp (λ s. holds_resource now r s ≡ false) Unheld rows (λ s k. ground arith)
        (All-of_any-false (holds_resource now r) rows (ground arith))
])
  where
    Keyed : JobRow → Type 0
    Keyed s = same s.id r.id ≡ true → s.resource_key ≡ r.resource_key

    Unheld : JobRow → Type 0
    Unheld s = (is_empty r.resource_key || not (holds now r.id r.resource_key s)) ≡ true

    keyed : All Keyed rows
    keyed =
        All-imp (λ s. same s.id r.id ≡ true → s ≡ r) Keyed rows
          (λ s k e. ap (λ (a : JobRow). a.resource_key) (k e)) (row_of_id r rows d m)

-- An update that keeps ids and keys, and gives no row a live lease.
pub record IsQuiet (now : Time) (g : JobRow → JobRow) : Type 0 where
  pub keeps_id : (r : JobRow) → (g r).id ≡ r.id
  pub keeps_key : (r : JobRow) → (g r).resource_key ≡ r.resource_key
  pub quiet : Quiet now g

Free-Quiet :
    (now : Time) (id key : Text) (g : JobRow → JobRow) (s : JobRow)
    → IsQuiet now g
    → Free now id key s
    → Free now id key (g s)
Free-Quiet now id key g s q f = (
  λ e. rw (q.keeps_key s) (f.0 (rw (q.keeps_id s) at e)),
  elim (q.quiet s) [ inl e ↦ rw e f.1 | inr e ↦ rw e (ground arith) ],
)

-- After a quiet update, the lease of a candidate whose resource no other live job held.
pub Exclusive-claim :
    (now lease : Time) (token : Text) (g : JobRow → JobRow) (r : JobRow) (rows : List JobRow)
    → IsQuiet now g
    → DistinctIds rows
    → Memᴰ r rows
    → (is_empty r.resource_key || not (any (holds_resource now r) rows)) ≡ true
    → Exclusive now rows
    → Exclusive now (map (claimed now lease token r.id r.resource_key) (map g rows))
Exclusive-claim now lease token g r rows q d m h e =
    Exclusive-claimed now lease token r.id r.resource_key (map g rows)
      (DistinctIds-map g rows q.keeps_id d)
      (All-map _ _ g rows (λ s f. Free-Quiet now r.id r.resource_key g s q f)
        (All-Free now r rows d m h))
      (Exclusive-Quiet now g rows q.quiet e)
