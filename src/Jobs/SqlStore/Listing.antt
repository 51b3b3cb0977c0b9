-- ===== src/Jobs/SqlStore/Listing.antt =====
-- `SQLStore.ListRecent` and `SQLStore.ListLogs` of internal/jobs/sqlstore.go.
use mathlib.Core.List.{Perm}
use motekarindo_panel.Base.{
  ℕ, zero, suc, ◌≤◌, ◌<◌, ◌≡◌, ◌⊎◌, ◌∙◌, ◌++◌, subst, refl, Bool, true, false, ◌&&◌, ◌||◌, not,
  List, [], ◌∷◌, map, length, take, ltb, ◌==◌, if◌then◌else◌, arith, length-take-le, sym, ap,
  Bool-cases, inl, inr,
}
use motekarindo_panel.Base.Int.{ℤ, pos, negsuc, is_nonpos, to_ℕ}
use motekarindo_panel.Base.Sort.{
  text_lt, text_lt_asymm, sort_by, sort_by-Chain, sort_by-Perm, Chain,
}
use motekarindo_panel.Base.Text.{Text, same, to_lower}
use motekarindo_panel.Base.Error.{sentinel, invalid_job, ok, ok-injective}
use motekarindo_panel.Base.Act.{fail}
use motekarindo_panel.Base.Sql.{Conn, Sql, exec, exec-eq-ok}
use motekarindo_panel.Schema.{JobRow, LogRow, Tables}
use motekarindo_panel.Jobs.{Job, Log}
use motekarindo_panel.Jobs.Ident.{valid_job_id}
use motekarindo_panel.Jobs.SqlStore.Rows.{scan_job}

-- ORDER BY created_at DESC, id DESC: the first of two rows does not come after the second.
unfoldable pub newer : JobRow → JobRow → Bool
newer r s =
    not (ltb r.created_at s.created_at || ((r.created_at == s.created_at) && text_lt r.id s.id))

-- ORDER BY created_at ASC, id ASC, with the serial id as the position
unfoldable pub older : LogRow → LogRow → Bool
older l k = not (ltb k.created_at l.created_at)

unfoldable pub is_bad_limit : ℕ → ℤ → Bool
is_bad_limit most limit = is_nonpos limit || ltb most (to_ℕ limit)

unfoldable pub recent_rows : ℕ → List JobRow → List JobRow
recent_rows limit rows = take limit (sort_by newer rows)

unfoldable pub list_recent : ℤ → Sql Tables (List Job)
list_recent limit =
    if is_bad_limit 100 limit
    then fail (sentinel invalid_job)
    else exec (λ t. (ok (map scan_job (recent_rows (to_ℕ limit) t.jobs)), t))

abbrev pub logs_of : Text → List LogRow → List LogRow
logs_of id [] = []
logs_of id (l ∷ logs) = let rest = logs_of id logs in if same l.job_id id then l ∷ rest else rest

abbrev pub log_of : LogRow → Log
log_of l = record { level = l.level; message = l.message }

unfoldable pub list_logs : Text → ℤ → Sql Tables (List Log)
list_logs job_id limit =
    if not (valid_job_id job_id) || is_bad_limit 500 limit
    then fail (sentinel invalid_job)
    else exec (λ t. (
      ok (map log_of (take (to_ℕ limit) (sort_by older (logs_of (to_lower job_id) t.job_logs)))),
      t,
    ))

newer_total : (r s : JobRow) → newer r s ≡ false → newer s r ≡ true
unfolding newer
newer_total r s h = ground (arith, text_lt_asymm r.id s.id)

length-map : {A B : Type 0} (f : A → B) (xs : List A) → length (map f xs) ≡ length xs
length-map f [] = refl
length-map f (x ∷ xs) = ground (arith, length-map f xs)

take-split :
    {A : Type 0} (n : ℕ) (xs : List A)
    → (rest : List A) × (take n xs ++ rest ≡ xs) × ((rest ≡ []) ⊎ (length (take n xs) ≡ n))
take-split zero xs = (xs, refl, inr refl)
take-split (suc n) [] = ([], refl, inl refl)
take-split (suc n) (x ∷ xs) =
    let (rest, e, full) = take-split n xs in
    (rest, ap (λ l. x ∷ l) e, elim full [ inl k ↦ inl k | inr k ↦ inr (ap suc k) ])

-- From the latest instant of creation to the first, and at one instant by the id, downwards.
abbrev pub Descending : List JobRow → Type 0
Descending [] = Unit {0}
Descending (r ∷ []) = Unit {0}
Descending (r ∷ s ∷ rows) =
    ((s.created_at < r.created_at) ⊎ ((s.created_at ≡ r.created_at) × (text_lt r.id s.id ≡ false)))
    × Descending (s ∷ rows)

newer-Descending :
    (r s : JobRow)
    → newer r s ≡ true
    → (s.created_at < r.created_at) ⊎ ((s.created_at ≡ r.created_at) × (text_lt r.id s.id ≡ false))
unfolding newer
newer-Descending r s h = elim (Bool-cases (ltb s.created_at r.created_at)) [
  | inl e ↦ inl (ground (arith, e))
  | inr e ↦ inr (ground (arith, e, h), ground (arith, e, h))
]

Chain-Descending : (rows : List JobRow) → Chain newer rows → Descending rows
Chain-Descending [] h = tt
Chain-Descending (r ∷ []) h = tt
Chain-Descending (r ∷ s ∷ rows) h = (newer-Descending r s h.0, Chain-Descending (s ∷ rows) h.1)

-- The jobs listed are the first of the table's in descending order, and as many as the limit allows.
pub record IsRecent (limit : ℤ) (rows : List JobRow) (jobs : List Job) : Type 0 where
  pub listed : List JobRow
  pub rest : List JobRow
  pub is_scanned : jobs ≡ map scan_job listed
  pub is_all : Perm (listed ++ rest) rows
  pub is_descending : Descending (listed ++ rest)
  pub is_limited : (1 ≤ to_ℕ limit) × (to_ℕ limit ≤ 100) × (length jobs ≤ to_ℕ limit)
  pub is_full : (rest ≡ []) ⊎ (length jobs ≡ to_ℕ limit)

good_limit :
    (most : ℕ) (limit : ℤ)
    → is_bad_limit most limit ≡ false
    → (1 ≤ to_ℕ limit) × (to_ℕ limit ≤ most)
unfolding is_bad_limit
good_limit most (pos n) h = (ground (arith, h), ground (arith, h))
good_limit most (negsuc n) h = (ground (arith, h), ground (arith, h))

recent_rows-IsRecent :
    (limit : ℤ) (rows : List JobRow) (jobs : List Job)
    → is_bad_limit 100 limit ≡ false
    → jobs ≡ map scan_job (recent_rows (to_ℕ limit) rows)
    → IsRecent limit rows jobs
unfolding recent_rows
recent_rows-IsRecent limit rows jobs good e =
    let sorted = sort_by newer rows in
    let listed = take (to_ℕ limit) sorted in
    let (rest, split, full) = take-split (to_ℕ limit) sorted in
    let (least, most) = good_limit 100 limit good in
    let counted = ap (λ (l : List Job). length l) e ∙ length-map scan_job listed in
    record {
      listed = listed;
      rest = rest;
      is_scanned = e;
      is_all = subst (λ l. Perm l rows) (sym split) (sort_by-Perm newer rows);
      is_descending =
          subst Descending (sym split)
            (Chain-Descending sorted (sort_by-Chain newer newer_total rows));
      is_limited = (least, most, ground (arith, counted, length-take-le (to_ℕ limit) sorted));
      is_full = elim full [ inl k ↦ inl k | inr k ↦ inr (counted ∙ k) ];
    }

-- A `ListRecent` that returns had a limit of 1 to 100. The table's jobs are those returned and the
-- rest, each once, in descending order of created_at and id, those returned first; and there is a rest
-- only where as many are returned as the limit allows.
pub list_recent-IsRecent :
    (limit : ℤ) (c : Conn Tables) (jobs : List Job)
    → (list_recent limit c).0 ≡ ok jobs
    → IsRecent limit c.tables.jobs jobs
unfolding list_recent fail
list_recent-IsRecent limit c jobs h = elim (Bool-cases (is_bad_limit 100 limit)) [
  | inl e ↦ absurd (ground (arith, rw e at h))
  | inr e ↦
      let (ran, _) = exec-eq-ok _ c jobs (rw e at h) in
      recent_rows-IsRecent limit c.tables.jobs jobs e (sym (ok-injective ran))
]
