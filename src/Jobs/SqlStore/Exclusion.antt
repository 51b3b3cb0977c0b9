-- ===== src/Jobs/SqlStore/Exclusion.antt =====
-- The statements of the store (internal/jobs/sqlstore.go) keep jobs of one resource apart.
use motekarindo_panel.Base.{
  ◌≡◌, refl, Bool, true, false, ◌||◌, not, Option, none, some, List, ◌∷◌, All, any, take, inl, inr,
  arith, Bool-cases, if◌then◌else◌,
}
use motekarindo_panel.Base.Text.{Text, same, is_empty}
use motekarindo_panel.Schema.{Time, JobRow, Tables, job_checks}
use motekarindo_panel.Jobs.SqlStore.Rows.{update_jobs, insert_job, insert_log, clashes}
use motekarindo_panel.Jobs.SqlStore.Rows.Laws.{
  All-of_any-false, All-imp, DistinctIds, DistinctIds-map,
}
use motekarindo_panel.Jobs.SqlStore.Claim.{
  Locks, live, holds_resource, is_candidate, next, spent_by_lease, is_among, expire, expire_row,
  claim_row, lease_next, expiry_passes, claim,
}
use motekarindo_panel.Jobs.SqlStore.Claim.Pick.{IsFirst, pick-IsFirst}
use motekarindo_panel.Jobs.SqlStore.Claim.Exclusive.{
  conflict, Exclusive, IsQuiet, Exclusive-Quiet, Exclusive-claim,
}

-- At an instant: ids are distinct, and no resource has two live leases.
pub record IsSeparate (now : Time) (t : Tables) : Type 0 where
  pub distinct : DistinctIds t.jobs
  pub exclusive : Exclusive now t.jobs

-- An update of rows that satisfy a condition.
abbrev pub where_set : (JobRow → Bool) → (JobRow → JobRow) → JobRow → JobRow
where_set hit set r = if hit r then set r else r

-- An update that ends a lease or gives none.
pub IsQuiet-where_set :
    (now : Time) (hit : JobRow → Bool) (set : JobRow → JobRow)
    → ((r : JobRow)
        → ((set r).id ≡ r.id)
          × ((set r).resource_key ≡ r.resource_key)
          × (live now (set r) ≡ false))
    → IsQuiet now (where_set hit set)
IsQuiet-where_set now hit set k = record {
  keeps_id = λ r. ground (arith, k r);
  keeps_key = λ r. ground (arith, k r);
  quiet = λ r. elim (Bool-cases (hit r)) [ inl e ↦ inr (rw e (k r).2) | inr e ↦ inl (rw e) ];
}

pub update_jobs-IsSeparate :
    (now : Time) (hit : JobRow → Bool) (set : JobRow → JobRow) (t : Tables)
    → IsQuiet now (where_set hit set)
    → IsSeparate now t
    → IsSeparate now (update_jobs hit set t).1
unfolding update_jobs
update_jobs-IsSeparate now hit set t q v = ground (
  arith,
  DistinctIds-map (where_set hit set) t.jobs q.keeps_id v.distinct,
  Exclusive-Quiet now (where_set hit set) t.jobs q.quiet v.exclusive,
)

insert-IsSeparate :
    (now : Time) (row : JobRow) (t : Tables)
    → live now row ≡ false
    → any (clashes row) t.jobs ≡ false
    → IsSeparate now t
    → IsSeparate now (record t { jobs = row ∷ t.jobs })
insert-IsSeparate now row t l c v = record {
  distinct = (
    All-imp (λ s. clashes row s ≡ false) (λ s. same row.id s.id ≡ false) t.jobs
        (λ s h. ground arith) fresh,
    v.distinct,
  );
  exclusive = (
    All-imp (λ s. clashes row s ≡ false) (λ s. conflict now row s ≡ false) t.jobs (λ s h. rw l)
        fresh,
    v.exclusive,
  );
}
  where
    fresh : All (λ s. clashes row s ≡ false) t.jobs
    fresh = All-of_any-false (clashes row) t.jobs c

pub insert_job-IsSeparate :
    (now : Time) (row : JobRow) (t : Tables)
    → live now row ≡ false
    → IsSeparate now t
    → IsSeparate now (insert_job row t).1
unfolding insert_job
insert_job-IsSeparate now row t l v = ground (arith, insert-IsSeparate now row t l)

pub next-some :
    (locks : Locks) (o : Option JobRow) (r : JobRow) → next locks o ≡ some r → o ≡ some r
unfolding next
next-some locks o r h = ground arith

is_candidate-free :
    (locks : Locks) (now : Time) (rows : List JobRow) (r : JobRow)
    → is_candidate locks now rows r ≡ true
    → (is_empty r.resource_key || not (any (holds_resource now r) rows)) ≡ true
unfolding is_candidate
is_candidate-free locks now rows r h = ground arith

module _ (now lease : Time) (token : Text) (t : Tables) (v : IsSeparate now t) where
  expire_set : List JobRow → JobRow → JobRow
  expire_set spent = where_set (is_among spent) (expire_row now)

  IsQuiet-expire : (spent : List JobRow) → IsQuiet now (expire_set spent)
  unfolding expire_set expire_row live
  IsQuiet-expire spent =
      IsQuiet-where_set now (is_among spent) (expire_row now) (λ r. (refl, refl, refl))

  expire-IsSeparate : (spent : List JobRow) → IsSeparate now (expire now spent t)
  unfolding expire expire_set
  expire-IsSeparate spent = record {
    distinct = DistinctIds-map _ t.jobs (IsQuiet-expire spent).keeps_id v.distinct;
    exclusive = Exclusive-Quiet now _ t.jobs (IsQuiet-expire spent).quiet v.exclusive;
  }

  lease_next-IsSeparate :
      (locks : Locks) (spent : List JobRow) (chosen : Option JobRow)
      → ((r : JobRow) → chosen ≡ some r → IsFirst (is_candidate locks now t.jobs) t.jobs r)
      → IsSeparate now (lease_next token now lease chosen t (expire now spent t)).1
  unfolding lease_next expire expire_set claim_row
  lease_next-IsSeparate locks spent none h = expire-IsSeparate spent
  lease_next-IsSeparate locks spent (some r) h =
      elim (Bool-cases (job_checks (claim_row token now lease r))) [
        | inl e ↦ rw e (record {
          distinct = DistinctIds-map _ _ (λ s. ground arith) (expire-IsSeparate spent).distinct;
          exclusive =
              Exclusive-claim now lease token (expire_set spent) r t.jobs (IsQuiet-expire spent)
                v.distinct (h r refl).member
                (is_candidate-free locks now t.jobs r (h r refl).passes) v.exclusive;
        })
        | inr e ↦ rw e v
      ]

  pub claim-IsSeparate : (locks : Locks) → IsSeparate now (claim locks token now lease t).1
  unfolding claim
  claim-IsSeparate locks =
      let spent = take 100 (spent_by_lease locks now t.jobs) in
      elim (Bool-cases (expiry_passes now spent t.jobs)) [
        | inl e ↦ rw e (
            lease_next-IsSeparate locks spent _
              λ r e. pick-IsFirst _ t.jobs r (next-some locks _ r e))
        | inr e ↦ rw e v
      ]

pub insert_log-IsSeparate :
    (now : Time) (id level message : Text) (at : Time) (t : Tables)
    → IsSeparate now t
    → IsSeparate now (insert_log id level message at t).1
unfolding insert_log
insert_log-IsSeparate now id level message at t v = ground arith
