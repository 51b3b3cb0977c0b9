-- ===== src/Jobs/SqlStore/Claim/Outcome.antt =====
-- What a claim returns (internal/jobs/sqlstore.go), on rows that pass the CHECKs of the table.
use motekarindo_panel.Base.{◌≡◌, ◌⊎◌, ◌||◌, Bool, true, false, not, All, arith, take}
use motekarindo_panel.Base.Text.{Text, same, is_empty}
use motekarindo_panel.Base.Error.{sentinel, no_job, ok, err}
use motekarindo_panel.Schema.{Time, JobRow, Tables, job_checks}
use motekarindo_panel.Jobs.SqlStore.Rows.{scan_job, modify}
use motekarindo_panel.Jobs.SqlStore.Claim.{
  Locks, is_candidate, spent_by_lease, expire, expire_row, claim_row, claim,
}
use motekarindo_panel.Jobs.SqlStore.Claim.Pick.{IsFirst}

-- The advisory lock of the row's resource, where it has one, can be taken.
abbrev pub is_takeable : Locks → JobRow → Bool
is_takeable locks r = is_empty r.resource_key || not (locks.key_locked r.resource_key)

pub expire_row-checks :
    (now : Time) (r : JobRow) → job_checks r ≡ true → job_checks (expire_row now r) ≡ true
unfolding job_checks expire_row
expire_row-checks now r h = ground arith

-- The rows that pass the CHECKs of the table.
abbrev pub IsChecked : Tables → Type 0
IsChecked t = All (λ r. job_checks r ≡ true) t.jobs

module _ (locks : Locks) (token : Text) (now lease : Time) where
  -- The claim of a row: the job that is returned, and the rows that are left.
  abbrev pub Leased : Tables → JobRow → Type 0
  Leased t r =
      ((claim locks token now lease t).0 ≡ ok (scan_job (claim_row token now lease r)))
      × ((claim locks token now lease t).1.jobs
          ≡ modify (λ s. same s.id r.id) (claim_row token now lease)
              (expire now (take 100 (spent_by_lease locks now t.jobs)) t).jobs)

  -- No job, and nothing but the expiry of spent leases.
  abbrev pub Idle : Tables → Type 0
  Idle t =
      ((claim locks token now lease t).0 ≡ err (sentinel no_job))
      × ((claim locks token now lease t).1
          ≡ expire now (take 100 (spent_by_lease locks now t.jobs)) t)

  -- The three ways in which a claim ends.
  abbrev pub Outcome : Tables → Type 0
  Outcome t =
      ((r : JobRow) × IsFirst (is_candidate locks now t.jobs) t.jobs r
        × (is_takeable locks r ≡ true)
        × Leased t r)
      ⊎ (((r : JobRow) × IsFirst (is_candidate locks now t.jobs) t.jobs r
            × (is_takeable locks r ≡ false)
            × Idle t)
          ⊎ (All (λ r. is_candidate locks now t.jobs r ≡ false) t.jobs × Idle t))
