-- ===== src/Jobs/SqlStore/Takeover.antt =====
-- A lapsed lease that `ClaimOne` (internal/jobs/sqlstore.go) gives to another worker.
use motekarindo_panel.Base.{
  ◌≡◌, ◌∷◌, refl, ap, ◌∙◌, false, Option, none, some, List, [], any, arith, inl, inr, take,
  Bool-cases,
}
use motekarindo_panel.Base.Text.{Text, same}
use motekarindo_panel.Base.Error.{ok}
use motekarindo_panel.Base.Sql.{Conn, exec-eq-ok}
use motekarindo_panel.Schema.{Time, JobRow, Tables, job_checks}
use motekarindo_panel.Jobs.{Job}
use motekarindo_panel.Jobs.SqlStore.{is_claimed_by, claim_one}
use motekarindo_panel.Jobs.SqlStore.Rows.{modify, scan_job}
use motekarindo_panel.Jobs.SqlStore.Claim.{
  Locks, claim_row, lease_next, spent_by_lease, expiry_passes, claim,
}
use motekarindo_panel.Jobs.SqlStore.Finalize.{IsLost, IsUnclaimed, IsUnclaimed-IsLost}

module _ (token : Text) (now lease : Time) (old : Job)
    (other : same token old.claim_token ≡ false) where
  any-claimed :
      (id : Text) (rows : List JobRow)
      → old.id ≡ id
      → any (is_claimed_by old) (modify (λ s. same s.id id) (claim_row token now lease) rows)
        ≡ false
  unfolding claim_row is_claimed_by
  any-claimed id [] e = refl
  any-claimed id (s ∷ rows) e =
      let rest = any-claimed id rows e in
      elim (Bool-cases (same s.id id)) [
        | inl k ↦ rw k (ground (arith, other, rest))
        | inr k ↦ rw k (ground (arith, rest, ap (same s.id) e))
      ]

  lease_next-IsUnclaimed :
      (chosen : Option JobRow) (before' t : Tables) (j : Job)
      → (lease_next token now lease chosen before' t).0 ≡ ok j
      → old.id ≡ j.id
      → IsUnclaimed old (lease_next token now lease chosen before' t).1
  unfolding lease_next scan_job claim_row
  lease_next-IsUnclaimed none before' t j h e = cc
  lease_next-IsUnclaimed (some r) before' t j h e =
      elim (Bool-cases (job_checks (claim_row token now lease r))) [
        | inl k ↦ rw k (any-claimed r.id t.jobs (ground (arith, rw k at h)))
        | inr k ↦ absurd (ground (arith, rw k at h))
      ]

  claim-IsUnclaimed :
      (locks : Locks) (t : Tables) (j : Job)
      → (claim locks token now lease t).0 ≡ ok j
      → old.id ≡ j.id
      → IsUnclaimed old (claim locks token now lease t).1
  unfolding claim
  claim-IsUnclaimed locks t j h e =
      elim (Bool-cases (expiry_passes now (take 100 (spent_by_lease locks now t.jobs)) t.jobs)) [
        | inl k ↦ rw k (lease_next-IsUnclaimed _ _ _ j (rw k at h) e)
        | inr k ↦ absurd (ground (arith, rw k at h))
      ]

-- When a claim returns a job again under a new token, the claim that an earlier worker holds on the
-- job is lost: whatever it then records, success or failure, is refused and changes no table.
pub claim_one-IsLost :
    (locks : Locks) (token : Text) (now lease : Time) (old j : Job) (c : Conn Tables)
    → same token old.claim_token ≡ false
    → (claim_one locks token now lease c).0 ≡ ok j
    → old.id ≡ j.id
    → IsLost old (claim_one locks token now lease c).1
unfolding claim_one
claim_one-IsLost locks token now lease old j c other h e =
    let (ran, after) = exec-eq-ok (claim locks token now lease) c j h in
    IsUnclaimed-IsLost old _ (
      ap (λ (t : Tables). any (is_claimed_by old) t.jobs) after
      ∙ claim-IsUnclaimed token now lease old other locks c.tables j ran e)
