-- ===== src/Jobs/Worker/Backoff.antt =====
-- `exponentialBackoff` of internal/jobs/worker.go in closed form.
use native.Mathlib.Nat.{pow-suc, one-le-pow}
use motekarindo_panel.Base.{ℕ, zero, suc, ◌-◌, ◌*◌, ◌^◌, ◌≤◌, ◌≡◌, ap, min, arith}
use motekarindo_panel.Jobs.{second}
use motekarindo_panel.Jobs.Worker.{max_backoff, double_backoff, exponential_backoff}

le-mul-pow : (b n : ℕ) → b ≤ b * 2 ^ n
le-mul-pow b n = grind (arith, one-le-pow n 2 (omega arith))

mul-pow-suc : (b n : ℕ) → b * 2 ^ suc n ≡ (b * 2) * 2 ^ n
mul-pow-suc b n = omega (arith, ap (λ (t : ℕ). b * t) (pow-suc 2 n))

min-double_backoff : (n b : ℕ) → min (double_backoff n b) max_backoff ≡ min (b * 2 ^ n) max_backoff
unfolding double_backoff
min-double_backoff zero b = omega arith
min-double_backoff (suc n) b =
    ground (arith, min-double_backoff n (b * 2), le-mul-pow b (suc n), mul-pow-suc b n)

-- The pause after attempt n is 2^(n - 1) seconds, and five minutes from where that is more.
pub exponential_backoff_lem :
    (attempt : ℕ) → exponential_backoff attempt ≡ min (second * 2 ^ (attempt - 1)) max_backoff
unfolding exponential_backoff
exponential_backoff_lem zero = ground (arith, min-double_backoff 0 second)
exponential_backoff_lem (suc n) = ground (arith, min-double_backoff n second)
