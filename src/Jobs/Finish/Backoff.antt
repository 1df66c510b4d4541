-- ===== src/Jobs/Finish/Backoff.antt =====
-- How long a failed job waits.
use durable_queue.Prelude.{ℕ, ◌*◌, ◌^◌, ◌≤◌, ◌<◌, ◌≡◌, some, none, min, arith}
use durable_queue.Jobs.{seconds}
use durable_queue.Jobs.Finish.{backoff_bound, compute_backoff}

bound_below :
    (base limit attempts : ℕ)
    → attempts < 1024
    → backoff_bound base limit attempts ≡ some (min limit (base * 2 ^ attempts))
unfolding backoff_bound
bound_below base limit attempts h = ground arith

bound_above : (base limit attempts : ℕ) → 1024 ≤ attempts → backoff_bound base limit attempts ≡ none
unfolding backoff_bound
bound_above base limit attempts h = ground arith

module _ (uniform : ℕ → ℕ) (attempts : ℕ) where
  -- For draws within their bound and fewer than 1024 attempts, the backoff is at most 2 ** attempts
  -- seconds and at most five minutes.
  pub compute_backoff_lem :
      ((b : ℕ) → uniform b ≤ b)
      → attempts < 1024
      → (delay : ℕ) × (compute_backoff uniform attempts ≡ some delay)
        × (delay ≤ seconds (2 ^ attempts))
        × (delay ≤ seconds 300)
  unfolding compute_backoff
  compute_backoff_lem u h = (
    uniform (min (seconds 300) (seconds 1 * 2 ^ attempts)),
    rw (bound_below (seconds 1) (seconds 300) attempts h, compute_backoff),
    omega (arith, u (min (seconds 300) (seconds 1 * 2 ^ attempts))),
    omega (arith, u (min (seconds 300) (seconds 1 * 2 ^ attempts))),
  )

  -- From 1024 attempts on it raises.
  pub compute_backoff-none : 1024 ≤ attempts → compute_backoff uniform attempts ≡ none
  unfolding compute_backoff
  compute_backoff-none h = rw (bound_above (seconds 1) (seconds 300) attempts h, compute_backoff)
