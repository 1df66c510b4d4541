-- ===== src/Worker/Sleep.antt =====
-- worker.py: how long run_worker sleeps, in idle mode and after it has lost its connection. Times are in
-- microseconds.
use native.Mathlib.Nat.{pow-suc}
use durable_queue.Prelude.{
  ℕ, zero, suc, ◌+◌, ◌*◌, ◌^◌, ◌≤◌, ◌<◌, ◌≡◌, refl, max, min, String, Bool, true, false, ◌&&◌, [],
  Option, some, none, arith, ltb,
}
use durable_queue.Prelude.Int.{ℤ, pos, negsuc}
use durable_queue.Jobs.{JobTable, seconds}
use durable_queue.Jobs.Claim.{claim_jobs}
use durable_queue.Jobs.Reap.{reap_expired_jobs}
use durable_queue.Jobs.Inspect.{seconds_until_due}
use durable_queue.Jobs.Inspect.Idle.{idle_until_due, idle_for_ever}

-- wakeup's MIN_SLEEP and CLOSE_CONNECTIONS_AFTER
abbrev pub min_sleep : ℕ
min_sleep = 100000

abbrev pub close_connections_after : ℕ
close_connections_after = seconds 60

-- timeout = None if seconds is None else max(seconds, wakeup.MIN_SLEEP)
unfoldable pub timeout : Option ℤ → Option ℕ
timeout none = none
timeout (some (pos n)) = some (max n min_sleep)
timeout (some (negsuc n)) = some min_sleep

-- seconds is not None and seconds <= 0: then next_reap_at = 0.0
unfoldable pub is_overdue : Option ℤ → Bool
is_overdue none = false
is_overdue (some (pos zero)) = true
is_overdue (some (pos (suc n))) = false
is_overdue (some (negsuc n)) = true

abbrev pub is_long : Option ℕ → Bool
is_long none = true
is_long (some w) = ltb close_connections_after w

unfoldable pub lets_go : (nothing_outstanding : Bool) → Option ℤ → Bool
unfolding timeout
lets_go nothing_outstanding s = nothing_outstanding && is_long (timeout s)

-- RECONNECT_MIN_DELAY, and retry_delay = min(retry_delay * 2, RECONNECT_MAX_DELAY)
abbrev pub reconnect_min_delay : ℕ
reconnect_min_delay = seconds 1

abbrev pub reconnect_max_delay : ℕ
reconnect_max_delay = seconds 30

-- The delay after so many losses in a row.
unfoldable pub retry_delay : ℕ → ℕ
retry_delay zero = reconnect_min_delay
retry_delay (suc n) = min (retry_delay n * 2) reconnect_max_delay

-- The delay is a second at first and after n losses of the connection in a row 2 ** n seconds, but
-- never more than half a minute.
pub retry_delay_lem : (n : ℕ) → retry_delay n ≡ min (seconds (2 ^ n)) (seconds 30)
unfolding retry_delay
retry_delay_lem zero = omega arith
retry_delay_lem (suc n) = omega (arith, retry_delay_lem n, power n)
  where
    power : (k : ℕ) → 2 ^ suc k ≡ 2 ^ k * 2
    power k = pow-suc 2 k

-- A moment in the sleep of a worker that has gone to sleep at `now`.
abbrev pub IsAsleep : ℕ → Option ℕ → ℕ → Type 0
IsAsleep now none later = Unit
IsAsleep now (some w) later = later < now + w

asleep_idle :
    (now later : ℕ) (t : JobTable) (s : Option ℤ)
    → seconds_until_due now t ≡ s
    → IsAsleep now (timeout s) later
    → now + min_sleep ≤ later
    → (locked locked' : ℕ → Bool) (worker : String) (lease n m : ℕ)
    → (claim_jobs later locked worker lease n t ≡ (t, []))
      × (reap_expired_jobs later locked locked' m t ≡ (t, 0))
unfolding timeout
asleep_idle now later t none e a h = idle_for_ever now later t e
asleep_idle now later t (some (pos k)) e a h = idle_until_due now later k t e (omega arith)
asleep_idle now later t (some (negsuc k)) e a h = absurd (omega arith)

-- While an idle worker sleeps, from MIN_SLEEP after it looked on, no claim and no sweep of the
-- table that it looked at finds anything.
pub timeout_lem :
    (now later : ℕ) (t : JobTable)
    → IsAsleep now (timeout (seconds_until_due now t)) later
    → now + min_sleep ≤ later
    → (locked locked' : ℕ → Bool) (worker : String) (lease n m : ℕ)
    → (claim_jobs later locked worker lease n t ≡ (t, []))
      × (reap_expired_jobs later locked locked' m t ≡ (t, 0))
timeout_lem now later t a h = asleep_idle now later t (seconds_until_due now t) refl a h
