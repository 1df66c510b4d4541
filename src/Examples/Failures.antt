-- ===== src/Examples/Failures.antt =====
-- Leases, the reaper and failures at concrete inputs.
use durable_queue.Prelude.{
  ℕ, ◌+◌, ◌^◌, ◌≤◌, ◌≡◌, refl, true, false, [], ◌∷◌, some, none, arith, if◌then◌else◌,
}
use durable_queue.Sql.{select_where, update_where, count_where, fetch_one}
use durable_queue.Jobs.{Job, JobTable, holds, seconds}
use durable_queue.Jobs.Leases.{extend_lease, extend_leases, release_jobs}
use durable_queue.Jobs.Finish.{
  Failure, ends, set_attempted, compute_backoff, mark_succeeded, mark_succeeded_in_transaction,
  mark_failed,
}
use durable_queue.Jobs.Finish.Guard.{settle, mark_failed_overflow}
use durable_queue.Jobs.Finish.Backoff.{compute_backoff_lem, compute_backoff-none}
use durable_queue.Jobs.Fencing.{fenced}
use durable_queue.Jobs.Reap.{expired, set_recovered, reap_expired_jobs}
use durable_queue.Jobs.Reap.Sweep.{
  unlocked, all_locked, lapsed, recover, reap_expired_jobs_lem, reap_expired_jobs_revives,
}
use durable_queue.Examples.Data.{held_job, one_held}

abbrev crashed : Failure
crashed = record { error = "boom"; permanent = false; max_attempts = none }

fenced_example :
    (mark_succeeded 20 1 "b" one_held ≡ (one_held, false))
    × (mark_succeeded_in_transaction 20 1 "b" one_held ≡ (one_held, false))
    × (mark_failed (λ b. b) 20 1 "b" crashed one_held ≡ some (one_held, false))
    × (extend_lease 20 1 "b" 30 one_held ≡ one_held)
    × (extend_leases 20 (1 ∷ []) "b" 30 one_held ≡ one_held)
    × (release_jobs (1 ∷ []) "b" one_held ≡ (one_held, 0))
fenced_example = fenced 1 "b" one_held (refl, (refl, tt)) (λ b. b) 20 30 crashed

compute_backoff_lem_example :
    (delay : ℕ) × (compute_backoff (λ b. b) 3 ≡ some delay)
    × (delay ≤ seconds (2 ^ 3))
    × (delay ≤ seconds 300)
compute_backoff_lem_example = compute_backoff_lem (λ b. b) 3 (λ b. omega arith) (omega arith)

-- A job that has failed 1023 times, of many more that it may.
abbrev stubborn : Job
stubborn = record held_job { attempts = 1023; max_attempts = 2000 }

abbrev one_stubborn : JobTable
one_stubborn = record { rows = stubborn ∷ []; next_id = 2 }

stubborn_found : fetch_one (select_where (holds 1 "a") one_stubborn.rows) ≡ some stubborn
unfolding select_where
stubborn_found = refl

mark_failed_overflow_example : mark_failed (λ b. b) 20 1 "a" crashed one_stubborn ≡ (
    if ends crashed (set_attempted none stubborn)
    then some (
      record one_stubborn {
        rows = update_where (holds 1 "a") (settle 20 0 crashed) one_stubborn.rows;
      },
      true,
    )
    else none)
mark_failed_overflow_example =
    mark_failed_overflow (λ b. b) 20 1 "a" crashed one_stubborn stubborn (refl, tt) stubborn_found
      (compute_backoff-none (λ b. b) (1023 + 1) (omega arith))

-- A job past its recoveries.
abbrev poison : Job
poison = record held_job { recoveries = 9 }

abbrev two_expired : JobTable
two_expired = record {
  rows = poison ∷ record held_job { id = 2; idempotency_key = none } ∷ [];
  next_id = 3;
}

expired_count : count_where (expired 40) two_expired.rows ≡ 2
unfolding count_where
expired_count = refl

reap_expired_jobs_lem_example : reap_expired_jobs 40 unlocked unlocked 100 two_expired ≡ (
  record two_expired { rows = update_where (lapsed 40) (recover 40) two_expired.rows },
  count_where (lapsed 40) two_expired.rows,
)
reap_expired_jobs_lem_example =
    reap_expired_jobs_lem 40 100 two_expired (refl, (refl, tt)) (omega (arith, expired_count))

reap_expired_jobs_revives_example : reap_expired_jobs 40 all_locked unlocked 100 two_expired ≡ (
  record two_expired { rows = update_where (expired 40) set_recovered two_expired.rows },
  count_where (expired 40) two_expired.rows,
)
reap_expired_jobs_revives_example =
    reap_expired_jobs_revives 40 100 two_expired (refl, (refl, tt)) (omega (arith, expired_count))
