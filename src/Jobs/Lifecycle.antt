-- ===== src/Jobs/Lifecycle.antt =====
-- What a job's row may go through: the specification that the statements of jobs.py are held to.
pub mod Invariants
pub mod Leased
pub mod Refines
pub mod Failures
use durable_queue.Prelude.{
  ℕ, ◌≤◌, ◌<◌, String, Bool, true, false, ◌≡◌, ◌||◌, Option, none, some, leb,
}
use durable_queue.Jobs.{
  Job, Status, pending, running, succeeded, dead, owned_by, is_pending, is_running, is_dead,
}
use durable_queue.Jobs.Claim.{due, set_claimed}
use durable_queue.Jobs.Leases.{set_extended, set_released}
use durable_queue.Jobs.Reap.{expired, poisoned, set_poisoned, set_recovered}
use durable_queue.Jobs.Finish.{Failure, ends, set_succeeded, set_attempted, set_dead, set_retried}
use durable_queue.Jobs.Retention.{set_reset}

-- One change of a row by a call of `worker` at the time `now`.
pub data Move (now : ℕ) (worker : String) (j k : Job) : Type 0 where
  claimed :
      (lease : ℕ) → due now j ≡ true → k ≡ set_claimed now worker lease j → Move now worker j k
  extended :
      (lease : ℕ) → owned_by worker j ≡ true → k ≡ set_extended now lease j → Move now worker j k
  released : owned_by worker j ≡ true → k ≡ set_released j → Move now worker j k
  completed : owned_by worker j ≡ true → k ≡ set_succeeded now j → Move now worker j k
  retried :
      (f : Failure) (delay : ℕ)
      → owned_by worker j ≡ true
      → ends f (set_attempted f.max_attempts j) ≡ false
      → k ≡ set_retried now delay f.error (set_attempted f.max_attempts j)
      → Move now worker j k
  buried :
      (f : Failure)
      → owned_by worker j ≡ true
      → ends f (set_attempted f.max_attempts j) ≡ true
      → k ≡ set_dead now f.error (set_attempted f.max_attempts j)
      → Move now worker j k
  recovered : expired now j ≡ true → k ≡ set_recovered j → Move now worker j k
  poisoned_out : poisoned now j ≡ true → k ≡ set_poisoned now j → Move now worker j k
  reset : is_dead j.status ≡ true → k ≡ set_reset now j → Move now worker j k

-- Any number of changes, one after another.
pub data Moves (now : ℕ) (worker : String) (j : Job) : Job → Type 0 where
  stays : Moves now worker j j
  goes : {m k : Job} → Moves now worker j m → Move now worker m k → Moves now worker j k
