-- ===== src/Queue/Life.antt =====
-- What a call may do to the `jobs` table, said column by column, without the functions of jobs.py.
pub mod Moves
pub mod Holds
use durable_queue.Prelude.{
  ℕ, Bool, false, ◌+◌, ◌≤◌, ◌<◌, ◌≡◌, String, List, [], ◌∷◌, ◌++◌, Option, none, some, All, Each,
  ◌⊎◌,
}
use durable_queue.Jobs.{Job, JobTable, Status, pending, running, succeeded, dead}
use durable_queue.Queue.{
  Call, enqueues, enqueues_many, claims, extends, hands_back, runs_transactional, runs_plain, fails,
  reaps, buries, recovers, purges, retries,
}

-- The worker runs the job.
abbrev pub Owns : String → Job → Type 0
Owns worker j = (j.status ≡ running) × (j.locked_by ≡ some worker)

-- The job runs under a lease that has run out.
abbrev pub Lapsed : ℕ → Job → Type 0
Lapsed now j = (j.status ≡ running) × ((until : ℕ) × (j.locked_until ≡ some until) × (until < now))

-- One step of a job's life, at the time `now` and by a call of `worker`.
pub data LifeStep (now : ℕ) (worker : String) (j k : Job) : Type 0 where
  claimed :
      (lease : ℕ)
      → j.status ≡ pending
      → j.run_at ≤ now
      → k
        ≡ record j { status = running; locked_by = some worker; locked_until = some (now + lease) }
      → LifeStep now worker j k
  extended :
      (lease : ℕ)
      → Owns worker j
      → k ≡ record j { locked_until = some (now + lease) }
      → LifeStep now worker j k
  released :
      Owns worker j
      → k ≡ record j { status = pending; locked_by = none; locked_until = none }
      → LifeStep now worker j k
  completed :
      Owns worker j
      → k ≡ record j { status = succeeded; finished_at = some now }
      → LifeStep now worker j k
  retried :
      (limit delay : ℕ) (error : String)
      → Owns worker j
      → j.attempts + 1 < limit
      → k ≡ record j {
        status = pending;
        attempts = j.attempts + 1;
        max_attempts = limit;
        run_at = now + delay;
        last_error = some error;
        locked_by = none;
        locked_until = none;
      }
      → LifeStep now worker j k
  failed :
      (limit : ℕ) (permanent : Bool) (error : String)
      → Owns worker j
      → (permanent ≡ false → limit ≤ j.attempts + 1)
      → k ≡ record j {
        status = dead;
        attempts = j.attempts + 1;
        max_attempts = limit;
        finished_at = some now;
        last_error = some error;
        locked_by = none;
        locked_until = none;
      }
      → LifeStep now worker j k
  recovered :
      Lapsed now j
      → k ≡ record j {
        status = pending;
        recoveries = j.recoveries + 1;
        locked_by = none;
        locked_until = none;
      }
      → LifeStep now worker j k
  buried :
      Lapsed now j
      → j.max_recoveries ≤ j.recoveries + 1
      → k ≡ record j {
        status = dead;
        recoveries = j.recoveries + 1;
        finished_at = some now;
        last_error = some "worker repeatedly died while running this job";
        locked_by = none;
        locked_until = none;
      }
      → LifeStep now worker j k
  reset :
      j.status ≡ dead
      → k ≡ record j {
        status = pending;
        attempts = 0;
        recoveries = 0;
        run_at = now;
        finished_at = none;
      }
      → LifeStep now worker j k

pub data Steps (now : ℕ) (worker : String) (j : Job) : Job → Type 0 where
  stays : Steps now worker j j
  goes : {m k : Job} → Steps now worker j m → LifeStep now worker m k → Steps now worker j k

-- A job that has just been asked for.
abbrev pub IsFresh : ℕ → Job → Type 0
IsFresh now j =
    (j.status ≡ pending)
    × (j.run_at ≡ now)
    × (j.created_at ≡ now)
    × (j.attempts ≡ 0)
    × (j.recoveries ≡ 0)
    × (j.locked_by ≡ none)
    × (j.locked_until ≡ none)
    × (j.finished_at ≡ none)
    × (j.last_error ≡ none)

-- Fresh jobs stand behind the old ones, which are as they were; their ids are new.
pub record Grows (now : ℕ) (t t' : JobTable) : Type 0 where
  pub added : List Job
  pub rows_added : t'.rows ≡ t.rows ++ added
  pub fresh : All (IsFresh now) added
  pub new_ids : All (λ j. (t.next_id ≤ j.id) × (j.id < t'.next_id)) added
  pub ids_go_on : t.next_id ≤ t'.next_id

-- A finished job, and how long ago it finished.
abbrev pub IsOld : (now older_than : ℕ) → Job → Type 0
IsOld now older_than j =
    ((j.status ≡ succeeded) ⊎ (j.status ≡ dead))
    × ((at : ℕ) × (j.finished_at ≡ some at) × (at + older_than < now))

-- The second list is the first, less some entries of which P holds.
pub data Thinned {ℓ} {A : Type ℓ} (P : A → Type 0) : List A → List A → Type ℓ where
  nothing : Thinned P [] []
  keeps : (x : A) {xs ys : List A} → Thinned P xs ys → Thinned P (x ∷ xs) (x ∷ ys)
  drops : (x : A) {xs ys : List A} → P x → Thinned P xs ys → Thinned P (x ∷ xs) ys

-- By the call: an enqueue adds, a purge removes, and any other moves the rows, each in its place.
abbrev pub Allowed : ℕ → String → Call → JobTable → JobTable → Type 0
Allowed now worker (enqueues task args key) t t' = Grows now t t'
Allowed now worker (enqueues_many task args_list keys) t t' = Grows now t t'
Allowed now worker (purges older_than batch) t t' =
    Thinned (IsOld now older_than) t.rows t'.rows × (t'.next_id ≡ t.next_id)
Allowed now worker _ t t' = Each (Steps now worker) t.rows t'.rows × (t'.next_id ≡ t.next_id)
