-- ===== src/Jobs.antt =====
-- src/durable_queue/jobs.py and the `jobs` table of sql/schema.sql. Time is in microseconds, the
-- resolution of timestamptz, and `now` is the statement's `now()`. `locked` tells which rows another
-- transaction holds, which FOR UPDATE SKIP LOCKED passes over.
pub mod Enqueue
pub mod Claim
pub mod Leases
pub mod Reap
pub mod Finish
pub mod Retention
pub mod Inspect
pub mod Rows
pub mod Membership
pub mod Lookup
pub mod Fencing
pub mod Lifecycle
pub mod Wellformed
use durable_queue.Prelude.{
  ℕ, ◌*◌, String, Bool, true, false, ◌&&◌, List, [], ◌∷◌, Option, none, some, str_eq, ◌==◌,
}
use durable_queue.Sql.{select_where, fetch_one}

pub data Status : Type 0 where
  pending running succeeded dead : Status

abbrev pub is_pending : Status → Bool
is_pending pending = true
is_pending running = false
is_pending succeeded = false
is_pending dead = false

abbrev pub is_running : Status → Bool
is_running pending = false
is_running running = true
is_running succeeded = false
is_running dead = false

abbrev pub is_dead : Status → Bool
is_dead pending = false
is_dead running = false
is_dead succeeded = false
is_dead dead = true

-- status IN ('succeeded', 'dead')
abbrev pub is_finished : Status → Bool
is_finished pending = false
is_finished running = false
is_finished succeeded = true
is_finished dead = true

-- A row. `args` is the JSON text of a jsonb that the queue never looks into.
pub record Job : Type 0 where
  pub id : ℕ
  pub task : String
  pub args : String
  pub idempotency_key : Option String
  pub status : Status
  pub run_at : ℕ
  pub attempts : ℕ
  pub max_attempts : ℕ
  pub recoveries : ℕ
  pub max_recoveries : ℕ
  pub locked_by : Option String
  pub locked_until : Option ℕ
  pub last_error : Option String
  pub created_at : ℕ
  pub finished_at : Option ℕ

-- The table, and the next value of the sequence behind the bigserial `id`.
pub record JobTable : Type 0 where
  pub rows : List Job
  pub next_id : ℕ

abbrev pub no_jobs : JobTable
no_jobs = record { rows = []; next_id = 1 }

abbrev pub seconds : ℕ → ℕ
seconds n = n * 1000000

-- DEFAULT_LEASE_SECONDS, DEFAULT_REAP_BATCH
abbrev pub default_lease : ℕ
default_lease = seconds 30

abbrev pub default_reap_batch : ℕ
default_reap_batch = 100

-- column = value, for a column that may be NULL: NULL equals nothing.
abbrev pub is_text : Option String → String → Bool
is_text none w = false
is_text (some v) w = str_eq v w

-- locked_by = worker_id AND status = 'running'
abbrev pub owned_by : String → Job → Bool
owned_by worker j = is_text j.locked_by worker && is_running j.status

-- The guard of every write to a lease: the worker still holds the job.
abbrev pub holds : ℕ → String → Job → Bool
holds job_id worker j = j.id == job_id && owned_by worker j

-- Row by id; also `get_job`.
unfoldable pub get_job : ℕ → List Job → Option Job
unfolding select_where
get_job job_id rows = fetch_one (select_where (λ j. j.id == job_id) rows)
