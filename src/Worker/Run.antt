-- ===== src/Worker/Run.antt =====
-- worker.py: run_job and process_one. What a call of a task does, and which database calls fail, are
-- the environment's to say: the arguments `call` and `Faults`.
use durable_queue.Prelude.{
  ℕ, suc, String, Bool, true, false, List, [], ◌∷◌, Option, none, some, if◌then◌else◌,
}
use durable_queue.Jobs.{Job, JobTable}
use durable_queue.Jobs.Claim.{claim_next_job}
use durable_queue.Jobs.Finish.{Failure, mark_succeeded, mark_succeeded_in_transaction, mark_failed}
use durable_queue.Registry.{Function, Registry, RegistryError, get_registered_task, ok, err}
use durable_queue.Worker.Heartbeat.{Deadlines, hold, release}

-- How a task's code ends. `permanent`: the exception is a PermanentError.
pub data Ending : Type 0 where
  returns : Ending
  raises : (error : String) (permanent : Bool) → Ending

-- What a task's code has written by then: over its `conn`, or anywhere else.
pub record TaskRun : Type 0 where
  pub writes : List String
  pub ending : Ending

-- The writes of one job's run.
pub record Written : Type 0 where
  pub job_id : ℕ
  pub writes : List String

-- The database and the world outside: the `jobs` table, the task transactions that were committed,
-- and what tasks without a `conn` have done.
pub record World : Type 0 where
  pub jobs : JobTable
  pub committed : List Written
  pub outside : List Written

-- A database call that loses its connection, before or after its transaction is committed.
pub data Fault : Type 0 where
  fine : Fault
  lost_before lost_after : (error : String) → Fault

pub record Faults : Type 0 where
  pub completion : Fault
  pub failure : Fault

-- How the `try` block of run_job is left.
pub data Exit : Type 0 where
  finished lease_lost : Exit
  raised : Failure → Exit

-- An exception of the database driver is no PermanentError.
abbrev pub lost : Option ℕ → String → Exit
lost max_attempts e = raised (record { error = e; permanent = false; max_attempts = max_attempts })

-- A COMMIT: the world before and after it, and how the block is left.
abbrev pub commit : Fault → Option ℕ → World → World → World × Exit
commit fine max_attempts before after = (after, finished)
commit (lost_before e) max_attempts before after = (before, lost max_attempts e)
commit (lost_after e) max_attempts before after = (after, lost max_attempts e)

-- `raise _LeaseLost` where the job is no longer held, which rolls the task's writes back.
abbrev pub commit_if : Bool → Fault → Option ℕ → World → World → World × Exit
commit_if true fault max_attempts before after = commit fault max_attempts before after
commit_if false fault max_attempts before after = (before, lease_lost)

-- with _borrow(conn) as task_conn, task_conn.transaction(): …
unfoldable pub run_transactional :
    ℕ → Job → String → Option ℕ → Fault → TaskRun → World → World × Exit
unfolding mark_succeeded_in_transaction
run_transactional now job worker max_attempts fault run w = elim run.ending [
  | raises e permanent ↦
      (w, raised (record { error = e; permanent = permanent; max_attempts = max_attempts }))
  | returns ↦
      let (jobs', held) = mark_succeeded_in_transaction now job.id worker w.jobs in
      commit_if held fault max_attempts w (record w {
        jobs = jobs';
        committed = record { job_id = job.id; writes = run.writes } ∷ w.committed;
      })
]

-- registered.fn(**job["args"]), then mark_succeeded on a connection of its own.
unfoldable pub run_plain : ℕ → Job → String → Option ℕ → Fault → TaskRun → World → World × Exit
unfolding mark_succeeded
run_plain now job worker max_attempts fault run w =
    let done = record w { outside = record { job_id = job.id; writes = run.writes } ∷ w.outside } in
    elim run.ending [
      | raises e permanent ↦
          (done, raised (record { error = e; permanent = permanent; max_attempts = max_attempts }))
      | returns ↦
          commit fault max_attempts done
            (record done { jobs = (mark_succeeded now job.id worker w.jobs).0 })
    ]

-- The worker's process: the world, its heartbeat's deadlines and the wakeup counter.
pub record Process : Type 0 where
  pub world : World
  pub deadlines : Deadlines
  pub generation : ℕ

-- registered.max_execution_seconds, or the worker's
abbrev pub limit_of : Option ℕ → ℕ → ℕ
limit_of none d = d
limit_of (some m) d = m

-- The clocks that a run reads: the process's when it starts, and the database's `now()` in the
-- transaction that completes the job and in the one that records its failure.
pub record Clocks : Type 0 where
  pub started : ℕ
  pub completed : ℕ
  pub failed : ℕ

-- `call` is what a call of a task does, `describe` the text of the KeyError for a task that this worker
-- does not have, and `uniform b` the draw of random.uniform(0, b).
module _ (call : Function → String → TaskRun) (describe : RegistryError → String) (uniform : ℕ → ℕ)
    (registry : Registry) where
  -- The `try` block.
  unfoldable pub try_job : Clocks → Job → String → ℕ → Fault → Process → Process × Exit
  unfolding get_registered_task run_transactional run_plain hold
  try_job clocks job worker max_execution fault p = elim (get_registered_task job.task registry) [
    | err e ↦ (p, raised (record { error = describe e; permanent = false; max_attempts = none }))
    | ok r ↦
        let run = call r.fn job.args in
        let run_it = if r.wants_connection then run_transactional else run_plain in
        let (w, exit) = run_it clocks.completed job worker r.max_attempts fault run p.world in
        (
          record p {
            world = w;
            deadlines =
                hold clocks.started (job.id ∷ []) (some (limit_of r.max_execution max_execution))
                  p.deadlines;
          },
          exit,
        )
  ]

  -- The `except` blocks. The result tells whether run_job itself raised.
  unfoldable pub after_exit : Clocks → Job → String → Fault → Process → Exit → Process × Bool
  unfolding mark_failed
  after_exit clocks job worker fault p finished = (p, false)
  after_exit clocks job worker fault p lease_lost = (p, false)
  after_exit clocks job worker (lost_before e) p (raised f) = (p, true)
  after_exit clocks job worker fine p (raised f) =
      elim (mark_failed uniform clocks.failed job.id worker f p.world.jobs) [
        | none ↦ (p, true)
        | some (jobs', held) ↦ (
          record p { world = record p.world { jobs = jobs' }; generation = suc p.generation },
          false,
        )
      ]
  after_exit clocks job worker (lost_after e) p (raised f) =
      elim (mark_failed uniform clocks.failed job.id worker f p.world.jobs) [
        | none ↦ (p, true)
        | some (jobs', held) ↦ (record p { world = record p.world { jobs = jobs' } }, true)
      ]

  -- With the `finally` block. A worker passes its own heartbeat.
  unfoldable pub run_job : Clocks → Job → String → ℕ → Faults → Process → Process × Bool
  unfolding try_job after_exit release
  run_job clocks job worker max_execution faults p =
      let (tried, exit) = try_job clocks job worker max_execution faults.completion p in
      let (q, has_raised) = after_exit clocks job worker faults.failure tried exit in
      (record q { deadlines = release (job.id ∷ []) q.deadlines }, has_raised)

  -- Whether a job was claimed, and whether run_job raised.
  unfoldable pub process_one :
      ℕ → (ℕ → Bool) → Clocks → String → ℕ → ℕ → Faults → Process → Process × Bool × Bool
  unfolding claim_next_job run_job
  process_one now locked clocks worker lease max_execution faults p =
      let (jobs', claimed) = claim_next_job now locked worker lease p.world.jobs in
      let q = record p { world = record p.world { jobs = jobs' } } in
      elim claimed [
        | none ↦ (q, false, false)
        | some job ↦
            let (r, has_raised) = run_job clocks job worker max_execution faults q in
            (r, true, has_raised)
      ]
