-- ===== src/Lib.antt =====
-- durable-queue: a job queue on Postgres, its workers and its scheduler.
--
-- The program keeps its jobs in one table. Applications insert rows (enqueue), workers claim rows
-- under a lease, run the task that a row names, and mark the row; a reaper gives back the rows whose
-- lease has run out. Everything that two processes share goes through SQL statements on that table,
-- so the development models each statement as a function on the table and the processes as a history
-- of such calls, in any order.
--
-- Prelude       lists, tests, numbers and relations that the others share.
-- Sql           SELECT, UPDATE, DELETE, ORDER BY, LIMIT, min and rowcount on lists of rows.
-- Jobs          src/durable_queue/jobs.py and the table of sql/schema.sql, a child for each group of
--               functions: Enqueue (enqueue, enqueue_many), Claim (claim_jobs, claim_next_job), Leases
--               (extend_lease, extend_leases, release_jobs), Reap (reap_expired_jobs), Finish
--               (mark_succeeded, mark_succeeded_in_transaction, mark_failed, compute_backoff),
--               Retention (delete_completed_jobs, retry_job), Inspect (seconds_until_due, list_jobs,
--               get_queue_stats). Rows, Membership and Lookup have the lemmas on tables; Lifecycle the
--               abstract moves of one job, which the statements refine; Wellformed the invariant.
-- Registry      src/durable_queue/registry.py.
-- Worker        src/durable_queue/worker.py: Heartbeat (_Heartbeat), Run (run_job, process_one), Pool
--               (run_worker's buffer, its slots and the hand-back when it stops), Sleep (how long it
--               sleeps when idle and after it has lost its connection) and Loop (run_worker itself: Pass
--               the body of its loop, Shutdown its start, its passes and its end).
-- Scheduler     src/durable_queue/scheduler.py and the table `schedules`: the parent the rows and
--               register_schedule's upsert, Clock the clock schedules (_on, _clock_at_or_before,
--               _clock_after, register_schedule), Due the slots and the pass (_slot_to_run,
--               _slot_after, run_due_schedules, seconds_until_next_schedule), Loop run_scheduler.
--               Loops, Slots, Pass, Refire, Register, Keeps and Timed have the theorems.
-- Queue         histories: calls of jobs.py and whole runs of run_job by any number of processes.
--               Life is what a call may do to the table, said without the functions of jobs.py.
-- Session       src/durable_queue/sqlalchemy.py: enqueueing in a session's transaction.
-- Wakeup        src/durable_queue/wakeup.py: the counter that idle loops sleep on.
-- Effects       src/durable_queue/effects.py: the ledger of effects, and tasks that die around it.
-- Database      src/durable_queue/db.py: the connection that is reopened on its next use.
-- Runner        src/durable_queue/runner.py: a worker and a scheduler on an application's threads.
-- Commands      src/durable_queue/cli.py: what each command does, prints and exits with.
-- Benchmark     scripts/benchmark.py: how it sizes a run, waits for its end and sums it up, and the loop
--               that measures Postgres alone.
-- Examples      small runs, and the theorems at concrete inputs.
--
-- A table is the list of its rows and the next value of its sequence. A statement is atomic, since
-- Postgres locks the rows that it writes; the argument `locked` tells which rows another transaction
-- has locked when a statement with SKIP LOCKED runs, and the theorems hold for every such argument.
-- Times are microseconds, natural numbers, and `now` is an argument of each call, so clocks are
-- whatever the history says. A statement that raises is `none` or an error value, and its
-- transaction leaves the table as it was.
--
-- A task is what it would write in its transaction and how it ends (it returns, raises, or raises
-- PermanentError). A fault tells where a connection is lost: before a COMMIT, or after it but before
-- the worker hears of it. A process that dies is a history in which it makes no further call.
--
-- Every function is structural but for the scheduler's two loops over days, which have fuel 4: a
-- zone's clock is less than a day from UTC, so a loop meets its end within three days of the date
-- that it starts from. Times before the epoch do not occur, and an interval is not negative.
-- Numbers are unbounded where Python's are; the float of compute_backoff is modelled by its bound
-- 2 ** 1024, past which it raises. The draws of random.uniform, what zoneinfo knows and isoformat
-- are parameters. bigserial and integer columns do not overflow in the model.
--
-- A loop is a list of rounds: each round has what it meets in the world outside, among it the table
-- as other processes have left it by then, what becomes of each transaction (Link) and of each
-- connection that is opened (Reach), and for a worker what its slots do between its statements.
-- A worker's state also has a list of what each of its transactions did to the table (`writes`),
-- which the code does not keep: it ties the loop to the histories of Queue (Worker/Loop/History).
--
-- Not modelled: the text of log messages and how printed values are padded, JSON (a job's args are
-- text), the scheduling of threads, a thread pool's own connections, what fromisoformat accepts,
-- savepoints of a SQLAlchemy session, and what scripts/benchmark.py starts, times and prints.
-- Simplified: run_worker's slots end no job between its reading whether any is outstanding and its
-- asking when the next is due; the scheduler asks for the next due time of the table that its pass
-- left; and hourly()'s minute is a natural number, so that the error for a negative one is left out.
pub mod Prelude
pub mod Sql
pub mod Jobs
pub mod Registry
pub mod Worker
pub mod Scheduler
pub mod Queue
pub mod Database
pub mod Effects
pub mod Wakeup
pub mod Session
pub mod Runner
pub mod Commands
pub mod Benchmark
pub mod Examples
