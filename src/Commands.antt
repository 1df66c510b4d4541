-- ===== src/Commands.antt =====
-- src/durable_queue/cli.py: the commands, what they print and the exit code. A printed line is the values that its
-- template is filled with; how they are padded is left out.
pub mod Retry
use durable_queue.Prelude.{
  ℕ, ◌*◌, String, Bool, true, false, List, [], ◌∷◌, map, Option, none, some, str_eq, if◌then◌else◌,
}
use durable_queue.Database.{Link, Result, did, lost, raised, transact}
use durable_queue.Jobs.{Job, JobTable, Status, pending, running, succeeded, dead, get_job}
use durable_queue.Jobs.Retention.{delete_completed_jobs, retry_job}
use durable_queue.Jobs.Inspect.{list_jobs, Stats, get_queue_stats}

-- A column's value as it is printed.
pub data Cell : Type 0 where
  number : ℕ → Cell
  text : String → Cell
  word : Status → Cell
  null : Cell

pub data Line : Type 0 where
  listed : (id : ℕ) → Status → (task : String) → (attempts created_at : ℕ) → Line
  listed_dead : (id : ℕ) (task : String) (attempts : ℕ) → (last_error : Option String) → Line
  no_jobs_found no_dead_jobs : Line
  no_job_with_id : ℕ → Line
  column : String → Cell → Line
  reset_to_pending : ℕ → Line
  nothing_to_retry : ℕ → Line
  deleted_completed : (deleted older_than_hours : ℕ) → Line
  count_of : Status → ℕ → Line
  oldest_due : Option ℕ → Line

-- typer.Exit's code, or an exception that is not caught, which Python prints before it exits with status 1.
pub data Exit : Type 0 where
  code : ℕ → Exit
  traceback : Exit

abbrev pub exit_status : Exit → ℕ
exit_status (code n) = n
exit_status traceback = 1

-- An option's text as a status; rows have no other.
unfoldable pub status_of : String → Option Status
status_of s =
    if str_eq s "pending"
    then some pending
    else if str_eq s "running"
    then some running
    else if str_eq s "succeeded"
    then some succeeded
    else if str_eq s "dead"
    then some dead
    else none

-- list_jobs(conn, status=status, limit=limit)
unfoldable pub listing : Option String → ℕ → JobTable → List Job
unfolding status_of list_jobs
listing none limit t = list_jobs none limit t
listing (some s) limit t = elim (status_of s) [
  | none ↦ []
  | some status ↦ list_jobs (some status) limit t
]

abbrev pub or_line : Line → List Line → List Line
or_line other [] = other ∷ []
or_line other (line ∷ lines) = line ∷ lines

-- `if not jobs: …` and the lines of ls
unfoldable pub print_jobs : List Job → List Line × Exit
print_jobs jobs = (
  or_line no_jobs_found (map (λ j. listed j.id j.status j.task j.attempts j.created_at) jobs),
  code 0,
)

unfoldable pub print_dead : List Job → List Line × Exit
print_dead jobs =
    (or_line no_dead_jobs (map (λ j. listed_dead j.id j.task j.attempts j.last_error) jobs), code 0)

abbrev pub or_null {ℓ} : {A : Type ℓ} → (A → Cell) → Option A → Cell
or_null f none = null
or_null f (some a) = f a

-- for key, value in job.items()
abbrev pub columns : Job → List Line
columns j =
    column "id" (number j.id)
    ∷ column "task" (text j.task)
    ∷ column "args" (text j.args)
    ∷ column "idempotency_key" (or_null text j.idempotency_key)
    ∷ column "status" (word j.status)
    ∷ column "run_at" (number j.run_at)
    ∷ column "attempts" (number j.attempts)
    ∷ column "max_attempts" (number j.max_attempts)
    ∷ column "recoveries" (number j.recoveries)
    ∷ column "max_recoveries" (number j.max_recoveries)
    ∷ column "locked_by" (or_null text j.locked_by)
    ∷ column "locked_until" (or_null number j.locked_until)
    ∷ column "last_error" (or_null text j.last_error)
    ∷ column "created_at" (number j.created_at)
    ∷ column "finished_at" (or_null number j.finished_at)
    ∷ []

unfoldable pub print_job : ℕ → Option Job → List Line × Exit
print_job job_id none = (no_job_with_id job_id ∷ [], code 1)
print_job job_id (some j) = (columns j, code 0)

unfoldable pub print_retry : ℕ → Bool → List Line × Exit
print_retry job_id true = (reset_to_pending job_id ∷ [], code 0)
print_retry job_id false = (nothing_to_retry job_id ∷ [], code 1)

unfoldable pub print_purge : ℕ → ℕ → List Line × Exit
print_purge older_than_hours deleted = (deleted_completed deleted older_than_hours ∷ [], code 0)

unfoldable pub print_stats : Stats → List Line × Exit
print_stats s = (
  count_of pending s.n_pending
      ∷ count_of running s.n_running
      ∷ count_of succeeded s.n_succeeded
      ∷ count_of dead s.n_dead
      ∷ oldest_due s.oldest_pending_age
      ∷ [],
  code 0,
)

-- The commands and their options. Hours are in millionths.
pub data Command : Type 0 where
  ls : (status : Option String) (limit : ℕ) → Command
  show retry : (job_id : ℕ) → Command
  list_dead : (limit : ℕ) → Command
  purge : (older_than_hours batch : ℕ) → Command
  stats : Command

-- The outside world: whether get_connection() connects, what becomes of the query's transaction, its now(), and
-- the rows that others lock.
pub record Shell : Type 0 where
  pub connection : Option ℕ
  pub link : Link
  pub now : ℕ
  pub locked : ℕ → Bool

-- What follows the query: an exception of its own ends the command after conn.close().
abbrev pub then_print :
    {A : Type 0} → JobTable × Result A → (A → List Line × Exit) → JobTable × (List Line × Exit)
then_print (left, did a) f = (left, f a)
then_print (left, lost) f = (left, ([], traceback))
then_print (left, raised) f = (left, ([], traceback))

unfoldable pub command : Command → Shell → JobTable → JobTable × (List Line × Exit)
unfolding listing print_jobs print_job print_retry print_dead print_purge print_stats transact
    get_job
command (ls status limit) w t =
    then_print (transact w.link w.connection t (t, listing status limit t)) print_jobs
command (show job_id) w t =
    then_print (transact w.link w.connection t (t, get_job job_id t.rows)) (print_job job_id)
command (retry job_id) w t =
    then_print (transact w.link w.connection t (retry_job w.now job_id t)) (print_retry job_id)
command (list_dead limit) w t =
    then_print (transact w.link w.connection t (t, list_jobs (some dead) limit t)) print_dead
command (purge older_than_hours batch) w t =
    then_print
      (transact w.link w.connection t
        (delete_completed_jobs w.now w.locked (older_than_hours * 3600) batch t))
      (print_purge older_than_hours)
command stats w t =
    then_print (transact w.link w.connection t (t, get_queue_stats w.now t)) print_stats
