-- ===== src/Session.antt =====
-- src/durable_queue/sqlalchemy.py: enqueueing in the transaction of a SQLAlchemy session, which no other
-- transaction comes between here. SQLAlchemy documents that after_commit and after_rollback fire once
-- the session's transaction has committed or rolled back. A statement that raises leaves the transaction
-- aborted: Postgres then refuses every statement until its end, and rolls it back when it is told to COMMIT,
-- without an error. Savepoints are left out.
pub mod Commits
use durable_queue.Prelude.{
  ℕ, ◌≡◌, refl, subst, sym, ap, ◌∙◌, String, Bool, true, false, ◌||◌, ◌&&◌, not, List, [], ◌∷◌,
  Option, none, some, inl, inr, arith, Bool-cases, if◌then◌else◌,
}
use durable_queue.Jobs.{JobTable}
use durable_queue.Jobs.Enqueue.{Outcome, ok, err}
use durable_queue.Jobs.Enqueue
use durable_queue.Wakeup.{wake}

-- `jobs` is the table as the transaction sees it and `committed` as others see it; `aborted` tells whether Postgres
-- has aborted the transaction; `enqueued` is the flag in session.info, `listening` whether the event handlers are
-- there; `generation` is wakeup's counter.
pub record Session : Type 0 where
  pub jobs : JobTable
  pub committed : JobTable
  pub aborted : Bool
  pub enqueued : Bool
  pub listening : Bool
  pub generation : ℕ

abbrev pub wake_after_commit : Session → Session
wake_after_commit s = record s { enqueued = true; listening = true }

-- A statement of the session; `none` where it raises.
unfoldable pub enqueue : ℕ → String → String → Option String → Session → Session × Option ℕ
unfolding Enqueue.enqueue
enqueue now task args key s =
    let (jobs', job_id) = Enqueue.enqueue now task args key s.jobs in
    if s.aborted then (s, none) else (wake_after_commit (record s { jobs = jobs' }), some job_id)

-- What becomes of the statement over a transaction that is not aborted.
abbrev pub sent : Session → Outcome (JobTable × List ℕ) → Session × Option (List ℕ)
sent s (ok (jobs', ids)) = (wake_after_commit (record s { jobs = jobs' }), some ids)
sent s (err e) = (record s { aborted = true }, none)

unfoldable pub enqueue_many :
    ℕ → String → List String → Option (List (Option String)) → Session → Session × Option (List ℕ)
unfolding Enqueue.enqueue_many
enqueue_many now task [] keys s = (s, some [])
enqueue_many now task (a ∷ args) keys s =
    if s.aborted then (s, none) else sent s (Enqueue.enqueue_many now task (a ∷ args) keys s.jobs)

abbrev pub after_commit : Session → Session
after_commit s =
    if s.enqueued then record s { enqueued = false; generation = wake s.generation } else s

abbrev pub after_rollback : Session → Session
after_rollback s = record s { enqueued = false }

-- The end of the transaction in the database; a sequence is not rolled back.
abbrev pub committing : Session → Session
committing s = record s { committed = s.jobs }

abbrev pub undoing : Session → Session
undoing s = record s { jobs = record s.committed { next_id = s.jobs.next_id }; aborted = false }

-- session.commit(), whose handler is told of a commit also where Postgres has rolled back, and session.rollback().
unfoldable pub commit : Session → Session
commit s =
    let done = if s.aborted then undoing s else committing s in
    if s.listening then after_commit done else done

unfoldable pub rollback : Session → Session
rollback s = let undone = undoing s in if s.listening then after_rollback undone else undone

-- What the application runs between a session's commits.
pub data Statement : Type 0 where
  enqueues : ℕ → String → String → Option String → Statement
  enqueues_many : ℕ → String → List String → Option (List (Option String)) → Statement

abbrev pub execute : Statement → Session → Session
execute (enqueues now task args key) s = (enqueue now task args key s).0
execute (enqueues_many now task args keys) s = (enqueue_many now task args keys s).0

-- An application that goes on where a statement raises, as one does that catches the exception.
unfoldable pub execute_all : List Statement → Session → Session
execute_all [] s = s
execute_all (o ∷ os) s = execute_all os (execute o s)

-- Whether Postgres refuses the statement over a table, in a transaction that is not aborted.
abbrev pub is_err : Outcome (JobTable × List ℕ) → Bool
is_err (ok r) = false
is_err (err e) = true

abbrev pub is_refused : Statement → JobTable → Bool
is_refused (enqueues now task args key) t = false
is_refused (enqueues_many now task args keys) t = is_err (Enqueue.enqueue_many now task args keys t)

-- Whether it asks_for_job for a job.
abbrev pub asks_for_job : Statement → Bool
asks_for_job (enqueues now task args key) = true
asks_for_job (enqueues_many now task [] keys) = false
asks_for_job (enqueues_many now task (a ∷ args) keys) = true

-- Whether one has been refused by then, and whether one before that asked for a job.
abbrev pub any_refused : List Statement → Session → Bool
any_refused [] s = false
any_refused (o ∷ os) s = is_refused o s.jobs || any_refused os (execute o s)

abbrev pub any_enqueued : List Statement → Session → Bool
any_enqueued [] s = false
any_enqueued (o ∷ os) s =
    not (is_refused o s.jobs) && (asks_for_job o || any_enqueued os (execute o s))
