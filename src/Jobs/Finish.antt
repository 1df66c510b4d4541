-- ===== src/Jobs/Finish.antt =====
-- jobs.py: mark_succeeded, compute_backoff and mark_failed.
pub mod Guard
pub mod Backoff
use durable_queue.Prelude.{
  ℕ, ◌+◌, ◌*◌, ◌^◌, min, String, Bool, true, false, ◌||◌, List, map, Option, none, some, leb, ◌==◌,
  if◌then◌else◌,
}
use durable_queue.Sql.{select_where, update_where, fetch_one}
use durable_queue.Jobs.{Job, JobTable, pending, succeeded, dead, seconds, holds}

abbrev pub set_succeeded : ℕ → Job → Job
set_succeeded now j = record j { status = succeeded; finished_at = some now }

-- `fetchone() is not None`
abbrev pub is_found : Option Job → Bool
is_found none = false
is_found (some j) = true

unfoldable pub mark_succeeded_in_transaction : ℕ → ℕ → String → JobTable → JobTable × Bool
unfolding select_where update_where
mark_succeeded_in_transaction now job_id worker t = (
  record t { rows = update_where (holds job_id worker) (set_succeeded now) t.rows },
  is_found (fetch_one (select_where (holds job_id worker) t.rows)),
)

unfoldable pub mark_succeeded : ℕ → ℕ → String → JobTable → JobTable × Bool
unfolding mark_succeeded_in_transaction
mark_succeeded now job_id worker t =
    let (t', still_owned) = mark_succeeded_in_transaction now job_id worker t in (t', still_owned)

-- min(max_seconds, base_seconds * 2**attempts). The float product raises OverflowError from 2**1024.
unfoldable pub backoff_bound : ℕ → ℕ → ℕ → Option ℕ
backoff_bound base max_delay attempts =
    if leb 1024 attempts then none else some (min max_delay (base * 2 ^ attempts))

-- `uniform b` is the draw of random.uniform(0, b).
unfoldable pub compute_backoff : (ℕ → ℕ) → ℕ → Option ℕ
unfolding backoff_bound
compute_backoff uniform attempts = elim (backoff_bound (seconds 1) (seconds 300) attempts) [
  | none ↦ none
  | some upper_bound ↦ some (uniform upper_bound)
]

-- COALESCE(max_attempts, jobs.max_attempts)
abbrev pub coalesce : Option ℕ → ℕ → ℕ
coalesce none b = b
coalesce (some a) b = a

abbrev pub set_attempted : Option ℕ → Job → Job
set_attempted max_attempts j = record j {
  attempts = j.attempts + 1;
  max_attempts = coalesce max_attempts j.max_attempts;
}

abbrev pub set_dead : ℕ → String → Job → Job
set_dead now error j = record j {
  status = dead;
  finished_at = some now;
  last_error = some error;
  locked_by = none;
  locked_until = none;
}

abbrev pub set_retried : ℕ → ℕ → String → Job → Job
set_retried now delay error j = record j {
  status = pending;
  run_at = now + delay;
  last_error = some error;
  locked_by = none;
  locked_until = none;
}

abbrev pub has_id : ℕ → Job → Bool
has_id job_id j = j.id == job_id

-- What a failure is recorded with.
pub record Failure : Type 0 where
  pub error : String
  pub permanent : Bool
  pub max_attempts : Option ℕ

-- permanent or row["attempts"] >= row["max_attempts"]
abbrev pub ends : Failure → Job → Bool
ends f row = f.permanent || leb row.max_attempts row.attempts

-- The second UPDATE, chosen by the row that the first returned. `none`: an exception was raised.
unfoldable pub record_failure :
    (ℕ → ℕ) → ℕ → ℕ → Failure → Option Job → List Job → Option (List Job)
unfolding update_where compute_backoff
record_failure uniform now job_id f none rows = some rows
record_failure uniform now job_id f (some row) rows =
    if ends f row
    then some (update_where (has_id job_id) (set_dead now f.error) rows)
    else elim (compute_backoff uniform row.attempts) [
      | none ↦ none
      | some delay ↦ some (update_where (has_id job_id) (set_retried now delay f.error) rows)
    ]

-- The rest of the transaction, from what the first UPDATE returned and left. The table after the
-- call and its result: `none` is an exception, for which `conn.transaction()` rolls both UPDATEs back.
unfoldable pub finish_failure :
    (ℕ → ℕ) → ℕ → ℕ → Failure → JobTable → List Job → Option Job → Option (JobTable × Bool)
unfolding record_failure
finish_failure uniform now job_id f t rows row =
    elim (record_failure uniform now job_id f row rows) [
      | none ↦ none
      | some rows' ↦ some (record t { rows = rows' }, is_found row)
    ]

unfoldable pub mark_failed :
    (ℕ → ℕ) → ℕ → ℕ → String → Failure → JobTable → Option (JobTable × Bool)
unfolding select_where update_where finish_failure
mark_failed uniform now job_id worker f t =
    finish_failure uniform now job_id f t
      (update_where (holds job_id worker) (set_attempted f.max_attempts) t.rows)
      (fetch_one (map (set_attempted f.max_attempts) (select_where (holds job_id worker) t.rows)))
