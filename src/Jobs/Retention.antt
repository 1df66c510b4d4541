-- ===== src/Jobs/Retention.antt =====
-- jobs.py: delete_completed_jobs and retry_job.
pub mod Purge
use durable_queue.Prelude.{
  ℕ, ◌+◌, Bool, false, ◌&&◌, not, List, map, Option, none, some, take, contains, ltb, leb, ◌==◌,
}
use durable_queue.Sql.{select_where, update_where, delete_where, count_where, order_by}
use durable_queue.Jobs.{Job, JobTable, pending, is_finished, is_dead}

-- finished_at < now() - older_than, over times that may lie before the epoch's start.
abbrev pub finished_before : ℕ → ℕ → Option ℕ → Bool
finished_before now older_than none = false
finished_before now older_than (some at) = ltb (at + older_than) now

abbrev pub outdated : ℕ → ℕ → Job → Bool
outdated now older_than j = is_finished j.status && finished_before now older_than j.finished_at

abbrev pub by_id : Job → Job → Bool
by_id a b = leb a.id b.id

unfoldable pub outdated_ids : ℕ → (ℕ → Bool) → ℕ → ℕ → List Job → List ℕ
unfolding select_where order_by
outdated_ids now locked older_than batch rows =
    map (λ j. j.id)
      (take batch
        (order_by by_id (select_where (λ j. outdated now older_than j && not (locked j.id)) rows)))

unfoldable pub delete_completed_jobs : ℕ → (ℕ → Bool) → ℕ → ℕ → JobTable → JobTable × ℕ
unfolding outdated_ids delete_where count_where
delete_completed_jobs now locked older_than batch t =
    let ids = outdated_ids now locked older_than batch t.rows in
    (
      record t { rows = delete_where (λ j. contains ids j.id) t.rows },
      count_where (λ j. contains ids j.id) t.rows,
    )

abbrev pub set_reset : ℕ → Job → Job
set_reset now j = record j {
  status = pending;
  attempts = 0;
  recoveries = 0;
  run_at = now;
  finished_at = none;
}

-- id = job_id AND status = 'dead'
abbrev pub dead_with_id : ℕ → Job → Bool
dead_with_id job_id j = j.id == job_id && is_dead j.status

unfoldable pub retry_job : ℕ → ℕ → JobTable → JobTable × Bool
unfolding update_where count_where
retry_job now job_id t = (
  record t { rows = update_where (dead_with_id job_id) (set_reset now) t.rows },
  ltb 0 (count_where (dead_with_id job_id) t.rows),
)
