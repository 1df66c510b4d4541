-- ===== src/Examples/Tasks.antt =====
-- The registry, the heartbeat and the retention at concrete inputs.
use durable_queue.Prelude.{◌+◌, ◌≤◌, ◌≡◌, refl, ◌&&◌, not, [], ◌∷◌, none, some, length}
use durable_queue.Sql.{select_where}
use durable_queue.Jobs.{JobTable, succeeded}
use durable_queue.Jobs.Retention.{outdated, delete_completed_jobs}
use durable_queue.Jobs.Retention.Purge.{delete_completed_jobs_lem}
use durable_queue.Registry.{
  Function, Registry, already_registered, ok, err, task, get_registered_task,
}
use durable_queue.Registry.Names.{entry, task_lem}
use durable_queue.Examples.Data.{free, held_job, waiting_job}

abbrev award : Function
award = record { name = "award_credit"; parameters = "conn" ∷ "user" ∷ [] }

abbrev one_task : Registry
one_task = ("award_credit", entry award (some 3) none) ∷ []

registers : task award (some 3) none [] ≡ ok one_task
unfolding task
registers = refl

task_lem_example :
    (get_registered_task "award_credit" one_task ≡ ok (entry award (some 3) none))
    × (get_registered_task "notify" one_task ≡ get_registered_task "notify" [])
    × (task award none none one_task ≡ err (already_registered "award_credit"))
task_lem_example =
    task_lem award (some 3) none [] one_task "notify" award none none registers refl refl

abbrev old_jobs : JobTable
old_jobs = record {
  rows =
      record held_job { status = succeeded; finished_at = some 10 }
      ∷ waiting_job 2 5
      ∷ record held_job {
        id = 3;
        idempotency_key = none;
        status = succeeded;
        finished_at = some 90;
      }
      ∷ [];
  next_id = 4;
}

delete_completed_jobs_lem_example :
    (select_where
        (λ j. not (outdated 100 50 j && not (free j.id)))
        (delete_completed_jobs 100 free 50 10 old_jobs).0.rows
      ≡ select_where (λ j. not (outdated 100 50 j && not (free j.id))) old_jobs.rows)
    × (length (delete_completed_jobs 100 free 50 10 old_jobs).0.rows
          + (delete_completed_jobs 100 free 50 10 old_jobs).1
        ≡ length old_jobs.rows)
    × ((delete_completed_jobs 100 free 50 10 old_jobs).1 ≤ 10)
delete_completed_jobs_lem_example =
    delete_completed_jobs_lem 100 free 50 10 old_jobs (refl, (refl, (refl, tt)))
