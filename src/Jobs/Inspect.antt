-- ===== src/Jobs/Inspect.antt =====
-- jobs.py: seconds_until_due, list_jobs and get_queue_stats. They change nothing.
pub mod Idle
pub mod Reads
use durable_queue.Prelude.{ℕ, ◌-◌, Bool, true, false, List, map, Option, none, some, take, leb}
use durable_queue.Prelude.Int.{ℤ, sub_ℕ}
use durable_queue.Sql.{select_where, count_where, order_by, fetch_one, least, minimum}
use durable_queue.Jobs.{
  Job, JobTable, Status, pending, running, succeeded, dead, is_pending, is_running,
}
use durable_queue.Jobs.Claim.{due}

-- When a job next needs a worker.
unfoldable pub next_due : List Job → Option ℕ
unfolding select_where minimum
next_due rows =
    least (minimum (map (λ j. some j.run_at) (select_where (λ j. is_pending j.status) rows)))
      (minimum (map (λ j. j.locked_until) (select_where (λ j. is_running j.status) rows)))

-- Microseconds, signed: negative if a job is overdue.
unfoldable pub seconds_until_due : ℕ → JobTable → Option ℤ
unfolding next_due
seconds_until_due now t = elim (next_due t.rows) [ none ↦ none | some at ↦ some (sub_ℕ at now) ]

abbrev pub same_status : Status → Status → Bool
same_status pending pending = true
same_status running running = true
same_status succeeded succeeded = true
same_status dead dead = true
same_status _ _ = false

-- WHERE status = …, if one is given
abbrev pub has_status : Option Status → Job → Bool
has_status none j = true
has_status (some s) j = same_status j.status s

-- ORDER BY created_at DESC
abbrev pub newest_first : Job → Job → Bool
newest_first a b = leb b.created_at a.created_at

unfoldable pub list_jobs : Option Status → ℕ → JobTable → List Job
unfolding select_where order_by
list_jobs status limit t =
    take limit (order_by newest_first (select_where (has_status status) t.rows))

pub record Stats : Type 0 where
  pub n_pending : ℕ
  pub n_running : ℕ
  pub n_succeeded : ℕ
  pub n_dead : ℕ
  pub oldest_pending_age : Option ℕ

abbrev pub by_run_at : Job → Job → Bool
by_run_at a b = leb a.run_at b.run_at

abbrev pub age : ℕ → Option Job → Option ℕ
age now none = none
age now (some j) = some (now - j.run_at)

unfoldable pub get_queue_stats : ℕ → JobTable → Stats
unfolding select_where count_where order_by
get_queue_stats now t = record {
  n_pending = count_where (λ j. same_status j.status pending) t.rows;
  n_running = count_where (λ j. same_status j.status running) t.rows;
  n_succeeded = count_where (λ j. same_status j.status succeeded) t.rows;
  n_dead = count_where (λ j. same_status j.status dead) t.rows;
  oldest_pending_age = age now (fetch_one (order_by by_run_at (select_where (due now) t.rows)));
}
