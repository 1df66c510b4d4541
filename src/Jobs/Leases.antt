-- ===== src/Jobs/Leases.antt =====
-- jobs.py: extend_lease, extend_leases and release_jobs.
pub mod HandedBack
use durable_queue.Prelude.{ℕ, ◌+◌, String, Bool, ◌&&◌, List, [], ◌∷◌, none, some, contains}
use durable_queue.Sql.{update_where, count_where}
use durable_queue.Jobs.{Job, JobTable, pending, holds, owned_by}

abbrev pub set_extended : ℕ → ℕ → Job → Job
set_extended now lease j = record j { locked_until = some (now + lease) }

unfoldable pub extend_lease : ℕ → ℕ → String → ℕ → JobTable → JobTable
unfolding update_where
extend_lease now job_id worker lease t = record t {
  rows = update_where (holds job_id worker) (set_extended now lease) t.rows;
}

-- id = ANY(job_ids) AND locked_by = worker_id AND status = 'running'
abbrev pub holds_any : List ℕ → String → Job → Bool
holds_any job_ids worker j = contains job_ids j.id && owned_by worker j

unfoldable pub extend_leases : ℕ → List ℕ → String → ℕ → JobTable → JobTable
unfolding update_where
extend_leases now [] worker lease t = t
extend_leases now (i ∷ ids) worker lease t = record t {
  rows = update_where (holds_any (i ∷ ids) worker) (set_extended now lease) t.rows;
}

abbrev pub set_released : Job → Job
set_released j = record j { status = pending; locked_by = none; locked_until = none }

unfoldable pub release_jobs : List ℕ → String → JobTable → JobTable × ℕ
unfolding update_where count_where
release_jobs [] worker t = (t, 0)
release_jobs (i ∷ ids) worker t = (
  record t { rows = update_where (holds_any (i ∷ ids) worker) set_released t.rows },
  count_where (holds_any (i ∷ ids) worker) t.rows,
)
