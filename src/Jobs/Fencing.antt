-- ===== src/Jobs/Fencing.antt =====
-- A worker that has lost a job's lease cannot touch the job.
use durable_queue.Prelude.{
  ℕ, ◌≡◌, refl, ap, String, Bool, false, List, [], ◌∷◌, some, arith, All, All-imp,
}
use mathlib.Core.Path.{ap₂}
use durable_queue.Sql.{select_where, count_where, fetch_one}
use durable_queue.Sql.Laws.{update_where_none, select_where_none}
use durable_queue.Jobs.{Job, JobTable, holds}
use durable_queue.Jobs.Leases.{
  set_extended, extend_lease, holds_any, extend_leases, set_released, release_jobs,
}
use durable_queue.Jobs.Finish.{
  Failure, is_found, set_succeeded, mark_succeeded, mark_succeeded_in_transaction, mark_failed,
}
use durable_queue.Jobs.Finish.Guard.{mark_failed_unowned}

count_where_none :
    (p : Job → Bool) (rows : List Job) → All (λ j. p j ≡ false) rows → count_where p rows ≡ 0
unfolding count_where
count_where_none p [] h = refl
count_where_none p (x ∷ xs) h = rw (h.0) (count_where_none p xs h.1)

module _ (job_id : ℕ) (worker : String) (t : JobTable)
    (lost : All (λ j. holds job_id worker j ≡ false) t.rows) where
  listed : All (λ j. holds_any (job_id ∷ []) worker j ≡ false) t.rows
  listed = All-imp _ _ (λ j h. ground (arith, h)) t.rows lost

  -- For a worker that does not hold a job, completing, failing, extending and releasing it change
  -- no row and report that it was not the worker's.
  pub fenced :
      (uniform : ℕ → ℕ) (now lease : ℕ) (f : Failure)
      → (mark_succeeded now job_id worker t ≡ (t, false))
        × (mark_succeeded_in_transaction now job_id worker t ≡ (t, false))
        × (mark_failed uniform now job_id worker f t ≡ some (t, false))
        × (extend_lease now job_id worker lease t ≡ t)
        × (extend_leases now (job_id ∷ []) worker lease t ≡ t)
        × (release_jobs (job_id ∷ []) worker t ≡ (t, 0))
  unfolding mark_succeeded mark_succeeded_in_transaction extend_lease extend_leases release_jobs
  fenced uniform now lease f = (
    succeeded_not,
    succeeded_not,
    mark_failed_unowned uniform now job_id worker f t (ap fetch_one nothing),
    ap (λ (rows : List Job). record t { rows = rows })
        (update_where_none (holds job_id worker) (set_extended now lease) t.rows lost),
    ap (λ (rows : List Job). record t { rows = rows })
        (update_where_none (holds_any (job_id ∷ []) worker) (set_extended now lease) t.rows listed),
    ap₂ (λ (rows : List Job) (c : ℕ). (record t { rows = rows }, c))
        (update_where_none (holds_any (job_id ∷ []) worker) set_released t.rows listed)
        (count_where_none (holds_any (job_id ∷ []) worker) t.rows listed),
  )
    where
      nothing : select_where (holds job_id worker) t.rows ≡ []
      nothing = select_where_none (holds job_id worker) t.rows lost

      succeeded_not : mark_succeeded_in_transaction now job_id worker t ≡ (t, false)
      succeeded_not =
          ap₂
            (λ (rows : List Job) (found : List Job).
              (record t { rows = rows }, is_found (fetch_one found)))
            (update_where_none (holds job_id worker) (set_succeeded now) t.rows lost) nothing
