-- ===== src/Jobs/Claim.antt =====
-- jobs.py: claim_jobs and claim_next_job.
pub mod Order
use durable_queue.Prelude.{
  ℕ, ◌+◌, String, Bool, ◌&&◌, ◌||◌, not, List, map, Option, some, take, contains, ◌==◌, ltb, leb,
}
use durable_queue.Sql.{select_where, update_where, order_by, fetch_one}
use durable_queue.Jobs.{Job, JobTable, running, is_pending}

-- status = 'pending' AND run_at <= now()
abbrev pub due : ℕ → Job → Bool
due now j = is_pending j.status && leb j.run_at now

-- ORDER BY run_at, id
abbrev pub before : Job → Job → Bool
before a b = ltb a.run_at b.run_at || (a.run_at == b.run_at && leb a.id b.id)

-- What the inner SELECT … FOR UPDATE SKIP LOCKED finds, in its order, before LIMIT.
unfoldable pub claimable : ℕ → (ℕ → Bool) → List Job → List Job
unfolding select_where order_by
claimable now locked rows =
    order_by before (select_where (λ j. due now j && not (locked j.id)) rows)

unfoldable pub claim_ids : ℕ → (ℕ → Bool) → ℕ → List Job → List ℕ
unfolding claimable
claim_ids now locked batch_size rows = map (λ j. j.id) (take batch_size (claimable now locked rows))

abbrev pub set_claimed : ℕ → String → ℕ → Job → Job
set_claimed now worker lease j = record j {
  status = running;
  locked_by = some worker;
  locked_until = some (now + lease);
}

-- The rows returned (the program reads their id, task and args), in the order of the UPDATE.
unfoldable pub claim_jobs : ℕ → (ℕ → Bool) → String → ℕ → ℕ → JobTable → JobTable × List Job
unfolding claim_ids update_where
claim_jobs now locked worker lease batch_size t =
    let ids = claim_ids now locked batch_size t.rows in
    (
      record t {
        rows = update_where (λ j. contains ids j.id) (set_claimed now worker lease) t.rows;
      },
      map (set_claimed now worker lease) (select_where (λ j. contains ids j.id) t.rows),
    )

unfoldable pub claim_next_job : ℕ → (ℕ → Bool) → String → ℕ → JobTable → JobTable × Option Job
unfolding claim_jobs
claim_next_job now locked worker lease t =
    let (t', claimed) = claim_jobs now locked worker lease 1 t in (t', fetch_one claimed)
