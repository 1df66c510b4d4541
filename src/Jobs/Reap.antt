-- ===== src/Jobs/Reap.antt =====
-- jobs.py: reap_expired_jobs.
pub mod Sweep
use durable_queue.Prelude.{
  ℕ, ◌+◌, Bool, false, ◌&&◌, not, List, map, Option, none, some, take, contains, ltb, leb,
}
use durable_queue.Sql.{select_where, update_where, count_where}
use durable_queue.Jobs.{Job, JobTable, pending, dead, is_running}

-- column < now(), for a column that may be NULL.
abbrev pub is_before : Option ℕ → ℕ → Bool
is_before none now = false
is_before (some at) now = ltb at now

-- status = 'running' AND locked_until < now()
abbrev pub expired : ℕ → Job → Bool
expired now j = is_running j.status && is_before j.locked_until now

-- … AND recoveries + 1 >= max_recoveries
abbrev pub poisoned : ℕ → Job → Bool
poisoned now j = expired now j && leb j.max_recoveries (j.recoveries + 1)

-- SELECT id … WHERE test FOR UPDATE SKIP LOCKED LIMIT n
unfoldable pub sweep_ids : (Job → Bool) → (ℕ → Bool) → ℕ → List Job → List ℕ
unfolding select_where
sweep_ids test locked n rows =
    map (λ j. j.id) (take n (select_where (λ j. test j && not (locked j.id)) rows))

abbrev pub set_poisoned : ℕ → Job → Job
set_poisoned now j = record j {
  status = dead;
  finished_at = some now;
  recoveries = j.recoveries + 1;
  locked_by = none;
  locked_until = none;
  last_error = some "worker repeatedly died while running this job";
}

abbrev pub set_recovered : Job → Job
set_recovered j = record j {
  status = pending;
  recoveries = j.recoveries + 1;
  locked_by = none;
  locked_until = none;
}

-- One sweep: the rows after it, and its rowcount.
unfoldable pub sweep : (Job → Bool) → (Job → Job) → (ℕ → Bool) → ℕ → List Job → List Job × ℕ
unfolding sweep_ids update_where count_where
sweep test f locked n rows =
    let ids = sweep_ids test locked n rows in
    (update_where (λ j. contains ids j.id) f rows, count_where (λ j. contains ids j.id) rows)

-- The two statements of the transaction; other transactions may hold other rows by the second.
unfoldable pub reap_expired_jobs : ℕ → (locked locked' : ℕ → Bool) → ℕ → JobTable → JobTable × ℕ
unfolding sweep
reap_expired_jobs now locked locked' reap_batch t =
    let (rows', dead_lettered) = sweep (poisoned now) (set_poisoned now) locked reap_batch t.rows in
    let (rows'', recovered) = sweep (expired now) set_recovered locked' reap_batch rows' in
    (record t { rows = rows'' }, dead_lettered + recovered)

-- The two UPDATEs apart, as they are over a connection in autocommit mode: each is a transaction, with a
-- now() of its own.
unfoldable pub bury_expired : ℕ → (ℕ → Bool) → ℕ → JobTable → JobTable × ℕ
unfolding sweep
bury_expired now locked reap_batch t =
    let (rows, n) = sweep (poisoned now) (set_poisoned now) locked reap_batch t.rows in
    (record t { rows = rows }, n)

unfoldable pub recover_expired : ℕ → (ℕ → Bool) → ℕ → JobTable → JobTable × ℕ
unfolding sweep
recover_expired now locked reap_batch t =
    let (rows, n) = sweep (expired now) set_recovered locked reap_batch t.rows in
    (record t { rows = rows }, n)
