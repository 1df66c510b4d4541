-- ===== src/Jobs/Enqueue/Found.antt =====
-- A job is found again under the id that enqueue returned.
use durable_queue.Prelude.{ℕ, ◌≡◌, Option, none, some, String}
use durable_queue.Jobs.{Job, JobTable}
use durable_queue.Jobs.Enqueue.{new_row}

-- What get_job finds for an enqueue: a new row as it was asked for, or the row that has the key already.
abbrev pub Found : ℕ → String → String → Option String → JobTable → Job → Option Job → Type 0
Found now task args key t j none = j ≡ new_row now t.next_id task args key
Found now task args key t j (some old) = (j ≡ old) × (j.idempotency_key ≡ key)
