-- ===== src/Jobs/Enqueue.antt =====
-- jobs.py: enqueue and enqueue_many, with ENQUEUE_SQL and ENQUEUE_MANY_SQL.
pub mod Upsert
pub mod Dedup
pub mod Found
use durable_queue.Prelude.{
  ℕ, ◌+◌, String, Bool, true, false, List, [], ◌∷◌, ◌++◌, Option, none, some, contains, ◌==◌,
  if◌then◌else◌,
}
use durable_queue.Sql.{select_where, update_where, fetch_one}
use durable_queue.Jobs.{Job, JobTable, pending, is_text}

-- A key that an INSERT brings and one that is there: NULL is equal to nothing.
abbrev pub clash : Option String → Option String → Bool
clash none there = false
clash (some key) there = is_text there key

-- idempotency_key = EXCLUDED.idempotency_key, the conflict that ON CONFLICT looks for.
abbrev pub same_key : Option String → Job → Bool
same_key key j = clash key j.idempotency_key

unfoldable pub conflicting : Option String → List Job → Option Job
unfolding select_where
conflicting key rows = fetch_one (select_where (same_key key) rows)

-- The row of an INSERT, with the defaults of the schema.
abbrev pub new_row : ℕ → ℕ → String → String → Option String → Job
new_row now job_id task args key = record {
  id = job_id;
  task = task;
  args = args;
  idempotency_key = key;
  status = pending;
  run_at = now;
  attempts = 0;
  max_attempts = 5;
  recoveries = 0;
  max_recoveries = 10;
  locked_by = none;
  locked_until = none;
  last_error = none;
  created_at = now;
  finished_at = none;
}

-- INSERT … ON CONFLICT (idempotency_key) DO UPDATE SET idempotency_key = EXCLUDED.idempotency_key
-- RETURNING id. The sequence moves on also when the row is not inserted.
unfoldable pub upsert : ℕ → String → String → Option String → JobTable → JobTable × ℕ
unfolding conflicting update_where
upsert now task args key t = elim (conflicting key t.rows) [
  | none ↦ (
    record { rows = t.rows ++ new_row now t.next_id task args key ∷ []; next_id = t.next_id + 1 },
    t.next_id,
  )
  | some old ↦ (
    record {
      rows = update_where (same_key key) (λ j. record j { idempotency_key = key }) t.rows;
      next_id = t.next_id + 1;
    },
    old.id,
  )
]

unfoldable pub enqueue : ℕ → String → String → Option String → JobTable → JobTable × ℕ
unfolding upsert
enqueue now task args key t = upsert now task args key t

-- What Postgres raises for a statement of the program: the statement then changes nothing.
pub data SqlError : Type 0 where
  cardinality_violation not_null_violation : SqlError

pub data Outcome {ℓ} (A : Type ℓ) : Type ℓ where
  ok : A → Outcome A
  err : SqlError → Outcome A

-- unnest(args, keys) AS t(a, k): the shorter array is padded with NULLs.
unfoldable pub unnest : List String → List (Option String) → List (Option String × Option String)
unnest [] [] = []
unnest (a ∷ args) [] = (some a, none) ∷ unnest args []
unnest [] (k ∷ keys) = (none, k) ∷ unnest [] keys
unnest (a ∷ args) (k ∷ keys) = (some a, k) ∷ unnest args keys

-- RETURNING gives the row's id ahead of the others'.
abbrev pub prepend : ℕ → Outcome (JobTable × List ℕ) → Outcome (JobTable × List ℕ)
prepend job_id (ok (t, ids)) = ok (t, job_id ∷ ids)
prepend job_id (err e) = err e

-- The rows of INSERT … SELECT in turn. `args` is NOT NULL, and ON CONFLICT DO UPDATE may not affect
-- a row that the same statement has inserted or updated already (`touched`).
unfoldable pub insert_rows :
    ℕ
    → String
    → List (Option String × Option String)
    → List ℕ
    → JobTable
    → Outcome (JobTable × List ℕ)
unfolding upsert
insert_rows now task [] touched t = ok (t, [])
insert_rows now task ((none, key) ∷ rest) touched t = err not_null_violation
insert_rows now task ((some args, key) ∷ rest) touched t =
    let (t', job_id) = upsert now task args key t in
    let others = insert_rows now task rest (job_id ∷ touched) t' in
    if contains touched job_id then err cardinality_violation else prepend job_id others

-- `idempotency_keys = [None] * len(args_list)`
abbrev pub no_keys : List String → List (Option String)
no_keys [] = []
no_keys (a ∷ args) = none ∷ no_keys args

unfoldable pub enqueue_many :
    ℕ
    → String
    → List String
    → Option (List (Option String))
    → JobTable
    → Outcome (JobTable × List ℕ)
unfolding insert_rows unnest
enqueue_many now task [] keys t = ok (t, [])
enqueue_many now task (a ∷ args) none t =
    insert_rows now task (unnest (a ∷ args) (no_keys (a ∷ args))) [] t
enqueue_many now task (a ∷ args) (some keys) t = insert_rows now task (unnest (a ∷ args) keys) [] t
