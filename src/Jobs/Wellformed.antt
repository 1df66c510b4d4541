-- ===== src/Jobs/Wellformed.antt =====
-- The invariant of the `jobs` table, which every statement of jobs.py keeps.
pub mod Changes
pub mod Inserts
pub mod Many
use durable_queue.Prelude.{ℕ, ◌<◌, ◌≡◌, false, List, [], ◌∷◌, map, Option, All, Distinct, String}
use durable_queue.Jobs.{Job, JobTable}
use durable_queue.Jobs.Rows.{ids}
use durable_queue.Jobs.Enqueue.{clash}
use durable_queue.Jobs.Lifecycle.Invariants.{IsShaped, IsTriable}

abbrev pub keys : List Job → List (Option String)
keys rows = map (λ j. j.idempotency_key) rows

-- UNIQUE (idempotency_key)
abbrev pub DistinctKeys : List (Option String) → Type 0
DistinctKeys [] = Unit
DistinctKeys (k ∷ ks) = All (λ l. clash k l ≡ false) ks × DistinctKeys ks

pub record IsWell (t : JobTable) : Type 0 where
  pub distinct : Distinct (ids t.rows)
  pub below : All (λ j. j.id < t.next_id) t.rows
  pub distinct_keys : DistinctKeys (keys t.rows)
  pub shaped : All IsShaped t.rows
  pub triable : All IsTriable t.rows
