-- ===== src/Benchmark.antt =====
-- scripts/benchmark.py: how a run is sized, waited for and summed up. The workers are other processes, so each look
-- of the drain loop finds the table as they have left it by then.
pub mod Drain
pub mod Ceiling
pub mod Ranks
use durable_queue.Prelude.{
  ℕ, zero, suc, ◌+◌, ◌-◌, ◌*◌, ◌/◌, max, min, Bool, false, ◌==◌, ◌||◌, not, List, [], ◌∷◌, Option,
  none, some, length, ltb, leb, if◌then◌else◌,
}
use durable_queue.Sql.{count_where, order_by, update_where, fetch_one}
use durable_queue.Jobs.{Job, running, succeeded, is_finished, is_pending, is_running}
use durable_queue.Jobs.Enqueue.{new_row}
use durable_queue.Jobs.Claim.{claim_ids}

-- EXISTS(… WHERE status = 'pending') OR EXISTS(… WHERE status = 'running')
unfoldable pub any_unfinished : List Job → Bool
unfolding count_where
any_unfinished rows =
    ltb 0 (count_where (λ j. is_pending j.status) rows)
    || ltb 0 (count_where (λ j. is_running j.status) rows)

-- count(*) WHERE status NOT IN ('succeeded', 'dead')
unfoldable pub pending_count : List Job → ℕ
unfolding count_where
pending_count rows = count_where (λ j. not (is_finished j.status)) rows

-- A turn of the drain loop: the rows that its query finds, the clock where it returns or is tested, and the rows that
-- the count in the error's text finds.
pub record Poll : Type 0 where
  pub found : List Job
  pub clock : ℕ
  pub counted : List Job

-- How _drain ends: it returns the time that has passed, raises with the count, or is still at it.
pub data Drained : Type 0 where
  drained : (elapsed : ℕ) → Drained
  not_drained : (left : ℕ) → Drained
  draining : Drained

unfoldable pub drain_until : (begun deadline : ℕ) → List Poll → Drained
unfolding any_unfinished pending_count
drain_until begun deadline [] = draining
drain_until begun deadline (q ∷ qs) =
    let rest = drain_until begun deadline qs in
    if any_unfinished q.found
    then (if ltb deadline q.clock then not_drained (pending_count q.counted) else rest)
    else drained (q.clock - begun)

unfoldable pub drain : (begun timeout : ℕ) → List Poll → Drained
unfolding drain_until
drain begun timeout qs = drain_until begun (begun + timeout) qs

-- base * max(1, in_flight // 4)
unfoldable pub jobs_for : (base in_flight : ℕ) → ℕ
jobs_for base in_flight = base * max 1 (in_flight / 4)

-- ordered[index], from either end in Python; an index past the end raises, and so does -1 where there is none.
abbrev pub entry_at : List ℕ → ℕ → Option ℕ
entry_at [] i = none
entry_at (x ∷ xs) zero = some x
entry_at (x ∷ xs) (suc i) = entry_at xs i

-- min(int(len(ordered) * pct), len(ordered) - 1), for a share in hundredths. It is -1 for no values, where there is no
-- entry either.
abbrev pub rank : (hundredths n : ℕ) → ℕ
rank hundredths n = min (n * hundredths / 100) (n - 1)

unfoldable pub percentile : List ℕ → (hundredths : ℕ) → Option ℕ
unfolding order_by
percentile values hundredths =
    let ordered = order_by leb values in entry_at ordered (rank hundredths (length ordered))

-- INSERT INTO jobs (task, args) VALUES ('raw', '{}'), job_count times in one transaction.
unfoldable pub raw_jobs : (now next_id job_count : ℕ) → List Job
raw_jobs now next_id zero = []
raw_jobs now next_id (suc n) = new_row now next_id "raw" "{}" none ∷ raw_jobs now (suc next_id) n

abbrev pub nobody : ℕ → Bool
nobody i = false

-- UPDATE jobs SET status = 'running', locked_by = 'raw' WHERE id = …
unfoldable pub raw_claim : ℕ → List Job → List Job
unfolding update_where
raw_claim i rows =
    update_where (λ j. j.id == i) (λ j. record j { status = running; locked_by = some "raw" }) rows

-- UPDATE jobs SET status = 'succeeded', finished_at = now() WHERE id = …
unfoldable pub raw_complete : (now : ℕ) → ℕ → List Job → List Job
unfolding update_where
raw_complete now i rows =
    update_where (λ j. j.id == i) (λ j. record j { status = succeeded; finished_at = some now })
      rows

-- The cycles of measure_raw_ceiling, each with the now() of its claim and of its completion, and how many jobs it has
-- processed when the claim finds none; `none` where the cycles end before.
unfoldable pub raw_cycles : List (ℕ × ℕ) → (processed : ℕ) → List Job → List Job × Option ℕ
unfolding claim_ids raw_claim raw_complete
raw_cycles [] processed rows = (rows, none)
raw_cycles (c ∷ cs) processed rows = elim (fetch_one (claim_ids c.0 nobody 1 rows)) [
  | none ↦ (rows, some processed)
  | some i ↦ raw_cycles cs (processed + 1) (raw_complete c.1 i (raw_claim i rows))
]
