-- ===== src/Examples/Jobs.antt =====
-- The theorems on the statements of jobs.py at concrete inputs.
use durable_queue.Prelude.{
  ◌≡◌, refl, ◌+◌, true, false, ◌&&◌, not, [], ◌∷◌, some, none, All, Distinct, contains, length, min,
  arith,
}
use durable_queue.Sql.{update_where, count_where, select_where, fetch_one}
use durable_queue.Jobs.{JobTable, get_job, owned_by, holds}
use durable_queue.Jobs.Rows.{ids}
use durable_queue.Jobs.Claim.{due, before, claim_ids, claim_jobs}
use durable_queue.Jobs.Claim.Order.{claim_fifo, claim_batch}
use durable_queue.Jobs.Finish.{Failure, mark_failed, compute_backoff}
use durable_queue.Jobs.Finish.Guard.{settle, mark_failed_owned}
use durable_queue.Jobs.Enqueue.{enqueue, enqueue_many, ok}
use durable_queue.Jobs.Enqueue.Dedup.{enqueue_each, enqueue_again}
use durable_queue.Jobs.Wellformed.Many.{enqueue_many-enqueue_each}
use durable_queue.Examples.Data.{free, held_job, waiting_job, one_held, one_held-IsWell}

abbrev three_jobs : JobTable
three_jobs = record {
  rows = waiting_job 1 7 ∷ waiting_job 2 5 ∷ record held_job { id = 3 } ∷ waiting_job 4 9 ∷ [];
  next_id = 5;
}

claims_earliest : claim_ids 10 free 2 three_jobs.rows ≡ 2 ∷ 1 ∷ []
unfolding claim_ids
claims_earliest = refl

three_jobs-Distinct : Distinct (ids three_jobs.rows)
three_jobs-Distinct = (refl, (refl, (refl, (refl, tt))))

claim_fifo_example :
    All
      (λ j.
        contains (claim_ids 10 free 2 three_jobs.rows) j.id ≡ true
        → All
            (λ k.
              (due 10 k && not (free k.id)) ≡ true
              → contains (claim_ids 10 free 2 three_jobs.rows) k.id ≡ false
              → before j k ≡ true)
            three_jobs.rows)
      three_jobs.rows
claim_fifo_example = claim_fifo 10 free 2 three_jobs.rows three_jobs-Distinct

claim_batch_example :
    All
      (λ k.
        (owned_by "a" k ≡ true)
        × (k.locked_until ≡ some (10 + 30))
        × (get_job k.id (claim_jobs 10 free "a" 30 2 three_jobs).0.rows ≡ some k))
      (claim_jobs 10 free "a" 30 2 three_jobs).1
    × (length (claim_jobs 10 free "a" 30 2 three_jobs).1
        ≡ min 2 (count_where (λ j. due 10 j && not (free j.id)) three_jobs.rows))
claim_batch_example = claim_batch 10 free "a" 30 2 three_jobs three_jobs-Distinct

abbrev timeout : Failure
timeout = record { error = "timeout"; permanent = false; max_attempts = some 3 }

held_found : fetch_one (select_where (holds 1 "a") one_held.rows) ≡ some held_job
unfolding select_where
held_found = refl

first_backoff : compute_backoff (λ b. b) (held_job.attempts + 1) ≡ some 2000000
unfolding compute_backoff
first_backoff = refl

mark_failed_owned_example :
    mark_failed (λ b. b) 20 1 "a" timeout one_held
    ≡ some (
      record one_held {
        rows = update_where (holds 1 "a") (settle 20 2000000 timeout) one_held.rows;
      },
      true,
    )
mark_failed_owned_example =
    mark_failed_owned (λ b. b) 20 1 "a" timeout one_held 2000000 held_job (refl, (refl, tt))
      held_found first_backoff

enqueue_again_example :
    ((enqueue 50 "other" "[]" (some "k") (enqueue 40 "award_credit" "{}" (some "k") one_held).0).1
      ≡ (enqueue 40 "award_credit" "{}" (some "k") one_held).1)
    × ((enqueue 50 "other" "[]"
          (some "k")
          (enqueue 40 "award_credit" "{}" (some "k") one_held).0).0.rows
        ≡ (enqueue 40 "award_credit" "{}" (some "k") one_held).0.rows)
enqueue_again_example = enqueue_again 40 "award_credit" "{}" "k" one_held 50 "other" "[]"

enqueue_many-enqueue_each_example :
    enqueue_many 40 "award_credit" ("{}" ∷ "[]" ∷ []) (some (some "k" ∷ none ∷ [])) one_held
    ≡ ok (enqueue_each 40 "award_credit" ("{}" ∷ "[]" ∷ []) (some "k" ∷ none ∷ []) one_held)
enqueue_many-enqueue_each_example =
    enqueue_many-enqueue_each 40 "award_credit" ("{}" ∷ "[]" ∷ []) (some "k" ∷ none ∷ []) one_held
      one_held-IsWell (omega arith) ((refl, tt), (tt, tt))
