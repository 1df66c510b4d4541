-- ===== src/Jobs/Finish/Guard.antt =====
-- mark_failed's two UPDATEs, under one row lock, come to a single guarded UPDATE.
use durable_queue.Prelude.{
  ℕ, ◌+◌, ◌≡◌, refl, sym, ap, ◌∙◌, String, Bool, true, false, List, Option, none, some, inl, inr,
  All-imp, Distinct, Bool-cases, ◌||◌, leb, if◌then◌else◌,
}
use mathlib.Core.Option
use durable_queue.Sql.{select_where, update_where, fetch_one}
use durable_queue.Sql.Laws.{update_where_twice, update_where_none, fetch_one-none, fetch_one-map}
use durable_queue.Jobs.{Job, JobTable, pending, dead, holds}
use durable_queue.Jobs.Rows.{ids, holds-has_id, holds_one}
use durable_queue.Jobs.Finish.{
  Failure, ends, set_attempted, set_dead, set_retried, has_id, compute_backoff, finish_failure,
  mark_failed,
}

-- What a failure makes of the job's row, column by column: the attempt counts, and a limit that the caller gives
-- is taken over; the job is dead if the failure is permanent or the attempts are used up.
abbrev pub limit : Option ℕ → Job → ℕ
limit none j = j.max_attempts
limit (some n) j = n

abbrev pub settle_within : (max_attempts now delay : ℕ) → Failure → Job → Job
settle_within max_attempts now delay f j =
    if f.permanent || leb max_attempts (j.attempts + 1)
    then record j {
      status = dead;
      attempts = j.attempts + 1;
      max_attempts = max_attempts;
      finished_at = some now;
      last_error = some f.error;
      locked_by = none;
      locked_until = none;
    }
    else record j {
      status = pending;
      attempts = j.attempts + 1;
      max_attempts = max_attempts;
      run_at = now + delay;
      last_error = some f.error;
      locked_by = none;
      locked_until = none;
    }

abbrev pub settle : ℕ → ℕ → Failure → Job → Job
settle now delay f j = settle_within (limit f.max_attempts j) now delay f j

-- The code's setters come to that.
failed_row : ℕ → ℕ → Failure → Job → Job
failed_row now delay f j =
    if ends f (set_attempted f.max_attempts j)
    then set_dead now f.error (set_attempted f.max_attempts j)
    else set_retried now delay f.error (set_attempted f.max_attempts j)

failed_row-settle :
    (now delay : ℕ) (f : Failure) (j : Job) → failed_row now delay f j ≡ settle now delay f j
unfolding failed_row
failed_row-settle now delay f j = by_limit f.max_attempts
  where
    by_limit :
        (m : Option ℕ)
        → (if ends f (set_attempted m j)
            then set_dead now f.error (set_attempted m j)
            else set_retried now delay f.error (set_attempted m j))
          ≡ settle_within (limit m j) now delay f j
    by_limit none = refl
    by_limit (some n) = refl

pub set_dead-settle :
    (now delay : ℕ) (f : Failure) (j : Job)
    → ends f (set_attempted f.max_attempts j) ≡ true
    → set_dead now f.error (set_attempted f.max_attempts j) ≡ settle now delay f j
unfolding failed_row
set_dead-settle now delay f j e =
    sym (
      ap
        (λ b.
          if b
          then set_dead now f.error (set_attempted f.max_attempts j)
          else set_retried now delay f.error (set_attempted f.max_attempts j))
        e)
    ∙ failed_row-settle now delay f j

pub set_retried-settle :
    (now delay : ℕ) (f : Failure) (j : Job)
    → ends f (set_attempted f.max_attempts j) ≡ false
    → set_retried now delay f.error (set_attempted f.max_attempts j) ≡ settle now delay f j
unfolding failed_row
set_retried-settle now delay f j e =
    sym (
      ap
        (λ b.
          if b
          then set_dead now f.error (set_attempted f.max_attempts j)
          else set_retried now delay f.error (set_attempted f.max_attempts j))
        e)
    ∙ failed_row-settle now delay f j

module _ (uniform : ℕ → ℕ) (now job_id : ℕ) (worker : String) (f : Failure) (t : JobTable) where
  abbrev rows' : List Job
  rows' = update_where (holds job_id worker) (set_attempted f.max_attempts) t.rows

  twice :
      (g : Job → Job) (delay : ℕ) (row : Job)
      → Distinct (ids t.rows)
      → fetch_one (select_where (holds job_id worker) t.rows) ≡ some row
      → g (set_attempted f.max_attempts row) ≡ settle now delay f row
      → update_where (has_id job_id) g rows'
        ≡ update_where (holds job_id worker) (settle now delay f) t.rows
  twice g delay row d found e =
      update_where_twice (holds job_id worker) (has_id job_id) (set_attempted f.max_attempts) g
        (settle now delay f) t.rows (λ j. refl) (holds-has_id job_id worker row t.rows d found)
        (All-imp _ _
          (λ j only h.
            ap (λ (r : Job). g (set_attempted f.max_attempts r)) (only h)
            ∙ e
            ∙ sym (ap (settle now delay f) (only h)))
          t.rows (holds_one job_id worker row t.rows d found))

  abbrev finish : Option Job → Option (JobTable × Bool)
  finish = finish_failure uniform now job_id f t rows'

  returned :
      (o : Option Job)
      → fetch_one (select_where (holds job_id worker) t.rows) ≡ o
      → mark_failed uniform now job_id worker f t
        ≡ finish (Option.map (set_attempted f.max_attempts) o)
  unfolding mark_failed
  returned o e = ap finish (
      fetch_one-map (set_attempted f.max_attempts) (select_where (holds job_id worker) t.rows)
      ∙ ap (Option.map (set_attempted f.max_attempts)) e)

  -- A worker that does not hold the job changes nothing.
  pub mark_failed_unowned :
      fetch_one (select_where (holds job_id worker) t.rows) ≡ none
      → mark_failed uniform now job_id worker f t ≡ some (t, false)
  unfolding finish_failure
  mark_failed_unowned e =
      returned none e
      ∙ ap (λ (rows : List Job). some (record t { rows = rows }, false))
          (update_where_none (holds job_id worker) _ t.rows (fetch_one-none _ t.rows e))

  -- On a table with distinct ids, for the worker that holds the job and where the backoff does not
  -- overflow, mark_failed returns true and its two UPDATEs come to one guarded UPDATE, which is
  -- given column by column: the attempt is counted, a limit that the caller gives is taken over,
  -- the error is recorded and the lease let go; the row is dead and finished now if the failure is
  -- permanent or the attempts are used up, and else pending and due after the backoff.
  pub mark_failed_owned :
      (delay : ℕ) (row : Job)
      → Distinct (ids t.rows)
      → fetch_one (select_where (holds job_id worker) t.rows) ≡ some row
      → compute_backoff uniform (row.attempts + 1) ≡ some delay
      → mark_failed uniform now job_id worker f t
        ≡ some (
          record t { rows = update_where (holds job_id worker) (settle now delay f) t.rows },
          true,
        )
  unfolding finish_failure
  mark_failed_owned delay row d e b =
      elim (Bool-cases (ends f (set_attempted f.max_attempts row))) [
        | inl last ↦
            returned (some row) e
            ∙ rw (last, finish_failure)
                (ap (λ (rows : List Job). some (record t { rows = rows }, true))
                  (twice (set_dead now f.error) delay row d e
                    (set_dead-settle now delay f row last)))
        | inr more ↦
            returned (some row) e
            ∙ rw (more, b, finish_failure)
                (ap (λ (rows : List Job). some (record t { rows = rows }, true))
                  (twice (set_retried now delay f.error) delay row d e
                    (set_retried-settle now delay f row more)))
      ]

  -- On a table with distinct ids, for the worker that holds the job and where the backoff
  -- overflows, mark_failed raises if the job is to be retried, and dead-letters it otherwise.
  pub mark_failed_overflow :
      (row : Job)
      → Distinct (ids t.rows)
      → fetch_one (select_where (holds job_id worker) t.rows) ≡ some row
      → compute_backoff uniform (row.attempts + 1) ≡ none
      → mark_failed uniform now job_id worker f t ≡ (
          if ends f (set_attempted f.max_attempts row)
          then some
              (record t { rows = update_where (holds job_id worker) (settle now 0 f) t.rows }, true)
          else none)
  unfolding finish_failure
  mark_failed_overflow row d e b = elim (Bool-cases (ends f (set_attempted f.max_attempts row))) [
    | inl last ↦
        returned (some row) e
        ∙ rw (last, finish_failure)
            (ap (λ (rows : List Job). some (record t { rows = rows }, true))
              (twice (set_dead now f.error) 0 row d e (set_dead-settle now 0 f row last)))
    | inr more ↦ returned (some row) e ∙ rw (more, b, finish_failure)
  ]
