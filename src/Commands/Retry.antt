-- ===== src/Commands/Retry.antt =====
-- The retry of a dead-lettered job.
use mathlib.Core.Option
use durable_queue.Prelude.{
  ℕ, ◌≡◌, refl, ap, ◌∙◌, Bool, true, false, List, [], ◌∷◌, Option, none, some, inl, inr, ◌⊎◌, arith,
  Bool-cases, All, All-every, Each, ltb, ◌==◌, if◌then◌else◌,
}
use durable_queue.Sql.{count_where}
use durable_queue.Sql.Laws.{fetch_one-some, All-fetch_one, Each-update_where}
use durable_queue.Database.{Link, answered, broken, unheard, failed, transact}
use durable_queue.Jobs.{Job, JobTable, pending, is_dead, get_job}
use durable_queue.Jobs.Lookup.{get_job-update_where}
use durable_queue.Jobs.Retention.{set_reset, dead_with_id, retry_job}
use durable_queue.Commands.{
  Line, reset_to_pending, Exit, exit_status, print_retry, then_print, retry, Shell, command,
}

count_where-none :
    (p : Job → Bool) (rows : List Job)
    → ltb 0 (count_where p rows) ≡ false
    → All (λ j. p j ≡ false) rows
unfolding count_where
count_where-none p [] h = tt
count_where-none p (x ∷ xs) h = elim (Bool-cases (p x)) [
  | inl e ↦ absurd (some_counted e h)
  | inr e ↦ (e, count_where-none p xs (rw (e, count_where) at h))
]
  where
    some_counted : p x ≡ true → ltb 0 (count_where p (x ∷ xs)) ≡ false → ⊥
    some_counted e q = ground (arith, e, q)

abbrev pub Untouched : ℕ → Job → Job → Type 0
Untouched job_id x y = (x.id == job_id) ≡ false → y ≡ x

retry_job-dead :
    (now job_id : ℕ) (t : JobTable) (j : Job)
    → get_job job_id t.rows ≡ some j
    → is_dead j.status ≡ true
    → (get_job job_id (retry_job now job_id t).0.rows ≡ some (set_reset now j))
      × ((retry_job now job_id t).1 ≡ true)
      × Each (Untouched job_id) t.rows (retry_job now job_id t).0.rows
unfolding retry_job get_job
retry_job-dead now job_id t j e d = (
  get_job-update_where (dead_with_id job_id) (set_reset now) job_id (λ r. refl) t.rows
      ∙ ap (Option.map (λ r. if dead_with_id job_id r then set_reset now r else r)) e
      ∙ ap (λ b. some (if b then set_reset now j else j)) picked,
  counted (Bool-cases (ltb 0 (count_where (dead_with_id job_id) t.rows))),
  Each-update_where (dead_with_id job_id) (Untouched job_id) (set_reset now) (λ x _. refl) t.rows
      (All-every _ (λ x p n. absurd (differs x p n)) t.rows),
)
  where
    picked : dead_with_id job_id j ≡ true
    picked = ground (arith, d, fetch_one-some (λ r. r.id == job_id) t.rows j e)

    differs : (x : Job) → dead_with_id job_id x ≡ true → (x.id == job_id) ≡ false → ⊥
    differs x p n = ground (arith, p, n)

    clashes : dead_with_id job_id j ≡ false → ⊥
    clashes n = ground (arith, n, picked)

    counted :
        (ltb 0 (count_where (dead_with_id job_id) t.rows) ≡ true)
          ⊎ (ltb 0 (count_where (dead_with_id job_id) t.rows) ≡ false)
        → ltb 0 (count_where (dead_with_id job_id) t.rows) ≡ true
    counted (inl h) = h
    counted (inr h) = absurd (
        clashes (
          All-fetch_one (λ r. r.id == job_id) (λ r. dead_with_id job_id r ≡ false) t.rows j
            (count_where-none (dead_with_id job_id) t.rows h) e))

-- A retry of that job has been carried out: it is pending, due at once, with nothing counted against it and its
-- last error kept, and no row of another id has changed.
pub record IsReset (now job_id : ℕ) (j : Job) (t t' : JobTable) : Type 0 where
  pub row : Job
  pub found : get_job job_id t'.rows ≡ some row
  pub waits : row.status ≡ pending
  pub at_once : row.run_at ≡ now
  pub no_attempts : row.attempts ≡ 0
  pub no_recoveries : row.recoveries ≡ 0
  pub unfinished : row.finished_at ≡ none
  pub same_error : row.last_error ≡ j.last_error
  pub others : Each (Untouched job_id) t.rows t'.rows

retry_job-IsReset :
    (now job_id : ℕ) (t : JobTable) (j : Job)
    → get_job job_id t.rows ≡ some j
    → is_dead j.status ≡ true
    → IsReset now job_id j t (retry_job now job_id t).0
retry_job-IsReset now job_id t j e d =
    let (found, _, others) = retry_job-dead now job_id t j e d in
    record {
      row = set_reset now j;
      found = found;
      waits = refl;
      at_once = refl;
      no_attempts = refl;
      no_recoveries = refl;
      unfinished = refl;
      same_error = refl;
      others = others;
    }

-- What the command does and exits with, by what becomes of its connection and its transaction.
abbrev pub AfterRetry :
    Link → Option ℕ → ℕ → ℕ → Job → JobTable → JobTable × (List Line × Exit) → Type 0
AfterRetry answered (some i) now job_id j t (left, (lines, exit)) =
    (exit_status exit ≡ 0) × (lines ≡ reset_to_pending job_id ∷ []) × IsReset now job_id j t left
AfterRetry unheard (some i) now job_id j t (left, (lines, exit)) =
    (exit_status exit ≡ 1) × (lines ≡ []) × IsReset now job_id j t left
AfterRetry _ _ now job_id j t (left, (lines, exit)) =
    (exit_status exit ≡ 1) × (lines ≡ []) × (left ≡ t)

carried_out :
    (link : Link) (got : Option ℕ) (now job_id : ℕ) (j : Job) (t : JobTable)
    (made : JobTable × Bool)
    → made.1 ≡ true
    → IsReset now job_id j t made.0
    → AfterRetry link got now job_id j t
        (then_print (transact link got t made) (print_retry job_id))
unfolding transact print_retry
carried_out answered (some i) now job_id j t (left, true) e r = (refl, refl, r)
carried_out answered (some i) now job_id j t (left, false) e r = cc
carried_out unheard (some i) now job_id j t made e r = (refl, refl, r)
carried_out broken (some i) now job_id j t made e r = (refl, refl, refl)
carried_out failed (some i) now job_id j t made e r = (refl, refl, refl)
carried_out answered none now job_id j t made e r = (refl, refl, refl)
carried_out unheard none now job_id j t made e r = (refl, refl, refl)
carried_out broken none now job_id j t made e r = (refl, refl, refl)
carried_out failed none now job_id j t made e r = (refl, refl, refl)

-- Whatever becomes of its connection, `retry` of a dead job: answered, it says so, exits with
-- status 0 and the job is pending, due at once, with no attempt, no recovery and no end counted
-- against it and its last error kept, and no row of another id has changed; with the answer to its
-- COMMIT lost, all of that has been done too, and it exits with status 1 and says nothing; in any
-- other case it exits so and the table is as it was.
pub retry_lem :
    (w : Shell) (job_id : ℕ) (t : JobTable) (j : Job)
    → get_job job_id t.rows ≡ some j
    → is_dead j.status ≡ true
    → AfterRetry w.link w.connection w.now job_id j t (command (retry job_id) w t)
unfolding command
retry_lem w job_id t j e d =
    carried_out w.link w.connection w.now job_id j t (retry_job w.now job_id t)
      (retry_job-dead w.now job_id t j e d).1 (retry_job-IsReset w.now job_id t j e d)
