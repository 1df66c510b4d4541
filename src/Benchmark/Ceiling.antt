-- ===== src/Benchmark/Ceiling.antt =====
-- The loop that measures what Postgres does without the library.
use durable_queue.Prelude.{
  ℕ, zero, suc, ◌+◌, ◌≤◌, ◌<◌, ◌≡◌, refl, ap, sym, ◌∙◌, Bool, true, false, not, List, [], ◌∷◌,
  Option, none, some, arith, All, All-imp, All-every, inl, inr, ◌⊎◌, subst, if◌then◌else◌, contains,
  Distinct, length, take, map, ◌==◌, ◌&&◌,
}
use durable_queue.Sql.{select_where, update_where, count_where, order_by, fetch_one}
use durable_queue.Sql.Laws.{length-select_where, update_where_twice}
use durable_queue.Sql.Sorting.{length-order_by, All-order_by}
use durable_queue.Jobs.{Job, running, succeeded, is_pending}
use durable_queue.Jobs.Rows.{ids}
use durable_queue.Jobs.Membership.{All-ids}
use durable_queue.Jobs.Claim.{due, before, claimable, claim_ids}
use durable_queue.Benchmark.{nobody, raw_jobs, raw_claim, raw_complete, raw_cycles}

abbrev waiting : Job → Bool
waiting j = is_pending j.status

abbrev set_done : ℕ → Job → Job
set_done now j = record j { status = succeeded; locked_by = some "raw"; finished_at = some now }

-- Each job waits, due by `start`, or has succeeded.
abbrev IsRaw : ℕ → Job → Type 0
IsRaw start j = ((waiting j ≡ true) × (j.run_at ≤ start)) ⊎ (j.status ≡ succeeded)

raw_cycle_lem :
    (now i : ℕ) (rows : List Job)
    → raw_complete now i (raw_claim i rows) ≡ update_where (λ j. j.id == i) (set_done now) rows
unfolding raw_complete raw_claim
raw_cycle_lem now i rows =
    update_where_twice (λ (j : Job). j.id == i) (λ (j : Job). j.id == i)
      (λ j. record j { status = running; locked_by = some "raw" })
      (λ j. record j { status = succeeded; finished_at = some now }) (set_done now) rows (λ j. refl)
      (All-every _ (λ j. refl) rows) (All-every _ (λ j e. refl) rows)

unmatched :
    (now i : ℕ) (rows : List Job)
    → contains (ids rows) i ≡ false
    → count_where waiting (update_where (λ j. j.id == i) (set_done now) rows)
      ≡ count_where waiting rows
unfolding count_where update_where
unmatched now i [] h = refl
unmatched now i (x ∷ xs) h = ground (arith, unmatched now i xs, h)

-- One fewer waits.
one_fewer :
    (now i : ℕ) (rows : List Job)
    → Distinct (ids rows)
    → contains (ids (select_where waiting rows)) i ≡ true
    → count_where waiting rows
      ≡ suc (count_where waiting (update_where (λ j. j.id == i) (set_done now) rows))
unfolding count_where update_where select_where
one_fewer now i [] d h = cc
one_fewer now i (x ∷ xs) d h = ground (arith, one_fewer now i xs d.1, unmatched now i xs, d.0, h)

select_same :
    (p q : Job → Bool) (rows : List Job)
    → All (λ j. p j ≡ q j) rows
    → select_where p rows ≡ select_where q rows
unfolding select_where
select_same p q [] h = refl
select_same p q (x ∷ xs) h = rw (h.0, select_same p q xs h.1)

is_due :
    (start now : ℕ) (j : Job)
    → start ≤ now
    → IsRaw start j
    → (due now j && not (nobody j.id)) ≡ waiting j
is_due start now j le (inl r) = ground (arith, le, r.0, r.1)
is_due start now j le (inr r) = ground (arith, r)

-- The claim finds a job that waits, or none does.
abbrev Chosen : Option ℕ → List Job → Type 0
Chosen none rows = count_where waiting rows ≡ 0
Chosen (some i) rows = contains (ids (select_where waiting rows)) i ≡ true

chosen :
    (start now : ℕ) (rows : List Job)
    → start ≤ now
    → All (IsRaw start) rows
    → Chosen (fetch_one (claim_ids now nobody 1 rows)) rows
unfolding claim_ids claimable
chosen start now rows le raw =
    by_list (order_by before (select_where (λ j. due now j && not (nobody j.id)) rows))
      (length-order_by before _ ∙ ap length same ∙ length-select_where waiting rows)
      (All-order_by before _ _ (
        subst (All (λ j. contains (ids (select_where waiting rows)) j.id ≡ true)) (sym same)
          (All-ids (select_where waiting rows))))
  where
    same : select_where (λ j. due now j && not (nobody j.id)) rows ≡ select_where waiting rows
    same =
        select_same (λ j. due now j && not (nobody j.id)) waiting rows
          (All-imp _ _ (λ j r. is_due start now j le r) rows raw)

    by_list :
        (js : List Job)
        → length js ≡ count_where waiting rows
        → All (λ j. contains (ids (select_where waiting rows)) j.id ≡ true) js
        → Chosen (fetch_one (map (λ j. j.id) (take 1 js))) rows
    by_list [] n c = sym n
    by_list (j ∷ js) n c = c.0

done-Distinct :
    (now i : ℕ) (rows : List Job)
    → ids (update_where (λ j. j.id == i) (set_done now) rows) ≡ ids rows
unfolding update_where
done-Distinct now i [] = refl
done-Distinct now i (x ∷ xs) = ground (arith, done-Distinct now i xs)

done-IsRaw :
    (start now i : ℕ) (rows : List Job)
    → All (IsRaw start) rows
    → All (IsRaw start) (update_where (λ j. j.id == i) (set_done now) rows)
unfolding update_where
done-IsRaw start now i [] h = tt
done-IsRaw start now i (x ∷ xs) h = (one (x.id == i), done-IsRaw start now i xs h.1)
  where
    one : (b : Bool) → IsRaw start (if b then set_done now x else x)
    one true = inr refl
    one false = h.0

none_waits :
    (start : ℕ) (rows : List Job)
    → All (IsRaw start) rows
    → count_where waiting rows ≡ 0
    → All (λ j. j.status ≡ succeeded) rows
unfolding count_where
none_waits start [] h z = tt
none_waits start (x ∷ xs) (inl r, h) z = absurd (ground (arith, r.0, z))
none_waits start (x ∷ xs) (inr r, h) z = (r, none_waits start xs h (ground (arith, r, z)))

Ran : ℕ → List Job × Option ℕ → Type 0
Ran n r = (r.1 ≡ some n) × All (λ j. j.status ≡ succeeded) r.0

raw_cycles-Ran :
    (start : ℕ) (cs : List (ℕ × ℕ)) (n : ℕ) (rows : List Job)
    → Distinct (ids rows)
    → All (IsRaw start) rows
    → All (λ c. start ≤ c.0) cs
    → count_where waiting rows < length cs
    → Ran (n + count_where waiting rows) (raw_cycles cs n rows)
unfolding raw_cycles Ran
raw_cycles-Ran start [] n rows d raw le few = absurd (omega (arith, few))
raw_cycles-Ran start (c ∷ cs) n rows d raw le few =
    by_choice (fetch_one (claim_ids c.0 nobody 1 rows)) (chosen start c.0 rows le.0 raw)
      (λ rs ds rws fewer. raw_cycles-Ran start cs (n + 1) rs ds rws le.1 fewer)
  where
    by_choice :
        (o : Option ℕ)
        → Chosen o rows
        → ((rs : List Job)
            → Distinct (ids rs)
            → All (IsRaw start) rs
            → count_where waiting rs < length cs
            → Ran (n + 1 + count_where waiting rs) (raw_cycles cs (n + 1) rs))
        → Ran (n + count_where waiting rows) (elim o [
          | none ↦ (rows, some n)
          | some i ↦ raw_cycles cs (n + 1) (raw_complete c.1 i (raw_claim i rows))
        ])
    by_choice none z go = (ap some (omega (arith, z)), none_waits start rows raw z)
    by_choice (some i) h go =
        subst (λ (rs : List Job). Ran (n + count_where waiting rows) (raw_cycles cs (n + 1) rs))
          (sym (raw_cycle_lem c.1 i rows))
          (subst (λ m. Ran m (raw_cycles cs (n + 1) rest)) (omega (arith, fewer))
            (go rest (subst Distinct (sym (done-Distinct c.1 i rows)) d)
              (done-IsRaw start c.1 i rows raw) (omega (arith, fewer, few))))
      where
        rest : List Job
        rest = update_where (λ j. j.id == i) (set_done c.1) rows

        fewer : count_where waiting rows ≡ suc (count_where waiting rest)
        fewer = one_fewer c.1 i rows d h

raw_jobs-waiting : (now k n : ℕ) → count_where waiting (raw_jobs now k n) ≡ n
unfolding raw_jobs count_where
raw_jobs-waiting now k zero = refl
raw_jobs-waiting now k (suc n) = ap suc (raw_jobs-waiting now (suc k) n)

raw_jobs-IsRaw : (now k n : ℕ) → All (IsRaw now) (raw_jobs now k n)
unfolding raw_jobs
raw_jobs-IsRaw now k zero = tt
raw_jobs-IsRaw now k (suc n) = (inl (refl, omega arith), raw_jobs-IsRaw now (suc k) n)

raw_jobs-below : (now k n i : ℕ) → i < k → contains (ids (raw_jobs now k n)) i ≡ false
unfolding raw_jobs
raw_jobs-below now k zero i h = refl
raw_jobs-below now k (suc n) i h =
    ground (arith, h, raw_jobs-below now (suc k) n i (omega (arith, h)))

raw_jobs-Distinct : (now k n : ℕ) → Distinct (ids (raw_jobs now k n))
unfolding raw_jobs
raw_jobs-Distinct now k zero = tt
raw_jobs-Distinct now k (suc n) =
    (raw_jobs-below now (suc k) n k (omega arith), raw_jobs-Distinct now (suc k) n)

-- Over the jobs that measure_raw_ceiling has inserted, and with a clock that does not go back
-- before that, its loop ends after one cycle per job: it has processed as many as it inserted, and
-- each has succeeded.
pub raw_cycles_lem :
    (now next_id job_count : ℕ) (cs : List (ℕ × ℕ))
    → All (λ c. now ≤ c.0) cs
    → job_count < length cs
    → let r = raw_cycles cs 0 (raw_jobs now next_id job_count) in
      (r.1 ≡ some job_count) × All (λ j. j.status ≡ succeeded) r.0
unfolding Ran
raw_cycles_lem now k n cs le few =
    subst (λ m. Ran m (raw_cycles cs 0 (raw_jobs now k n)))
      (omega (arith, raw_jobs-waiting now k n))
      (raw_cycles-Ran now cs 0 (raw_jobs now k n) (raw_jobs-Distinct now k n)
        (raw_jobs-IsRaw now k n) le (omega (arith, few, raw_jobs-waiting now k n)))
