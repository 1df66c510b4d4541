-- ===== src/Jobs/Reap/Sweep.antt =====
-- What reap_expired_jobs does where nothing stands in its way, and where a lock does.
use mathlib.Core.Path.{ap₂}
use durable_queue.Prelude.{
  ℕ, zero, suc, ◌+◌, ◌≤◌, ◌≡◌, refl, sym, ap, subst, ◌∙◌, Bool, true, false, ◌&&◌, List, [], ◌∷◌,
  arith, All, All-imp, All-every, Distinct, contains, take, length, leb, ltb, Option, none, some,
  if◌then◌else◌,
}
use durable_queue.Sql.{select_where, update_where, count_where}
use durable_queue.Sql.Laws.{
  update_where_cong, count_where_cong, length-select_where, update_where_none, select_where_none,
}
use durable_queue.Jobs.{Job, JobTable, pending, dead, is_running}
use durable_queue.Jobs.Rows.{ids, in-select_where}
use durable_queue.Jobs.Reap.{
  is_before, expired, poisoned, set_poisoned, set_recovered, sweep_ids, sweep, reap_expired_jobs,
}

abbrev pub unlocked : ℕ → Bool
unlocked i = false

abbrev pub all_locked : ℕ → Bool
all_locked i = true

take_all : (n : ℕ) (xs : List Job) → length xs ≤ n → take n xs ≡ xs
take_all zero [] h = refl
take_all zero (x ∷ xs) h = absurd (omega arith)
take_all (suc n) [] h = refl
take_all (suc n) (x ∷ xs) h = ap (◌∷◌ x) (take_all n xs (omega arith))

and_true : (b : Bool) → (b && true) ≡ b
and_true true = refl
and_true false = refl

and_false : (b : Bool) → (b && false) ≡ false
and_false true = refl
and_false false = refl

-- A sweep by the test that its list of ids comes to.
sweep_by :
    (test q : Job → Bool) (f : Job → Job) (locked : ℕ → Bool) (n : ℕ) (rows : List Job)
    → All (λ j. contains (sweep_ids test locked n rows) j.id ≡ q j) rows
    → sweep test f locked n rows ≡ (update_where q f rows, count_where q rows)
unfolding sweep
sweep_by test q f locked n rows h =
    ap₂ (λ (updated : List Job) (c : ℕ). (updated, c)) (update_where_cong _ q f rows h)
      (count_where_cong _ q rows h)

found_count :
    (test : Job → Bool) (rows : List Job)
    → length (select_where (λ j. test j && true) rows) ≡ count_where test rows
found_count test rows =
    length-select_where (λ j. test j && true) rows
    ∙ count_where_cong _ test rows (All-every _ (λ j. and_true (test j)) rows)

-- Where the LIMIT is enough and no row is locked, a sweep is a plain UPDATE.
sweep_all :
    (test : Job → Bool) (f : Job → Job) (n : ℕ) (rows : List Job)
    → Distinct (ids rows)
    → count_where test rows ≤ n
    → sweep test f unlocked n rows ≡ (update_where test f rows, count_where test rows)
unfolding sweep_ids
sweep_all test f n rows d h = sweep_by test test f unlocked n rows (
    All-imp _ _
      (λ j e.
        ap (λ (found : List Job). contains (ids found) j.id)
          (take_all n (select_where (λ r. test r && true) rows)
            (subst (λ c. c ≤ n) (sym (found_count test rows)) h))
        ∙ e
        ∙ and_true (test j))
      rows (in-select_where (λ r. test r && true) rows d))

count_nothing : (rows : List Job) → count_where (λ j. false) rows ≡ 0
unfolding count_where
count_nothing [] = refl
count_nothing (x ∷ xs) = count_nothing xs

take_nothing : (n i : ℕ) → contains (ids (take {A = Job} n [])) i ≡ false
take_nothing zero i = refl
take_nothing (suc n) i = refl

-- Where every row is locked it does nothing.
sweep_locked :
    (test : Job → Bool) (f : Job → Job) (n : ℕ) (rows : List Job)
    → sweep test f all_locked n rows ≡ (rows, 0)
unfolding sweep_ids
sweep_locked test f n rows =
    sweep_by test (λ j. false) f all_locked n rows
      (All-every _
        (λ j.
          ap (λ (found : List Job). contains (ids (take n found)) j.id)
            (select_where_none (λ r. test r && false) rows
              (All-every _ (λ r. and_false (test r)) rows))
          ∙ take_nothing n j.id)
        rows)
    ∙ ap₂ (λ (updated : List Job) (c : ℕ). (updated, c))
        (update_where_none (λ j. false) f rows (All-every _ (λ j. refl) rows)) (count_nothing rows)

-- A running job's lease has run out.
abbrev pub lapsed : ℕ → Job → Bool
lapsed now j = is_running j.status && elim j.locked_until [ none ↦ false | some at ↦ ltb at now ]

-- What becomes of such a row, column by column: the recovery counts, and the job is dead at their limit.
abbrev pub recover : ℕ → Job → Job
recover now j =
    if leb j.max_recoveries (j.recoveries + 1)
    then record j {
      status = dead;
      recoveries = j.recoveries + 1;
      finished_at = some now;
      last_error = some "worker repeatedly died while running this job";
      locked_by = none;
      locked_until = none;
    }
    else record j {
      status = pending;
      recoveries = j.recoveries + 1;
      locked_by = none;
      locked_until = none;
    }

expired-lapsed : (now : ℕ) (j : Job) → expired now j ≡ lapsed now j
expired-lapsed now j = by_lease j.locked_until
  where
    by_lease :
        (until : Option ℕ)
        → (is_running j.status && is_before until now)
          ≡ (is_running j.status && elim until [ none ↦ false | some at ↦ ltb at now ])
    by_lease none = refl
    by_lease (some at) = refl

two_sweeps :
    (now : ℕ) (rows : List Job)
    → update_where (expired now) set_recovered (update_where (poisoned now) (set_poisoned now) rows)
      ≡ update_where (expired now) (recover now) rows
unfolding update_where
two_sweeps now [] = refl
two_sweeps now (x ∷ xs) = ground (arith, two_sweeps now xs)

two_counts :
    (now : ℕ) (rows : List Job)
    → count_where (poisoned now) rows
        + count_where (expired now) (update_where (poisoned now) (set_poisoned now) rows)
      ≡ count_where (expired now) rows
unfolding update_where count_where
two_counts now [] = refl
two_counts now (x ∷ xs) = ground (arith, two_counts now xs)

swept_ids :
    (now : ℕ) (rows : List Job)
    → ids (update_where (poisoned now) (set_poisoned now) rows) ≡ ids rows
unfolding update_where
swept_ids now [] = refl
swept_ids now (x ∷ xs) = ground (arith, swept_ids now xs)

reap_by :
    (now n a b : ℕ) (locked locked' : ℕ → Bool) (t : JobTable) (rows' rows'' : List Job)
    → sweep (poisoned now) (set_poisoned now) locked n t.rows ≡ (rows', a)
    → sweep (expired now) set_recovered locked' n rows' ≡ (rows'', b)
    → reap_expired_jobs now locked locked' n t ≡ (record t { rows = rows'' }, a + b)
unfolding reap_expired_jobs
reap_by now n a b locked locked' t rows' rows'' e e' =
    ap
      (λ (first : List Job × ℕ).
        let second = sweep (expired now) set_recovered locked' n first.0 in
        (record t { rows = second.0 }, first.1 + second.1))
      e
    ∙ ap (λ (second : List Job × ℕ). (record t { rows = second.0 }, a + second.1)) e'

module _ (now n : ℕ) (t : JobTable) (d : Distinct (ids t.rows))
    (enough : count_where (expired now) t.rows ≤ n) where
  -- With distinct ids, no row locked and a batch as large as the number of expired jobs, the reaper
  -- is one UPDATE of the running jobs whose lease has run out, which is given column by column: the
  -- recovery is counted and the lease let go, and the job is dead and finished now, with an error
  -- that says so, at the limit of recoveries, else pending; it returns their number.
  pub reap_expired_jobs_lem : reap_expired_jobs now unlocked unlocked n t ≡ (
    record t { rows = update_where (lapsed now) (recover now) t.rows },
    count_where (lapsed now) t.rows,
  )
  reap_expired_jobs_lem =
      reap_by now n (count_where (poisoned now) t.rows)
        (count_where (expired now) (update_where (poisoned now) (set_poisoned now) t.rows)) unlocked
        unlocked t (update_where (poisoned now) (set_poisoned now) t.rows)
        (update_where (expired now) set_recovered
          (update_where (poisoned now) (set_poisoned now) t.rows))
        (sweep_all (poisoned now) (set_poisoned now) n t.rows d
          (omega (arith, two_counts now t.rows)))
        (sweep_all (expired now) set_recovered n _ (subst Distinct (sym (swept_ids now t.rows)) d)
          (omega (arith, two_counts now t.rows)))
      ∙ ap₂ (λ (rows : List Job) (c : ℕ). (record t { rows = rows }, c))
          (two_sweeps now t.rows
            ∙ update_where_cong (expired now) (lapsed now) (recover now) t.rows same)
          (two_counts now t.rows ∙ count_where_cong (expired now) (lapsed now) t.rows same)
    where
      same : All (λ j. expired now j ≡ lapsed now j) t.rows
      same = All-every _ (expired-lapsed now) t.rows

  -- With distinct ids and a batch as large as the number of expired jobs, where all rows are locked
  -- during the reaper's first UPDATE and none during its second, each expired job is set pending,
  -- also past its limit of recoveries.
  pub reap_expired_jobs_revives : reap_expired_jobs now all_locked unlocked n t ≡ (
    record t { rows = update_where (expired now) set_recovered t.rows },
    count_where (expired now) t.rows,
  )
  reap_expired_jobs_revives =
      reap_by now n 0 (count_where (expired now) t.rows) all_locked unlocked t t.rows
        (update_where (expired now) set_recovered t.rows)
        (sweep_locked (poisoned now) (set_poisoned now) n t.rows)
        (sweep_all (expired now) set_recovered n t.rows d enough)
      ∙ ap (λ (c : ℕ). (record t { rows = update_where (expired now) set_recovered t.rows }, c))
          (omega arith)
