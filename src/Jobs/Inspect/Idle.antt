-- ===== src/Jobs/Inspect/Idle.antt =====
-- What an idle worker may sleep through.
use mathlib.Core.Path.{ap₂}
use durable_queue.Prelude.{
  ℕ, zero, All-every, suc, ◌+◌, ◌≤◌, ◌<◌, ◌≡◌, refl, sym, ap, ◌∙◌, Bool, true, false, ◌&&◌, not,
  List, [], ◌∷◌, map, Option, some, none, inl, inr, arith, Bool-cases, All, All-imp, All-zip,
  contains, take, String,
}
use durable_queue.Prelude.Int.{pos}
use durable_queue.Sql.{select_where, update_where, order_by, count_where, least, minimum}
use durable_queue.Sql.Laws.{Above, minimum-All, select_where_none}
use durable_queue.Jobs.{Job, JobTable, is_pending, is_running}
use durable_queue.Jobs.Claim.{due, before, claimable, claim_ids, set_claimed, claim_jobs}
use durable_queue.Jobs.Reap.{
  expired, poisoned, set_poisoned, set_recovered, sweep_ids, sweep, reap_expired_jobs,
}
use durable_queue.Jobs.Inspect.{next_due, seconds_until_due}

Above-least : (m : ℕ) (a b : Option ℕ) → Above m (least a b) → Above m a × Above m b
Above-least m none none h = (tt, tt)
Above-least m none (some b) h = (tt, h)
Above-least m (some a) none h = (h, tt)
Above-least m (some a) (some b) h = (omega arith, omega arith)

-- From the rows that a statement selects to all rows.
Above-rows :
    (m : ℕ) (p : Job → Bool) (column : Job → Option ℕ) (rows : List Job)
    → All (Above m) (map column (select_where p rows))
    → All (λ j. p j ≡ true → Above m (column j)) rows
unfolding select_where
Above-rows m p column [] h = tt
Above-rows m p column (x ∷ xs) h = elim (Bool-cases (p x)) [
  | inl e ↦ let (here, there) = split e (rw e at h) in ((λ _. here), Above-rows m p column xs there)
  | inr e ↦ ((λ t. absurd (false_true (sym e ∙ t))), Above-rows m p column xs (rw e at h))
]
  where
    false_true : false ≡ true → ⊥
    false_true e = cc

    split :
        p x ≡ true
        → Above m (column x) × All (Above m) (map column (select_where p xs))
        → Above m (column x) × All (Above m) (map column (select_where p xs))
    split e h' = h'

-- Before the time that next_due tells, no row is due and no lease has run out.
quiet :
    (now : ℕ) (rows : List Job)
    → Above (suc now) (next_due rows)
    → All (λ j. (due now j ≡ false) × (expired now j ≡ false)) rows
unfolding next_due
quiet now rows h =
    let (pending_above, running_above) =
      Above-least (suc now)
        (minimum (map (λ j. some j.run_at) (select_where (λ j. is_pending j.status) rows)))
        (minimum (map (λ j. j.locked_until) (select_where (λ j. is_running j.status) rows))) h in
    All-zip _ _ _ (λ j a b. (not_due j a, not_expired j j.locked_until refl b)) rows
      (Above-rows (suc now) (λ j. is_pending j.status) (λ j. some j.run_at) rows
        (minimum-All _ _ pending_above))
      (Above-rows (suc now) (λ j. is_running j.status) (λ j. j.locked_until) rows
        (minimum-All _ _ running_above))
  where
    not_due : (j : Job) → (is_pending j.status ≡ true → suc now ≤ j.run_at) → due now j ≡ false
    not_due j a = ground arith

    not_expired :
        (j : Job) (o : Option ℕ)
        → j.locked_until ≡ o
        → (is_running j.status ≡ true → Above (suc now) o)
        → expired now j ≡ false
    not_expired j none e b = ground arith
    not_expired j (some at) e b = ground arith

no_ids : (rows : List Job) → count_where (λ j. contains [] j.id) rows ≡ 0
unfolding count_where
no_ids [] = refl
no_ids (x ∷ xs) = no_ids xs

update_no_ids :
    (f : Job → Job) (rows : List Job) → update_where (λ j. contains [] j.id) f rows ≡ rows
unfolding update_where
update_no_ids f [] = refl
update_no_ids f (x ∷ xs) = ap (◌∷◌ x) (update_no_ids f xs)

module _ (now : ℕ) (t : JobTable)
    (q : All (λ j. (due now j ≡ false) × (expired now j ≡ false)) t.rows) where
  no_claim_ids : (locked : ℕ → Bool) (n : ℕ) → claim_ids now locked n t.rows ≡ []
  unfolding claim_ids claimable
  no_claim_ids locked n =
      ap (λ (found : List Job). map (λ j. j.id) (take n (order_by before found)))
        (select_where_none (λ j. due now j && not (locked j.id)) t.rows
          (All-imp _ _ (λ j e. rw (e.0)) t.rows q))
      ∙ taken n
    where
      taken : (n : ℕ) → map (λ j. j.id) (take n (order_by before [])) ≡ []
      taken zero = refl
      taken (suc n) = refl

  nothing_claimed :
      (locked : ℕ → Bool) (worker : String) (lease n : ℕ)
      → claim_jobs now locked worker lease n t ≡ (t, [])
  unfolding claim_jobs
  nothing_claimed locked worker lease n =
      ap
        (λ (is : List ℕ). (
          record t {
            rows = update_where (λ j. contains is j.id) (set_claimed now worker lease) t.rows;
          },
          map (set_claimed now worker lease) (select_where (λ j. contains is j.id) t.rows),
        ))
        (no_claim_ids locked n)
      ∙ ap₂
          (λ (rows found : List Job).
            (record t { rows = rows }, map (set_claimed now worker lease) found))
          (update_no_ids (set_claimed now worker lease) t.rows)
          (select_where_none (λ j. false) t.rows (All-every _ (λ j. refl) t.rows))

  nothing_swept :
      (test : Job → Bool) (f : Job → Job) (locked : ℕ → Bool) (n : ℕ)
      → All (λ j. test j ≡ false) t.rows
      → sweep test f locked n t.rows ≡ (t.rows, 0)
  unfolding sweep
  nothing_swept test f locked n none_found =
      ap
        (λ (is : List ℕ). (
          update_where (λ j. contains is j.id) f t.rows,
          count_where (λ j. contains is j.id) t.rows,
        ))
        (no_sweep_ids test locked n none_found)
      ∙ ap₂ (λ (rows : List Job) (c : ℕ). (rows, c)) (update_no_ids f t.rows) (no_ids t.rows)
    where
      no_sweep_ids :
          (test : Job → Bool) (locked : ℕ → Bool) (n : ℕ)
          → All (λ j. test j ≡ false) t.rows
          → sweep_ids test locked n t.rows ≡ []
      no_sweep_ids test locked n h =
          unfold sweep_ids in
          (ap (λ (found : List Job). map (λ j. j.id) (take n found))
              (select_where_none (λ j. test j && not (locked j.id)) t.rows
                (All-imp _ _ (λ j e. rw e) t.rows h))
            ∙ taken n)
        where
          taken : (n : ℕ) → map (λ j. j.id) (take {A = Job} n []) ≡ []
          taken zero = refl
          taken (suc n) = refl

  nothing_reaped :
      (locked locked' : ℕ → Bool) (n : ℕ) → reap_expired_jobs now locked locked' n t ≡ (t, 0)
  unfolding reap_expired_jobs
  nothing_reaped locked locked' n =
      ap
        (λ (first : List Job × ℕ).
          let second = sweep (expired now) set_recovered locked' n first.0 in
          (record t { rows = second.0 }, first.1 + second.1))
        (nothing_swept (poisoned now) (set_poisoned now) locked n
          (All-imp _ _ (λ j e. rw (e.1)) t.rows q))
      ∙ ap (λ (second : List Job × ℕ). (record t { rows = second.0 }, 0 + second.1))
          (nothing_swept (expired now) set_recovered locked' n (All-imp _ _ (λ j e. e.1) t.rows q))

-- Where seconds_until_due tells k microseconds, any claim and any sweep before that time finds
-- nothing and changes nothing: sleeping until then loses no work.
pub idle_until_due :
    (now later k : ℕ) (t : JobTable)
    → seconds_until_due now t ≡ some (pos k)
    → later < now + k
    → (locked locked' : ℕ → Bool) (worker : String) (lease n m : ℕ)
    → (claim_jobs later locked worker lease n t ≡ (t, []))
      × (reap_expired_jobs later locked locked' m t ≡ (t, 0))
unfolding seconds_until_due
idle_until_due now later k t e h locked locked' worker lease n m =
    (nothing_claimed later t q locked worker lease n, nothing_reaped later t q locked locked' m)
  where
    bound : (o : Option ℕ) → next_due t.rows ≡ o → Above (suc later) o
    bound none e' = tt
    bound (some at) e' = ground arith

    q : All (λ j. (due later j ≡ false) × (expired later j ≡ false)) t.rows
    q = quiet later t.rows (bound (next_due t.rows) refl)

-- Where seconds_until_due tells nothing, no claim and no sweep at any time finds anything in this
-- table.
pub idle_for_ever :
    (now later : ℕ) (t : JobTable)
    → seconds_until_due now t ≡ none
    → (locked locked' : ℕ → Bool) (worker : String) (lease n m : ℕ)
    → (claim_jobs later locked worker lease n t ≡ (t, []))
      × (reap_expired_jobs later locked locked' m t ≡ (t, 0))
unfolding seconds_until_due
idle_for_ever now later t e locked locked' worker lease n m =
    (nothing_claimed later t q locked worker lease n, nothing_reaped later t q locked locked' m)
  where
    bound : (o : Option ℕ) → next_due t.rows ≡ o → Above (suc later) o
    bound none e' = tt
    bound (some at) e' = ground arith

    q : All (λ j. (due later j ≡ false) × (expired later j ≡ false)) t.rows
    q = quiet later t.rows (bound (next_due t.rows) refl)
