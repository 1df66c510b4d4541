-- ===== src/Jobs/Inspect/Reads.antt =====
-- What get_queue_stats and list_jobs tell of the table.
use durable_queue.Prelude.{
  ℕ, zero, suc, ◌+◌, ◌-◌, ◌≤◌, ◌≡◌, refl, ap, ◌∙◌, min, Bool, true, false, List, [], ◌∷◌, Option,
  none, some, ◌⊎◌, inl, inr, arith, Bool-cases, All, All-imp, All-zip, All-take, All-drop,
  All-every, length, length-take, contains, take, drop, leb→le,
}
use durable_queue.Sql.{select_where, count_where, order_by, fetch_one}
use durable_queue.Sql.Laws.{select_where-All, All-select_where, All-selected, length-select_where}
use durable_queue.Sql.Sorting.{
  Ordered, order_by-Ordered, All-order_by, order_by-All, length-order_by,
}
use durable_queue.Jobs.{Job, JobTable, Status, pending, running, succeeded, dead}
use durable_queue.Jobs.Rows.{ids}
use durable_queue.Jobs.Membership.{All-ids}
use durable_queue.Jobs.Claim.{due}
use durable_queue.Jobs.Inspect.{
  same_status, has_status, newest_first, list_jobs, by_run_at, age, get_queue_stats,
}

-- Each row has one of the four statuses.
counted :
    (rows : List Job)
    → count_where (λ j. same_status j.status pending) rows
        + count_where (λ j. same_status j.status running) rows
        + count_where (λ j. same_status j.status succeeded) rows
        + count_where (λ j. same_status j.status dead) rows
      ≡ length rows
unfolding count_where
counted [] = refl
counted (x ∷ xs) = ground (arith, counted xs)

by_run_at_total : (x y : Job) → by_run_at x y ≡ false → by_run_at y x ≡ true
by_run_at_total x y h = ground arith

by_run_at_trans : (x y z : Job) → by_run_at x y ≡ true → by_run_at y z ≡ true → by_run_at x z ≡ true
by_run_at_trans x y z h k = ground arith

-- The age that is told: none if no job is due, else that of a due job, and no due job is older.
abbrev pub IsOldest : ℕ → List Job → Option ℕ → Type 0
IsOldest now rows none = All (λ j. due now j ≡ false) rows
IsOldest now rows (some a) =
    All (λ j. due now j ≡ true → now - j.run_at ≤ a) rows
    × ((j : Job) × (contains (ids rows) j.id ≡ true) × (due now j ≡ true) × (a ≡ now - j.run_at))

oldest :
    (now : ℕ) (rows found : List Job)
    → ((P : Job → Type 0) → All P found → All (λ j. due now j ≡ true → P j) rows)
    → All (λ j. due now j ≡ true) found
    → All (λ j. contains (ids rows) j.id ≡ true) found
    → Ordered by_run_at found
    → IsOldest now rows (age now (fetch_one found))
oldest now rows [] all d c o =
    All-imp _ _ (λ j h. not_due (Bool-cases (due now j)) h) rows (all (λ j. ⊥) tt)
  where
    not_due : {b : Bool} → (b ≡ true) ⊎ (b ≡ false) → (b ≡ true → ⊥) → b ≡ false
    not_due (inl e) h = absurd (h e)
    not_due (inr e) h = e
oldest now rows (j ∷ js) all d c o = (
  all (λ k. now - k.run_at ≤ now - j.run_at) (omega arith, All-imp _ _ (λ k b. later k b) js o.0),
  (j, c.0, d.0, refl),
)
  where
    later : (k : Job) → by_run_at j k ≡ true → now - k.run_at ≤ now - j.run_at
    later k b = omega (arith, leb→le j.run_at k.run_at b)

-- The four counts come to the number of rows, and the age is that of the oldest due pending job, if
-- there is one.
pub get_queue_stats_lem :
    (now : ℕ) (t : JobTable)
    → let s = get_queue_stats now t in
      (s.n_pending + s.n_running + s.n_succeeded + s.n_dead ≡ length t.rows)
      × IsOldest now t.rows s.oldest_pending_age
unfolding get_queue_stats
get_queue_stats_lem now t = (
  counted t.rows,
  oldest now t.rows (order_by by_run_at found)
      (λ P h. All-selected (due now) P t.rows (order_by-All by_run_at P found h))
      (All-order_by by_run_at _ found (select_where-All (due now) t.rows))
      (All-order_by by_run_at _ found (All-select_where (due now) _ t.rows (All-ids t.rows)))
      (order_by-Ordered by_run_at by_run_at_total by_run_at_trans found),
)
  where
    found : List Job
    found = select_where (due now) t.rows

newest_first_total : (x y : Job) → newest_first x y ≡ false → newest_first y x ≡ true
newest_first_total x y h = ground arith

newest_first_trans :
    (x y z : Job) → newest_first x y ≡ true → newest_first y z ≡ true → newest_first x z ≡ true
newest_first_trans x y z h k = ground arith

Ordered-take : (n : ℕ) (xs : List Job) → Ordered newest_first xs → Ordered newest_first (take n xs)
Ordered-take zero xs o = tt
Ordered-take (suc n) [] o = tt
Ordered-take (suc n) (x ∷ xs) o = (All-take _ n xs o.0, Ordered-take n xs o.1)

-- Behind a newest-first list's first n entries nothing is newer than one of them.
either :
    (n : ℕ) (xs : List Job) (P : Job → Type 0) → All P (take n xs) → All P (drop n xs) → All P xs
either zero xs P h k = k
either (suc n) [] P h k = tt
either (suc n) (x ∷ xs) P h k = (h.0, either n xs P h.1 k)

kept_first :
    (n : ℕ) (xs : List Job)
    → Ordered newest_first xs
    → All (λ k. All (λ j. newest_first j k ≡ true) (take n xs)) (drop n xs)
kept_first zero xs o = All-every _ (λ k. tt) xs
kept_first (suc n) [] o = tt
kept_first (suc n) (x ∷ xs) o =
    All-zip _ _ _ (λ k first rest. (first, rest)) _ (All-drop _ n xs o.0) (kept_first n xs o.1)

-- The list has as many jobs as match, up to the limit; each is in the table and matches, they stand newest
-- first, and a matching job that is left out is no newer than any that is listed.
pub list_jobs_lem :
    (status : Option Status) (limit : ℕ) (t : JobTable)
    → let listed = list_jobs status limit t in
      (length listed ≡ min limit (count_where (has_status status) t.rows))
      × All (λ j. (has_status status j ≡ true) × (contains (ids t.rows) j.id ≡ true)) listed
      × Ordered newest_first listed
      × All
          (λ k.
            has_status status k ≡ true
            → (contains (ids listed) k.id ≡ true) ⊎ All (λ j. newest_first j k ≡ true) listed)
          t.rows
unfolding list_jobs
list_jobs_lem status limit t = (
  length-take limit sorted
      ∙ ap (min limit)
          (length-order_by newest_first found ∙ length-select_where (has_status status) t.rows),
  All-take _ limit sorted (
      All-order_by newest_first _ found (
        All-zip _ _ _ (λ j s c. (s, c)) _ (select_where-All (has_status status) t.rows)
          (All-select_where (has_status status) _ t.rows (All-ids t.rows)))),
  Ordered-take limit sorted ordered,
  All-selected (has_status status) _ t.rows (
      order_by-All newest_first _ found (
        either limit sorted _
          (All-imp _ _ (λ k c. inl c) (take limit sorted) (All-ids (take limit sorted)))
          (All-imp _ _ (λ k c. inr c) (drop limit sorted) (kept_first limit sorted ordered)))),
)
  where
    found : List Job
    found = select_where (has_status status) t.rows

    sorted : List Job
    sorted = order_by newest_first found

    ordered : Ordered newest_first sorted
    ordered = order_by-Ordered newest_first newest_first_total newest_first_trans found
