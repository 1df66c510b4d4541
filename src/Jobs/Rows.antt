-- ===== src/Jobs/Rows.antt =====
-- Rows are told apart by their ids: what WHERE id IN (SELECT id …) then comes to.
use durable_queue.Prelude.{
  ℕ, ◌≡◌, refl, sym, Bool, true, false, List, [], ◌∷◌, map, some, inl, inr, arith, All, All-imp,
  All-zip, ◌⊎◌, contains, Distinct, String, ◌==◌,
}
use durable_queue.Sql.{select_where, fetch_one}
use durable_queue.Jobs.{Job, holds}
use durable_queue.Jobs.Finish.{has_id}

abbrev pub ids : List Job → List ℕ
ids rows = map (λ j. j.id) rows

-- An id that does not occur is no row's.
pub absent :
    (i : ℕ) (rows : List Job) → contains (ids rows) i ≡ false → All (λ j. (j.id == i) ≡ false) rows
absent i [] h = tt
absent i (x ∷ xs) h = (ground arith, absent i xs (ground arith))

module _ (p : Job → Bool) where
  pub select_where-ids :
      (i : ℕ) (rows : List Job)
      → contains (ids rows) i ≡ false
      → contains (ids (select_where p rows)) i ≡ false
  unfolding select_where
  select_where-ids i [] h = refl
  select_where-ids i (x ∷ xs) h = ground (arith, select_where-ids i xs)

  head_in :
      (x : Job) (xs : List Job)
      → contains (ids xs) x.id ≡ false
      → contains (ids (select_where p (x ∷ xs))) x.id ≡ p x
  unfolding select_where
  head_in x xs h = ground (arith, select_where-ids x.id xs h)

  tail_in :
      (x : Job) (xs : List Job) (j : Job)
      → (j.id == x.id) ≡ false
      → contains (ids (select_where p xs)) j.id ≡ p j
      → contains (ids (select_where p (x ∷ xs))) j.id ≡ p j
  unfolding select_where
  tail_in x xs j a b = ground arith

  -- id IN (SELECT id FROM rows WHERE p) is p.
  pub in-select_where :
      (rows : List Job)
      → Distinct (ids rows)
      → All (λ j. contains (ids (select_where p rows)) j.id ≡ p j) rows
  in-select_where [] d = tt
  in-select_where (x ∷ xs) d = (
    head_in x xs d.0,
    All-zip _ _ _ (tail_in x xs) xs (absent x.id xs d.0) (in-select_where xs d.1),
  )

-- A row that a test finds has an id that occurs.
fetch_one-ids :
    (i : ℕ) (worker : String) (j : Job) (rows : List Job)
    → fetch_one (select_where (holds i worker) rows) ≡ some j
    → contains (ids rows) i ≡ true
unfolding select_where
fetch_one-ids i worker j [] h = cc
fetch_one-ids i worker j (x ∷ xs) h = ground (arith, fetch_one-ids i worker j xs)

-- Where a worker holds the job, the row with its id is the row that the worker holds.
module _ (i : ℕ) (worker : String) (row : Job) where
  absent-holds :
      (rows : List Job)
      → All (λ j. (j.id == i) ≡ false) rows
      → All (λ j. holds i worker j ≡ has_id i j) rows
  absent-holds rows h = All-imp _ _ (λ j e. ground (arith, e)) rows h

  absent-found :
      (rows : List Job)
      → All (λ j. (j.id == i) ≡ false) rows
      → All (λ j. holds i worker j ≡ true → j ≡ row) rows
  absent-found rows h = All-imp _ _ (λ j e o. ground (arith, e, o)) rows h

  -- The first row decides, or the rest does.
  found_cases :
      (x : Job) (xs : List Job)
      → contains (ids xs) x.id ≡ false
      → fetch_one (select_where (holds i worker) (x ∷ xs)) ≡ some row
      → ((x.id ≡ i) × (holds i worker x ≡ true) × (row ≡ x))
        ⊎ (((x.id == i) ≡ false) × (fetch_one (select_where (holds i worker) xs) ≡ some row))
  unfolding select_where
  found_cases x xs d h = ground (arith, fetch_one-ids i worker row xs)

  pub holds-has_id :
      (rows : List Job)
      → Distinct (ids rows)
      → fetch_one (select_where (holds i worker) rows) ≡ some row
      → All (λ j. holds i worker j ≡ has_id i j) rows
  holds-has_id [] d h = tt
  holds-has_id (x ∷ xs) d h = elim (found_cases x xs d.0 h) [
    | inl (e, o, _) ↦ (ground arith, absent-holds xs (absent i xs (rw e at d.0)))
    | inr (n, h') ↦ (ground arith, holds-has_id xs d.1 h')
  ]

  pub holds_one :
      (rows : List Job)
      → Distinct (ids rows)
      → fetch_one (select_where (holds i worker) rows) ≡ some row
      → All (λ j. holds i worker j ≡ true → j ≡ row) rows
  holds_one [] d h = tt
  holds_one (x ∷ xs) d h = elim (found_cases x xs d.0 h) [
    | inl (e, _, same) ↦ ((λ _. sym same), absent-found xs (absent i xs (rw e at d.0)))
    | inr (n, h') ↦ ((λ o. ground arith), holds_one xs d.1 h')
  ]
