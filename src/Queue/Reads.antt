-- ===== src/Queue/Reads.antt =====
-- Reading a row by its id after each kind of change.
use durable_queue.Prelude.{
  ℕ, ◌≡◌, sym, ◌∙◌, subst, String, Bool, true, false, List, [], ◌∷◌, ◌++◌, Option, none, some, inl,
  inr, arith, not, ◌&&◌, Bool-cases, Option-cases, Distinct, contains, All, All-imp, ◌==◌, &&_split,
}
use durable_queue.Sql.{select_where, delete_where}
use durable_queue.Sql.Sorting.{found-order_by, found-take}
use durable_queue.Jobs.{Job, JobTable, get_job}
use durable_queue.Jobs.Rows.{ids, absent, in-select_where}
use durable_queue.Jobs.Enqueue.{upsert, conflicting, enqueue_many, insert_rows, unnest, no_keys, ok}
use durable_queue.Jobs.Enqueue.Upsert.{upsert_new, upsert_old, insert_rows_ok}
use durable_queue.Jobs.Retention.{outdated, by_id, outdated_ids}
use durable_queue.Jobs.Lifecycle.{Moves}
use durable_queue.Jobs.Lifecycle.Refines.{Lives, Moves-id}

-- What became of a row that was there.
pub get_job-Lives :
    {now : ℕ} {worker : String} (i : ℕ) (rows rows' : List Job) (j : Job)
    → Lives now worker rows rows'
    → get_job i rows ≡ some j
    → (k : Job) × (get_job i rows' ≡ some k) × Moves now worker j k
unfolding get_job
get_job-Lives i [] rows' j l e = absurd (nothing e)
  where
    nothing : none ≡ some j → ⊥
    nothing e' = cc
get_job-Lives i (x ∷ xs) [] j l e = absurd l
get_job-Lives {now} {worker} i (x ∷ xs) (y ∷ ys) j l e = elim (Bool-cases (x.id == i)) [
  | inl h ↦
      let same : x ≡ j = head_found h e in
      (y, head_there (ground (arith, Moves-id l.0)), subst (λ a. Moves now worker a y) same l.0)
  | inr h ↦
      let (k, e', m) = get_job-Lives {now = now} {worker = worker} i xs ys j l.1 (tail_found h e) in
      (k, tail_there (ground (arith, Moves-id l.0)) e', m)
]
  where
    head_found : (x.id == i) ≡ true → get_job i (x ∷ xs) ≡ some j → x ≡ j
    head_found h e' = ground arith

    tail_found : (x.id == i) ≡ false → get_job i (x ∷ xs) ≡ some j → get_job i xs ≡ some j
    tail_found h e' = ground arith

    head_there : (y.id == i) ≡ true → get_job i (y ∷ ys) ≡ some y
    head_there h = ground arith

    tail_there : (y.id == i) ≡ false → {o : Option Job} → get_job i ys ≡ o → get_job i (y ∷ ys) ≡ o
    tail_there h e' = ground arith

get_job-append :
    (i : ℕ) (rows more : List Job) (j : Job)
    → get_job i rows ≡ some j
    → get_job i (rows ++ more) ≡ some j
unfolding get_job select_where
get_job-append i [] more j e = cc
get_job-append i (x ∷ xs) more j e = ground (arith, get_job-append i xs more j)

pub upsert-get_job :
    (now : ℕ) (task args : String) (key : Option String) (i : ℕ) (t : JobTable) (j : Job)
    → get_job i t.rows ≡ some j
    → get_job i (upsert now task args key t).0.rows ≡ some j
upsert-get_job now task args key i t j e = elim (Option-cases (conflicting key t.rows)) [
  | inl c ↦ rw (upsert_new now task args key t c) (get_job-append i t.rows _ j e)
  | inr (old, c) ↦ rw (upsert_old now task args key t old c) e
]

insert_rows-get_job :
    (now : ℕ) (task : String) (given : List (Option String × Option String)) (touched : List ℕ)
    (t t' : JobTable) (found : List ℕ) (i : ℕ) (j : Job)
    → insert_rows now task given touched t ≡ ok (t', found)
    → get_job i t.rows ≡ some j
    → get_job i t'.rows ≡ some j
unfolding insert_rows
insert_rows-get_job now task [] touched t t' found i j e g =
    let same : t ≡ t' = ground arith in subst (λ (u : JobTable). get_job i u.rows ≡ some j) same g
insert_rows-get_job now task ((none, key) ∷ rest) touched t t' found i j e g = cc
insert_rows-get_job now task ((some args, key) ∷ rest) touched t t' found i j e g =
    let (found', _, _, e') = insert_rows_ok now task args key rest touched t t' found e in
    insert_rows-get_job now task rest _ _ t' found' i j e'
      (upsert-get_job now task args key i t j g)

pub enqueue_many-get_job :
    (now : ℕ) (task : String) (args_list : List String) (given : Option (List (Option String)))
    (t t' : JobTable) (found : List ℕ) (i : ℕ) (j : Job)
    → enqueue_many now task args_list given t ≡ ok (t', found)
    → get_job i t.rows ≡ some j
    → get_job i t'.rows ≡ some j
unfolding enqueue_many
enqueue_many-get_job now task [] given t t' found i j e g =
    let same : t ≡ t' = ground arith in subst (λ (u : JobTable). get_job i u.rows ≡ some j) same g
enqueue_many-get_job now task (a ∷ args) none t t' found i j e g =
    insert_rows-get_job now task (unnest (a ∷ args) (no_keys (a ∷ args))) [] t t' found i j e g
enqueue_many-get_job now task (a ∷ args) (some given) t t' found i j e g =
    insert_rows-get_job now task (unnest (a ∷ args) given) [] t t' found i j e g

-- A DELETE that leaves the row alone.
pub delete_where-get_job :
    (p : Job → Bool) (i : ℕ) (rows : List Job) (j : Job)
    → All (λ x. p x ≡ true → x.id ≡ i → ⊥) rows
    → get_job i rows ≡ some j
    → get_job i (delete_where p rows) ≡ some j
unfolding get_job select_where delete_where
delete_where-get_job p i [] j h e = cc
delete_where-get_job p i (x ∷ xs) j h e = ground (arith, h.0, delete_where-get_job p i xs j h.1)

-- A purge deletes finished jobs only.
pub purged_finished :
    (now : ℕ) (locked : ℕ → Bool) (older_than batch : ℕ) (rows : List Job)
    → Distinct (ids rows)
    → All
        (λ j.
          contains (outdated_ids now locked older_than batch rows) j.id ≡ true
          → outdated now older_than j ≡ true)
        rows
unfolding outdated_ids
purged_finished now locked older_than batch rows d =
    All-imp _ _
      (λ j same chosen.
        (&&_split (outdated now older_than j) _ (
          sym same
          ∙ sym (found-order_by by_id (λ r. r.id) j.id _)
          ∙ found-take by_id (λ r. r.id) j.id batch _ chosen)).0)
      rows (in-select_where (λ j. outdated now older_than j && not (locked j.id)) rows d)

-- The row that is read is the only one with its id.
pub get_job_one :
    (i : ℕ) (rows : List Job) (j : Job)
    → Distinct (ids rows)
    → get_job i rows ≡ some j
    → All (λ x. x.id ≡ i → x ≡ j) rows
unfolding get_job select_where
get_job_one i [] j d e = tt
get_job_one i (x ∷ xs) j d e = elim (Bool-cases (x.id == i)) [
  | inl h ↦
      let first : x ≡ j = head_found h e in
      (
        (λ _. first),
        All-imp _ _ (λ y other same. absurd (clash_ids y h other same)) xs (absent x.id xs d.0),
      )
  | inr h ↦ ((λ same. absurd (ground arith)), get_job_one i xs j d.1 (tail_found h e))
]
  where
    head_found : (x.id == i) ≡ true → get_job i (x ∷ xs) ≡ some j → x ≡ j
    head_found h e' = ground arith

    tail_found : (x.id == i) ≡ false → get_job i (x ∷ xs) ≡ some j → get_job i xs ≡ some j
    tail_found h e' = ground arith

    clash_ids : (y : Job) → (x.id == i) ≡ true → (y.id == x.id) ≡ false → y.id ≡ i → ⊥
    clash_ids y h other same = ground arith
