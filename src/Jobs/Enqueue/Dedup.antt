-- ===== src/Jobs/Enqueue/Dedup.antt =====
-- Enqueueing with an idempotency key, and enqueueing many at once.
use durable_queue.Prelude.{
  ℕ, ◌≡◌, refl, ap, ◌∙◌, Bool, true, false, List, [], ◌∷◌, ◌++◌, Option, none, some, inl, inr,
  Option-cases, String, All, eq_refl,
}
use durable_queue.Sql.{select_where, fetch_one}
use durable_queue.Sql.Laws.{fetch_one-none}
use durable_queue.Jobs.{Job, JobTable}
use durable_queue.Jobs.Enqueue.{same_key, conflicting, new_row, enqueue}
use durable_queue.Jobs.Enqueue.Upsert.{upsert_new, upsert_old}

fetch_one-snoc :
    (p : Job → Bool) (j : Job) (rows : List Job)
    → All (λ r. p r ≡ false) rows
    → p j ≡ true
    → fetch_one (select_where p (rows ++ j ∷ [])) ≡ some j
unfolding select_where
fetch_one-snoc p j [] h e = rw e
fetch_one-snoc p j (x ∷ xs) h e = rw (h.0) (fetch_one-snoc p j xs h.1 e)

module _ (now : ℕ) (task args key : String) (t : JobTable) where
  abbrev first : JobTable × ℕ
  first = enqueue now task args (some key) t

  -- Once a key is in the table, its row is there to be found, with the id that was returned.
  pub enqueue-conflicting :
      (row : Job) × (conflicting (some key) first.0.rows ≡ some row) × (row.id ≡ first.1)
  unfolding enqueue conflicting
  enqueue-conflicting = elim (Option-cases (conflicting (some key) t.rows)) [
    | inl e ↦ rw (upsert_new now task args (some key) t e) (
      new_row now t.next_id task args (some key),
      fetch_one-snoc (same_key (some key)) _ t.rows (fetch_one-none _ t.rows e) (eq_refl key),
      refl,
    )
    | inr (old, e) ↦ rw (upsert_old now task args (some key) t old e) (old, e, refl)
  ]

  -- Enqueueing again with a key returns the first call's id and leaves the rows as they are.
  pub enqueue_again :
      (later : ℕ) (task' args' : String)
      → ((enqueue later task' args' (some key) first.0).1 ≡ first.1)
        × ((enqueue later task' args' (some key) first.0).0.rows ≡ first.0.rows)
  unfolding enqueue
  enqueue_again later task' args' =
      let (row, found, same) = enqueue-conflicting in
      let old = upsert_old later task' args' (some key) first.0 row found in
      (ap (λ (r : JobTable × ℕ). r.1) old ∙ same, ap (λ (r : JobTable × ℕ). r.0.rows) old)

-- The loop that enqueue_many stands for: one enqueue for each entry.
unfoldable pub enqueue_each :
    ℕ → String → List String → List (Option String) → JobTable → JobTable × List ℕ
enqueue_each now task [] keys t = (t, [])
enqueue_each now task (a ∷ args) [] t =
    let (t', i) = enqueue now task a none t in
    let (t'', is) = enqueue_each now task args [] t' in (t'', i ∷ is)
enqueue_each now task (a ∷ args) (k ∷ keys) t =
    let (t', i) = enqueue now task a k t in
    let (t'', is) = enqueue_each now task args keys t' in (t'', i ∷ is)
