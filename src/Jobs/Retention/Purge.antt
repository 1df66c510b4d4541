-- ===== src/Jobs/Retention/Purge.antt =====
-- What delete_completed_jobs removes.
use durable_queue.Prelude.{
  ℕ, ◌+◌, ◌≤◌, ◌≡◌, refl, sym, ◌∙◌, Bool, true, false, ◌&&◌, not, List, [], ◌∷◌, arith, All,
  All-imp, All-map, All-take, Distinct, contains, take, length, length-map, length-take,
}
use durable_queue.Sql.{select_where, delete_where, count_where, order_by}
use durable_queue.Sql.Laws.{All-select_where}
use durable_queue.Sql.Sorting.{All-order_by, found-order_by, found-take, order_by-Distinct}
use durable_queue.Jobs.{Job, JobTable}
use durable_queue.Jobs.Rows.{ids, in-select_where}
use durable_queue.Jobs.Membership.{count_where-ids, select_where-Distinct, All-ids, take-Distinct}
use durable_queue.Jobs.Retention.{outdated, by_id, outdated_ids, delete_completed_jobs}

-- Deleting rows that a WHERE does not select does not change what it selects.
select_where-delete_where :
    (p q : Job → Bool) (rows : List Job)
    → All (λ j. p j ≡ true → q j ≡ false) rows
    → select_where q (delete_where p rows) ≡ select_where q rows
unfolding select_where delete_where
select_where-delete_where p q [] h = refl
select_where-delete_where p q (x ∷ xs) h = ground (arith, select_where-delete_where p q xs h.1, h.0)

length-delete_where :
    (p : Job → Bool) (rows : List Job)
    → length (delete_where p rows) + count_where p rows ≡ length rows
unfolding delete_where count_where
length-delete_where p [] = omega arith
length-delete_where p (x ∷ xs) = ground (arith, length-delete_where p xs)

module _ (now : ℕ) (locked : ℕ → Bool) (older_than batch : ℕ) (t : JobTable)
    (d : Distinct (ids t.rows)) where
  abbrev free : Job → Bool
  free j = outdated now older_than j && not (locked j.id)

  abbrev chosen : List ℕ
  chosen = outdated_ids now locked older_than batch t.rows

  chosen_outdated : All (λ j. contains chosen j.id ≡ true → free j ≡ true) t.rows
  unfolding outdated_ids
  chosen_outdated =
      All-imp _ _
        (λ j e c.
          sym e
          ∙ sym (found-order_by by_id (λ r. r.id) j.id (select_where free t.rows))
          ∙ found-take by_id (λ r. r.id) j.id batch (order_by by_id (select_where free t.rows)) c)
        t.rows (in-select_where free t.rows d)

  chosen_count : count_where (λ j. contains chosen j.id) t.rows ≤ batch
  unfolding outdated_ids
  chosen_count =
      let same =
        count_where-ids chosen t.rows d
          (take-Distinct batch _
            (order_by-Distinct by_id (λ j. j.id) _ (select_where-Distinct free t.rows d)))
          (All-map _ (λ j. j.id) _
            (All-take _ batch _ (
              All-order_by by_id _ _ (
                All-select_where _ (λ j. contains (ids t.rows) j.id ≡ true) t.rows
                  (All-ids t.rows))))) in
      omega (
        arith,
        same,
        length-map (λ j. j.id) (take batch (order_by by_id (select_where free t.rows))),
        length-take batch (order_by by_id (select_where free t.rows)),
      )

  -- On a table with distinct ids, delete_completed_jobs removes as many rows as it reports, at most
  -- a batch, and only finished jobs that are old enough and unlocked; the others stay, in their
  -- order.
  pub delete_completed_jobs_lem :
      (select_where (λ j. not (free j)) (delete_completed_jobs now locked older_than batch t).0.rows
        ≡ select_where (λ j. not (free j)) t.rows)
      × (length (delete_completed_jobs now locked older_than batch t).0.rows
            + (delete_completed_jobs now locked older_than batch t).1
          ≡ length t.rows)
      × ((delete_completed_jobs now locked older_than batch t).1 ≤ batch)
  unfolding delete_completed_jobs
  delete_completed_jobs_lem = (
    select_where-delete_where (λ j. contains chosen j.id) (λ j. not (free j)) t.rows
        (All-imp _ _ (λ j f c. rw (f c)) t.rows chosen_outdated),
    length-delete_where (λ j. contains chosen j.id) t.rows,
    chosen_count,
  )
