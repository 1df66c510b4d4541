-- ===== src/Jobs/Enqueue/Upsert.antt =====
-- An INSERT with its ON CONFLICT clause adds a row or changes nothing.
use durable_queue.Prelude.{
  ℕ, ◌+◌, ◌≡◌, refl, sym, ap, String, true, false, List, [], ◌∷◌, ◌++◌, Option, none, some, inl,
  inr, arith, contains, Bool-cases, eq_iff,
}
use durable_queue.Sql.{update_where}
use durable_queue.Jobs.{Job, JobTable}
use durable_queue.Jobs.Enqueue.{
  clash, same_key, conflicting, new_row, upsert, prepend, insert_rows, Outcome, SqlError, ok, err,
}

clash-eq : (key there : Option String) → clash key there ≡ true → there ≡ key
clash-eq none there h = cc
clash-eq (some k) none h = cc
clash-eq (some k) (some v) h = ap some ((eq_iff v k).0 h)

-- The key of a row that conflicts.
pub same_key-eq : (key : Option String) (j : Job) → same_key key j ≡ true → j.idempotency_key ≡ key
same_key-eq key j h = clash-eq key j.idempotency_key h

rekeyed :
    (key : Option String) (j : Job) → same_key key j ≡ true → record j { idempotency_key = key } ≡ j
rekeyed key j h =
    ap (λ (o : Option String). record j { idempotency_key = o }) (sym (same_key-eq key j h))

-- SET idempotency_key = EXCLUDED.idempotency_key writes what is there already.
rekey :
    (key : Option String) (rows : List Job)
    → update_where (same_key key) (λ j. record j { idempotency_key = key }) rows ≡ rows
unfolding update_where
rekey key [] = refl
rekey key (x ∷ xs) = elim (Bool-cases (same_key key x)) [
  | inl e ↦ rw (e, rekey key xs, rekeyed key x e)
  | inr e ↦ rw (e, rekey key xs)
]

module _ (now : ℕ) (task args : String) (key : Option String) (t : JobTable) where
  abbrev pub inserted : JobTable
  inserted = record {
    rows = t.rows ++ new_row now t.next_id task args key ∷ [];
    next_id = t.next_id + 1;
  }

  abbrev pub skipped : JobTable
  skipped = record t { next_id = t.next_id + 1 }

  pub upsert_new :
      conflicting key t.rows ≡ none → upsert now task args key t ≡ (inserted, t.next_id)
  unfolding upsert
  upsert_new e = rw (e, upsert)

  pub upsert_old :
      (old : Job)
      → conflicting key t.rows ≡ some old
      → upsert now task args key t ≡ (skipped, old.id)
  unfolding upsert
  upsert_old old e =
      rw (e, upsert)
        (ap (λ (rows : List Job). (record { rows = rows; next_id = t.next_id + 1 }, old.id))
          (rekey key t.rows))

prepend_ok :
    (i : ℕ) (o : Outcome (JobTable × List ℕ)) (t' : JobTable) (found : List ℕ)
    → prepend i o ≡ ok (t', found)
    → (found' : List ℕ) × (found ≡ i ∷ found') × (o ≡ ok (t', found'))
prepend_ok i (ok (u, is)) t' found h = (is, ground arith, ground arith)
prepend_ok i (err x) t' found h = cc

refused : {A : Type 0} {x : SqlError} {a : A} → ¬ (err x ≡ ok a)
refused e = cc

-- A row of INSERT … SELECT that the statement gets past.
pub insert_rows_ok :
    (now : ℕ) (task args : String) (key : Option String)
    (rest : List (Option String × Option String)) (touched : List ℕ) (t t' : JobTable)
    (found : List ℕ)
    → insert_rows now task ((some args, key) ∷ rest) touched t ≡ ok (t', found)
    → (found' : List ℕ) × (found ≡ (upsert now task args key t).1 ∷ found')
      × (contains touched (upsert now task args key t).1 ≡ false)
      × (insert_rows now task rest
            ((upsert now task args key t).1 ∷ touched)
            (upsert now task args key t).0
          ≡ ok (t', found'))
unfolding insert_rows
insert_rows_ok now task args key rest touched t t' found h =
    elim (Bool-cases (contains touched (upsert now task args key t).1)) [
      | inl again ↦ absurd (refused (rw (again, insert_rows) at h))
      | inr fresh ↦
          let (found', e, e') = prepend_ok _ _ t' found (rw (fresh, insert_rows) at h) in
          (found', e, fresh, e')
    ]
