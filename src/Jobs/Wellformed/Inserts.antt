-- ===== src/Jobs/Wellformed/Inserts.antt =====
-- INSERTs keep the invariant.
use durable_queue.Prelude.{
  ℕ, ◌+◌, ◌<◌, ◌≡◌, refl, subst, false, List, [], ◌∷◌, ◌++◌, Option, none, some, inl, inr, arith,
  String, ◌==◌, Option-cases, All, All-imp, All-append, Distinct, contains, eq_iff,
}
use durable_queue.Sql.Laws.{fetch_one-none}
use durable_queue.Jobs.{Job, JobTable}
use durable_queue.Jobs.Rows.{ids}
use durable_queue.Jobs.Enqueue.{
  clash, same_key, conflicting, new_row, upsert, enqueue, ok, insert_rows, unnest, no_keys,
  enqueue_many,
}
use durable_queue.Jobs.Enqueue.Upsert.{inserted, skipped, upsert_new, upsert_old, insert_rows_ok}
use durable_queue.Jobs.Wellformed.{keys, DistinctKeys, IsWell}

pub below-contains :
    (n : ℕ) (rows : List Job) → All (λ j. j.id < n) rows → contains (ids rows) n ≡ false
below-contains n [] h = refl
below-contains n (x ∷ xs) h = ground (arith, below-contains n xs h.1, h.0)

contains-snoc :
    (i : ℕ) (j : Job) (rows : List Job)
    → contains (ids rows) i ≡ false
    → (j.id == i) ≡ false
    → contains (ids (rows ++ j ∷ [])) i ≡ false
contains-snoc i j [] h n = ground arith
contains-snoc i j (x ∷ xs) h n = ground (arith, contains-snoc i j xs)

Distinct-snoc :
    (j : Job) (rows : List Job)
    → Distinct (ids rows)
    → contains (ids rows) j.id ≡ false
    → Distinct (ids (rows ++ j ∷ []))
Distinct-snoc j [] d h = (refl, tt)
Distinct-snoc j (x ∷ xs) d h =
    (contains-snoc x.id j xs d.0 (ground arith), Distinct-snoc j xs d.1 (ground arith))

pub clash_sym : (a b : Option String) → clash a b ≡ false → clash b a ≡ false
clash_sym none none h = refl
clash_sym none (some v) h = refl
clash_sym (some u) none h = refl
clash_sym (some u) (some v) h = ground (arith, eq_iff u v, eq_iff v u)

keys-snoc :
    (P : Option String → Type 0) (j : Job) (rows : List Job)
    → All P (keys rows)
    → P j.idempotency_key
    → All P (keys (rows ++ j ∷ []))
keys-snoc P j [] h k = (k, tt)
keys-snoc P j (x ∷ xs) h k = (h.0, keys-snoc P j xs h.1 k)

DistinctKeys-snoc :
    (j : Job) (rows : List Job)
    → DistinctKeys (keys rows)
    → All (λ r. same_key j.idempotency_key r ≡ false) rows
    → DistinctKeys (keys (rows ++ j ∷ []))
DistinctKeys-snoc j [] d h = (tt, tt)
DistinctKeys-snoc j (x ∷ xs) d h = (
  keys-snoc _ j xs d.0 (clash_sym j.idempotency_key x.idempotency_key h.0),
  DistinctKeys-snoc j xs d.1 h.1,
)

module _ (now : ℕ) (task args : String) (key : Option String) (t : JobTable) (v : IsWell t) where
  below-suc : All (λ j. j.id < t.next_id + 1) t.rows
  below-suc = All-imp _ _ (λ j h. omega (arith, h)) t.rows v.below

  inserted-IsWell : conflicting key t.rows ≡ none → IsWell (inserted now task args key t)
  unfolding conflicting
  inserted-IsWell e = record {
    distinct =
        Distinct-snoc (new_row now t.next_id task args key) t.rows v.distinct
          (below-contains t.next_id t.rows v.below);
    below = All-append _ t.rows _ below-suc (omega arith, tt);
    distinct_keys =
        DistinctKeys-snoc (new_row now t.next_id task args key) t.rows v.distinct_keys
          (fetch_one-none (same_key key) t.rows e);
    shaped = All-append _ t.rows _ v.shaped ((tt, tt, tt), tt);
    triable = All-append _ t.rows _ v.triable ((λ _. omega arith), tt);
  }

  skipped-IsWell : IsWell (skipped now task args key t)
  skipped-IsWell = record {
    distinct = v.distinct;
    below = below-suc;
    distinct_keys = v.distinct_keys;
    shaped = v.shaped;
    triable = v.triable;
  }

  pub upsert-IsWell : IsWell (upsert now task args key t).0
  upsert-IsWell = elim (Option-cases (conflicting key t.rows)) [
    | inl e ↦ rw (upsert_new now task args key t e) (inserted-IsWell e)
    | inr (old, e) ↦ rw (upsert_old now task args key t old e) skipped-IsWell
  ]

pub enqueue-IsWell :
    (now : ℕ) (task args : String) (key : Option String) (t : JobTable)
    → IsWell t
    → IsWell (enqueue now task args key t).0
unfolding enqueue
enqueue-IsWell now task args key t v = upsert-IsWell now task args key t v

insert_rows-IsWell :
    (now : ℕ) (task : String) (given : List (Option String × Option String)) (touched : List ℕ)
    (t t' : JobTable) (found : List ℕ)
    → insert_rows now task given touched t ≡ ok (t', found)
    → IsWell t
    → IsWell t'
unfolding insert_rows
insert_rows-IsWell now task [] touched t t' found e v = subst IsWell (ground arith) v
insert_rows-IsWell now task ((none, key) ∷ rest) touched t t' found e v = cc
insert_rows-IsWell now task ((some args, key) ∷ rest) touched t t' found e v =
    let (found', _, _, e') = insert_rows_ok now task args key rest touched t t' found e in
    insert_rows-IsWell now task rest _ _ t' found' e' (upsert-IsWell now task args key t v)

-- An `enqueue_many` that Postgres accepts keeps the invariant.
pub enqueue_many-IsWell :
    (now : ℕ) (task : String) (args_list : List String) (given : Option (List (Option String)))
    (t t' : JobTable) (found : List ℕ)
    → enqueue_many now task args_list given t ≡ ok (t', found)
    → IsWell t
    → IsWell t'
unfolding enqueue_many
enqueue_many-IsWell now task [] given t t' found e v = subst IsWell (ground arith) v
enqueue_many-IsWell now task (a ∷ args) none t t' found e v =
    insert_rows-IsWell now task (unnest (a ∷ args) (no_keys (a ∷ args))) [] t t' found e v
enqueue_many-IsWell now task (a ∷ args) (some given) t t' found e v =
    insert_rows-IsWell now task (unnest (a ∷ args) given) [] t t' found e v
