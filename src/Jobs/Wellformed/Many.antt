-- ===== src/Jobs/Wellformed/Many.antt =====
-- enqueue_many is the loop of enqueue() that it stands for.
use durable_queue.Prelude.{
  ℕ, ◌+◌, ◌≤◌, ◌<◌, ◌≡◌, refl, sym, ap, ◌∙◌, subst, true, false, List, [], ◌∷◌, Option, none, some,
  inl, inr, arith, Bool-cases, Option-cases, String, All, All-imp, All-every, All-zip, ◌⊎◌,
  All-append, contains, length, ◌==◌,
}
use durable_queue.Sql.Laws.{All-fetch_one, fetch_one-some}
use durable_queue.Jobs.{Job, JobTable}
use durable_queue.Jobs.Membership.{Only, Distinct-Only}
use durable_queue.Jobs.Enqueue.{
  clash, same_key, conflicting, upsert, enqueue, insert_rows, prepend, unnest, enqueue_many, ok,
}
use durable_queue.Jobs.Enqueue.Upsert.{inserted, skipped, same_key-eq, upsert_new, upsert_old}
use durable_queue.Jobs.Enqueue.Dedup.{enqueue_each}
use durable_queue.Jobs.Wellformed.{IsWell, DistinctKeys}
use durable_queue.Jobs.Wellformed.Inserts.{upsert-IsWell, clash_sym}

-- No row that the statement has touched has one of the keys that are still to come.
abbrev Untouched : List ℕ → List (Option String) → List Job → Type 0
Untouched touched keys rows =
    All (λ j. contains touched j.id ≡ true → All (λ k. clash k j.idempotency_key ≡ false) keys) rows

-- The state between two rows of the statement.
record IsFresh (touched : List ℕ) (keys : List (Option String)) (t : JobTable) : Type 0 where
  well : IsWell t
  given : All (λ i. i < t.next_id) touched
  untouched : Untouched touched keys t.rows

below-not-in : (n : ℕ) (is : List ℕ) → All (λ i. i < n) is → contains is n ≡ false
below-not-in n [] h = refl
below-not-in n (i ∷ is) h = ground (arith, below-not-in n is h.1, h.0)

module _ (now : ℕ) (task args : String) (key : Option String) (t : JobTable) (touched : List ℕ)
    (keys : List (Option String)) (v : IsFresh touched (key ∷ keys) t)
    (apart : All (λ l. clash key l ≡ false) keys) where
  later_given : All (λ i. i < t.next_id + 1) touched
  later_given = All-imp _ _ (λ i h. omega (arith, h)) touched v.given

  -- The row that is inserted or found has not been touched.
  not_touched : contains touched (upsert now task args key t).1 ≡ false
  unfolding conflicting
  not_touched = elim (Option-cases (conflicting key t.rows)) [
    | inl e ↦ rw (upsert_new now task args key t e) (below-not-in t.next_id touched v.given)
    | inr (old, e) ↦
        rw (upsert_old now task args key t old e) (elim (Bool-cases (contains touched old.id)) [
          | inl c ↦ absurd (twice_found old e c)
          | inr c ↦ c
        ])
  ]
    where
      twice_found :
          (old : Job) → conflicting key t.rows ≡ some old → contains touched old.id ≡ true → ⊥
      twice_found old e c =
          let first =
            (All-fetch_one (same_key key)
              (λ j.
                contains touched j.id ≡ true
                → All (λ k. clash k j.idempotency_key ≡ false) (key ∷ keys))
              t.rows old v.untouched e c).0 in
          cc (fetch_one-some (same_key key) t.rows old e)

  inserted-IsFresh :
      IsWell (inserted now task args key t)
      → IsFresh (t.next_id ∷ touched) keys (inserted now task args key t)
  inserted-IsFresh w = record {
    well = w;
    given = (omega arith, later_given);
    untouched =
        All-append _ t.rows _
          (All-zip _ _ _ (λ j u b c. (u (older j.id b c)).1) t.rows v.untouched v.well.below)
          ((λ _. All-imp _ _ (λ l a. clash_sym key l a) keys apart), tt);
  }
    where
      older :
          (i : ℕ)
          → i < t.next_id
          → contains (t.next_id ∷ touched) i ≡ true
          → contains touched i ≡ true
      older i b c = ground arith

  skipped-IsFresh :
      (old : Job)
      → conflicting key t.rows ≡ some old
      → IsWell (skipped now task args key t)
      → IsFresh (old.id ∷ touched) keys (skipped now task args key t)
  unfolding conflicting
  skipped-IsFresh old e w = record {
    well = w;
    given = (
      omega (arith, All-fetch_one (same_key key) (λ j. j.id < t.next_id) t.rows old v.well.below e),
      later_given,
    );
    untouched =
        All-zip _ _ _ (λ j u one c. either j u one (Bool-cases (old.id == j.id)) c) t.rows
          v.untouched
          (All-fetch_one (same_key key) (Only t.rows) t.rows old
            (Distinct-Only t.rows v.well.distinct) e);
  }
    where
      either :
          (j : Job)
          → (contains touched j.id ≡ true
              → All (λ k. clash k j.idempotency_key ≡ false) (key ∷ keys))
          → (j.id ≡ old.id → j ≡ old)
          → ((old.id == j.id) ≡ true) ⊎ ((old.id == j.id) ≡ false)
          → contains (old.id ∷ touched) j.id ≡ true
          → All (λ k. clash k j.idempotency_key ≡ false) keys
      either j u one (inl same) c =
          let found : j.idempotency_key ≡ key =
            ap (λ (x : Job). x.idempotency_key) (one (ground arith))
            ∙ same_key-eq key old (fetch_one-some (same_key key) t.rows old e) in
          subst (λ o. All (λ k. clash k o ≡ false) keys) (sym found)
            (All-imp _ _ (λ l a. clash_sym key l a) keys apart)
      either j u one (inr other) c = (u (rw other at c)).1

  still-IsFresh :
      IsFresh ((upsert now task args key t).1 ∷ touched) keys (upsert now task args key t).0
  still-IsFresh =
      let w = upsert-IsWell now task args key t v.well in
      elim (Option-cases (conflicting key t.rows)) [
        | inl e ↦
            let eq = upsert_new now task args key t e in
            subst (λ (r : JobTable × ℕ). IsFresh (r.1 ∷ touched) keys r.0) (sym eq)
              (inserted-IsFresh (subst (λ (r : JobTable × ℕ). IsWell r.0) eq w))
        | inr (old, e) ↦
            let eq = upsert_old now task args key t old e in
            subst (λ (r : JobTable × ℕ). IsFresh (r.1 ∷ touched) keys r.0) (sym eq)
              (skipped-IsFresh old e (subst (λ (r : JobTable × ℕ). IsWell r.0) eq w))
      ]

-- A row without a key conflicts with nothing.
keyless : (touched : List ℕ) (t : JobTable) → IsFresh touched [] t → IsFresh touched (none ∷ []) t
keyless touched t v = record {
  well = v.well;
  given = v.given;
  untouched = All-imp _ _ (λ j u c. (refl, tt)) t.rows v.untouched;
}

insert_rows-enqueue_each :
    (now : ℕ) (task : String) (args_list : List String) (keys : List (Option String))
    (touched : List ℕ) (t : JobTable)
    → length keys ≤ length args_list
    → DistinctKeys keys
    → IsFresh touched keys t
    → insert_rows now task (unnest args_list keys) touched t
      ≡ ok (enqueue_each now task args_list keys t)
unfolding insert_rows unnest enqueue_each enqueue
insert_rows-enqueue_each now task [] [] touched t h d v = refl
insert_rows-enqueue_each now task [] (k ∷ keys) touched t h d v = absurd (omega arith)
insert_rows-enqueue_each now task (a ∷ args) [] touched t h d v =
    let u = keyless touched t v in
    rw (not_touched now task a none t touched [] u tt) (
      ap (prepend (upsert now task a none t).1) (
        insert_rows-enqueue_each now task args [] ((upsert now task a none t).1 ∷ touched)
          (upsert now task a none t).0 (omega arith) tt
          (still-IsFresh now task a none t touched [] u tt)))
insert_rows-enqueue_each now task (a ∷ args) (k ∷ keys) touched t h d v =
    rw (not_touched now task a k t touched keys v d.0) (
      ap (prepend (upsert now task a k t).1) (
        insert_rows-enqueue_each now task args keys ((upsert now task a k t).1 ∷ touched)
          (upsert now task a k t).0 (omega arith) d.1
          (still-IsFresh now task a k t touched keys v d.0)))

-- On a well-formed table, with no key given twice and no more keys than arguments, enqueue_many
-- does and returns what one enqueue per entry does.
pub enqueue_many-enqueue_each :
    (now : ℕ) (task : String) (args_list : List String) (keys : List (Option String)) (t : JobTable)
    → IsWell t
    → length keys ≤ length args_list
    → DistinctKeys keys
    → enqueue_many now task args_list (some keys) t ≡ ok (enqueue_each now task args_list keys t)
unfolding enqueue_many
enqueue_many-enqueue_each now task [] keys t v h d = unfold enqueue_each in refl
enqueue_many-enqueue_each now task (a ∷ args) keys t v h d =
    insert_rows-enqueue_each now task (a ∷ args) keys [] t h d (record {
      well = v;
      given = tt;
      untouched = All-every _ (λ j c. absurd (false_true c)) t.rows;
    })
  where
    false_true : false ≡ true → ⊥
    false_true e = cc
