-- ===== src/Jobs/Wellformed/Changes.antt =====
-- UPDATEs of the lifecycle, and DELETEs, keep the invariant.
use durable_queue.Prelude.{
  ℕ, ◌<◌, ◌≡◌, ◌∙◌, refl, sym, subst, Bool, false, List, [], ◌∷◌, Option, inl, inr, arith, String,
  Bool-cases, All, All-Each, map-Each, Distinct, contains,
}
use durable_queue.Sql.{delete_where}
use durable_queue.Sql.Laws.{All-delete_where}
use durable_queue.Jobs.{Job, JobTable}
use durable_queue.Jobs.Rows.{ids}
use durable_queue.Jobs.Retention.{delete_completed_jobs}
use durable_queue.Jobs.Lifecycle.{Move, Moves}
use durable_queue.Jobs.Lifecycle.Invariants.{
  IsShaped, IsTriable, IsShaped-Move, IsTriable-Move, Move-SameJob, Moves-induction,
}
use durable_queue.Jobs.Lifecycle.Refines.{Lives, Lives-ids}
use durable_queue.Jobs.Wellformed.{keys, DistinctKeys, IsWell}

module _ (now : ℕ) (worker : String) where
  kept :
      (P : Job → Type 0)
      → ((j k : Job) → Move now worker j k → P j → P k)
      → (rows rows' : List Job) → Lives now worker rows rows'
      → All P rows
      → All P rows'
  kept P step rows rows' = All-Each _ P (λ j k m. Moves-induction P step m) rows rows'

  Lives-keys : (rows rows' : List Job) → Lives now worker rows rows' → keys rows' ≡ keys rows
  Lives-keys rows rows' =
      map-Each (Moves now worker) (λ j. j.idempotency_key)
        (λ j k m.
          Moves-induction (λ x. x.idempotency_key ≡ j.idempotency_key)
            (λ x y s e. (Move-SameJob x y s).idempotency_key ∙ e) m refl)
        rows rows'

  -- Changes that the lifecycle allows keep the invariant.
  pub Lives-IsWell :
      (t t' : JobTable)
      → Lives now worker t.rows t'.rows
      → t'.next_id ≡ t.next_id
      → IsWell t
      → IsWell t'
  Lives-IsWell t t' lives e v = record {
    distinct = subst Distinct (sym (Lives-ids now worker t.rows t'.rows lives)) v.distinct;
    below =
        subst (λ n. All (λ j. j.id < n) t'.rows) (sym e)
          (kept (λ j. j.id < t.next_id) (λ j k m h. ground (arith, (Move-SameJob j k m).id)) t.rows
            t'.rows lives v.below);
    distinct_keys = subst DistinctKeys (sym (Lives-keys t.rows t'.rows lives)) v.distinct_keys;
    shaped = kept IsShaped IsShaped-Move t.rows t'.rows lives v.shaped;
    triable = kept IsTriable IsTriable-Move t.rows t'.rows lives v.triable;
  }

module _ (p : Job → Bool) where
  delete_where-ids :
      (i : ℕ) (rows : List Job)
      → contains (ids rows) i ≡ false
      → contains (ids (delete_where p rows)) i ≡ false
  unfolding delete_where
  delete_where-ids i [] h = refl
  delete_where-ids i (x ∷ xs) h = ground (arith, delete_where-ids i xs)

  delete_where-Distinct :
      (rows : List Job) → Distinct (ids rows) → Distinct (ids (delete_where p rows))
  unfolding delete_where
  delete_where-Distinct [] d = tt
  delete_where-Distinct (x ∷ xs) d = elim (Bool-cases (p x)) [
    | inl e ↦ rw e (delete_where-Distinct xs d.1)
    | inr e ↦ rw e (delete_where-ids x.id xs d.0, delete_where-Distinct xs d.1)
  ]

  delete_where-keys :
      (P : Option String → Type 0) (rows : List Job)
      → All P (keys rows)
      → All P (keys (delete_where p rows))
  unfolding delete_where
  delete_where-keys P [] h = tt
  delete_where-keys P (x ∷ xs) h = elim (Bool-cases (p x)) [
    | inl e ↦ rw e (delete_where-keys P xs h.1)
    | inr e ↦ rw e (h.0, delete_where-keys P xs h.1)
  ]

  delete_where-DistinctKeys :
      (rows : List Job) → DistinctKeys (keys rows) → DistinctKeys (keys (delete_where p rows))
  unfolding delete_where
  delete_where-DistinctKeys [] d = tt
  delete_where-DistinctKeys (x ∷ xs) d = elim (Bool-cases (p x)) [
    | inl e ↦ rw e (delete_where-DistinctKeys xs d.1)
    | inr e ↦ rw e (delete_where-keys _ xs d.0, delete_where-DistinctKeys xs d.1)
  ]

  pub delete_where-IsWell :
      (t : JobTable) → IsWell t → IsWell (record t { rows = delete_where p t.rows })
  delete_where-IsWell t v = record {
    distinct = delete_where-Distinct t.rows v.distinct;
    below = All-delete_where p _ t.rows v.below;
    distinct_keys = delete_where-DistinctKeys t.rows v.distinct_keys;
    shaped = All-delete_where p _ t.rows v.shaped;
    triable = All-delete_where p _ t.rows v.triable;
  }

pub delete_completed_jobs-IsWell :
    (now : ℕ) (locked : ℕ → Bool) (older_than batch : ℕ) (t : JobTable)
    → IsWell t
    → IsWell (delete_completed_jobs now locked older_than batch t).0
unfolding delete_completed_jobs
delete_completed_jobs-IsWell now locked older_than batch t v = delete_where-IsWell _ t v
