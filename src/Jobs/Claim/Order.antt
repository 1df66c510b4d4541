-- ===== src/Jobs/Claim/Order.antt =====
-- Which jobs a claim takes, and in what order of preference.
use durable_queue.Prelude.{
  ℕ, zero, suc, subst, ◌+◌, ◌≡◌, refl, ap, ◌∙◌, Bool, true, false, ◌&&◌, not, List, [], ◌∷◌, some,
  arith, All, All-imp, All-zip, All-map, All-take, All-drop, Distinct, contains, take, drop, length,
  min, length-take, length-map, String, eq_refl,
}
use durable_queue.Sql.{select_where, count_where}
use durable_queue.Sql.Laws.{All-select_where, select_where-All, length-select_where}
use durable_queue.Sql.Sorting.{
  Ordered, order_by-Ordered, Ordered-take-drop, All-order_by, length-order_by, found-order_by,
  order_by-Distinct,
}
use durable_queue.Jobs.{Job, JobTable, get_job, owned_by}
use durable_queue.Jobs.Rows.{ids, in-select_where}
use durable_queue.Jobs.Membership.{
  Only, Distinct-Only, ids-elim, count_where-ids, select_where-Distinct, All-ids, take-Distinct,
}
use durable_queue.Jobs.Lookup.{get_job-update_where, get_job-All}
use durable_queue.Jobs.Claim.{due, before, claimable, claim_ids, set_claimed, claim_jobs}

before_total : (x y : Job) → before x y ≡ false → before y x ≡ true
before_total x y h = ground arith

before_trans : (x y z : Job) → before x y ≡ true → before y z ≡ true → before x z ≡ true
before_trans x y z h k = ground arith

split_take :
    (i n : ℕ) (xs : List Job)
    → contains (ids xs) i ≡ true
    → contains (ids (take n xs)) i ≡ false
    → contains (ids (drop n xs)) i ≡ true
split_take i zero xs h k = h
split_take i (suc n) [] h k = h
split_take i (suc n) (x ∷ xs) h k = ground (arith, split_take i n xs)

module _ (now : ℕ) (locked : ℕ → Bool) (n : ℕ) (rows : List Job) (d : Distinct (ids rows)) where
  abbrev free : Job → Bool
  free j = due now j && not (locked j.id)

  -- What the whole table has of a row, the rows that could be claimed have.
  claimable-Only : (j : Job) → Only rows j → Only (claimable now locked rows) j
  unfolding claimable
  claimable-Only j o = All-order_by before _ _ (All-select_where free _ rows o)

  claimable-Ordered : Ordered before (claimable now locked rows)
  unfolding claimable
  claimable-Ordered = order_by-Ordered before before_total before_trans (select_where free rows)

  in-claimable : All (λ j. contains (ids (claimable now locked rows)) j.id ≡ free j) rows
  unfolding claimable
  in-claimable =
      All-imp _ _ (λ j e. found-order_by before (λ r. r.id) j.id _ ∙ e) rows
        (in-select_where free rows d)

  -- A claimed job stands before every row that LIMIT leaves out.
  claimed_first :
      (j : Job)
      → Only rows j
      → contains (claim_ids now locked n rows) j.id ≡ true
      → All (λ y. before j y ≡ true) (drop n (claimable now locked rows))
  unfolding claim_ids
  claimed_first j o c = ids-elim j.id (take n (claimable now locked rows)) c (
      All-zip _ _ _
        (λ x first one same.
          subst (λ z. All (λ y. before z y ≡ true) (drop n (claimable now locked rows))) (one same)
            first)
        _ (Ordered-take-drop before n _ claimable-Ordered) (All-take _ n _ (claimable-Only j o)))

  left_out :
      (j k : Job)
      → Only rows k
      → All (λ y. before j y ≡ true) (drop n (claimable now locked rows))
      → contains (ids (claimable now locked rows)) k.id ≡ true
      → contains (claim_ids now locked n rows) k.id ≡ false
      → before j k ≡ true
  unfolding claim_ids
  left_out j k o first there left =
      ids-elim k.id (drop n (claimable now locked rows)) (split_take k.id n _ there left) (
        All-zip _ _ _ (λ y b one same. subst (λ z. before j z ≡ true) (one same) b) _ first
          (All-drop _ n _ (claimable-Only k o)))

  -- On a table with distinct ids, a job that a claim takes precedes, in (run_at, id), each job that
  -- was due and unlocked and is left for later.
  pub claim_fifo :
      All
        (λ j.
          contains (claim_ids now locked n rows) j.id ≡ true
          → All
              (λ k.
                (due now k && not (locked k.id)) ≡ true
                → contains (claim_ids now locked n rows) k.id ≡ false
                → before j k ≡ true)
              rows)
        rows
  claim_fifo =
      All-imp _ _
        (λ j o c.
          All-zip _ _ _ (λ k p could f left. left_out j k p (claimed_first j o c) (could ∙ f) left)
            rows (Distinct-Only rows d) in-claimable)
        rows (Distinct-Only rows d)

module _ (now : ℕ) (locked : ℕ → Bool) (worker : String) (lease n : ℕ) (t : JobTable)
    (d : Distinct (ids t.rows)) where
  abbrev chosen : List ℕ
  chosen = claim_ids now locked n t.rows

  chosen_count : length chosen ≡ min n (count_where (λ j. due now j && not (locked j.id)) t.rows)
  unfolding claim_ids claimable
  chosen_count =
      length-map (λ j. j.id) (take n (claimable now locked t.rows))
      ∙ length-take n (claimable now locked t.rows)
      ∙ ap (min n) (
          length-order_by before (select_where (λ j. due now j && not (locked j.id)) t.rows)
          ∙ length-select_where (λ j. due now j && not (locked j.id)) t.rows)

  chosen_rows : count_where (λ j. contains chosen j.id) t.rows ≡ length chosen
  unfolding claim_ids claimable
  chosen_rows =
      count_where-ids chosen t.rows d
        (take-Distinct n _ (
          order_by-Distinct before (λ j. j.id) _
            (select_where-Distinct (λ j. due now j && not (locked j.id)) t.rows d)))
        (All-map _ (λ j. j.id) _
          (All-take _ n _ (
            All-order_by before _ _ (
              All-select_where _ (λ j. contains (ids t.rows) j.id ≡ true) t.rows
                (All-ids t.rows)))))

  -- What a row that is returned says is what the table says.
  now_held :
      (j : Job)
      → contains chosen j.id ≡ true
      → get_job j.id t.rows ≡ some j
      → (owned_by worker (set_claimed now worker lease j) ≡ true)
        × (get_job j.id (claim_jobs now locked worker lease n t).0.rows
            ≡ some (set_claimed now worker lease j))
  unfolding claim_jobs
  now_held j c e = (
    rw (eq_refl worker),
    get_job-update_where (λ r. contains chosen r.id) (set_claimed now worker lease) j.id (λ r. refl)
          t.rows
        ∙ rw (e, c),
  )

  -- On a table with distinct ids, a claim returns min(batch_size, the number of due and unlocked
  -- jobs) jobs, and each is in the table as returned, running for this worker under a lease that
  -- ends at now + lease.
  pub claim_batch :
      All
        (λ k.
          (owned_by worker k ≡ true)
          × (k.locked_until ≡ some (now + lease))
          × (get_job k.id (claim_jobs now locked worker lease n t).0.rows ≡ some k))
        (claim_jobs now locked worker lease n t).1
      × (length (claim_jobs now locked worker lease n t).1
          ≡ min n (count_where (λ j. due now j && not (locked j.id)) t.rows))
  unfolding claim_jobs
  claim_batch = (
    All-map _ (set_claimed now worker lease) _ (
        All-zip _ _ _ (λ j c e. let (o, g) = now_held j c e in (o, refl, g)) _
          (select_where-All (λ j. contains chosen j.id) t.rows)
          (All-select_where (λ j. contains chosen j.id) _ t.rows (get_job-All t.rows d))),
    length-map (set_claimed now worker lease) (select_where (λ j. contains chosen j.id) t.rows)
        ∙ length-select_where (λ j. contains chosen j.id) t.rows
        ∙ chosen_rows
        ∙ chosen_count,
  )
