-- ===== src/Jobs/Lifecycle/Refines.antt =====
-- The statements of jobs.py change rows only as the lifecycle allows.
use durable_queue.Prelude.{
  ℕ, ◌≡◌, refl, sym, subst, ◌∙◌, Bool, true, not, ◌&&◌, List, [], ◌∷◌, All, All-every, All-imp,
  Each, Each-refl, Each-trans, contains, Distinct, String, ◌==◌, &&_split,
}
use durable_queue.Prelude.{map-Each}
use durable_queue.Jobs.Lifecycle.Invariants.{Move-SameJob}
use durable_queue.Sql.{select_where, update_where}
use durable_queue.Sql.Laws.{Each-update_where}
use durable_queue.Sql.Sorting.{found-order_by, found-take}
use durable_queue.Jobs.{Job, JobTable}
use durable_queue.Jobs.Rows.{ids, in-select_where}
use durable_queue.Jobs.Claim.{due, before, claim_ids, set_claimed, claim_jobs}
use durable_queue.Jobs.Leases.{extend_lease, extend_leases, release_jobs}
use durable_queue.Jobs.Reap.{
  expired, poisoned, set_poisoned, set_recovered, sweep_ids, sweep, bury_expired, recover_expired,
  reap_expired_jobs,
}
use durable_queue.Jobs.Finish.{mark_succeeded_in_transaction}
use durable_queue.Jobs.Retention.{retry_job}
use durable_queue.Jobs.Lifecycle.{
  Move, Moves, claimed, extended, released, completed, recovered, poisoned_out, reset, stays, goes,
}

module _ {now : ℕ} {worker : String} where
  once : (j k : Job) → Move now worker j k → Moves now worker j k
  once j k m = goes stays m

  Moves-trans : (i j k : Job) → Moves now worker i j → Moves now worker j k → Moves now worker i k
  Moves-trans i j k a stays = a
  Moves-trans i j k a (goes b m) = goes (Moves-trans i _ _ a b) m

  pub Moves-id : {j k : Job} → Moves now worker j k → k.id ≡ j.id
  Moves-id stays = refl
  Moves-id (goes {m} {k} a b) = (Move-SameJob m k b).id ∙ Moves-id a

module _ (now : ℕ) (worker : String) where
  -- Every row of the second list is what became of the row in its place in the first.
  abbrev pub Lives : List Job → List Job → Type 0
  Lives = Each (Moves now worker)

  pub Lives-refl : (rows : List Job) → Lives rows rows
  Lives-refl = Each-refl _ (λ j. stays)

  -- An UPDATE that moves each row that its WHERE finds.
  moving :
      (p : Job → Bool) (f : Job → Job) (rows : List Job)
      → All (λ j. p j ≡ true → Move now worker j (f j)) rows
      → Lives rows (update_where p f rows)
  moving p f rows h =
      Each-update_where p (Moves now worker) f (λ j. stays) rows
        (All-imp _ _ (λ j m e. once j (f j) (m e)) rows h)

  -- … whatever the rows are.
  pub moving_each :
      (p : Job → Bool) (f : Job → Job) (rows : List Job)
      → ((j : Job) → p j ≡ true → Move now worker j (f j))
      → Lives rows (update_where p f rows)
  moving_each p f rows h = moving p f rows (All-every _ h rows)

  pub claim_jobs-Lives :
      (locked : ℕ → Bool) (lease n : ℕ) (t : JobTable)
      → Distinct (ids t.rows)
      → Lives t.rows (claim_jobs now locked worker lease n t).0.rows
  unfolding claim_jobs
  claim_jobs-Lives locked lease n t d =
      moving (λ j. contains (claim_ids now locked n t.rows) j.id) (set_claimed now worker lease)
        t.rows
        (All-imp _ _ (λ j same chosen. claimed lease (chosen_due j same chosen) refl) t.rows
          (in-select_where (λ j. due now j && not (locked j.id)) t.rows d))
    where
      found : List Job
      found = select_where (λ j. due now j && not (locked j.id)) t.rows

      chosen_due :
          (j : Job)
          → contains (ids found) j.id ≡ (due now j && not (locked j.id))
          → contains (claim_ids now locked n t.rows) j.id ≡ true
          → due now j ≡ true
      chosen_due j same chosen =
          (&&_split (due now j) _ (
            sym same
            ∙ sym (found-order_by before (λ r. r.id) j.id found)
            ∙ found-take before (λ r. r.id) j.id n _ chosen)).0

  pub extend_leases-Lives :
      (job_ids : List ℕ) (lease : ℕ) (t : JobTable)
      → Lives t.rows (extend_leases now job_ids worker lease t).rows
  unfolding extend_leases
  extend_leases-Lives [] lease t = Lives-refl t.rows
  extend_leases-Lives (i ∷ is) lease t =
      moving_each _ _ t.rows (λ j e. extended lease (&&_split (contains (i ∷ is) j.id) _ e).1 refl)

  pub extend_lease-Lives :
      (job_id lease : ℕ) (t : JobTable) → Lives t.rows (extend_lease now job_id worker lease t).rows
  unfolding extend_lease
  extend_lease-Lives job_id lease t =
      moving_each _ _ t.rows (λ j e. extended lease (&&_split (j.id == job_id) _ e).1 refl)

  pub release_jobs-Lives :
      (job_ids : List ℕ) (t : JobTable) → Lives t.rows (release_jobs job_ids worker t).0.rows
  unfolding release_jobs
  release_jobs-Lives [] t = Lives-refl t.rows
  release_jobs-Lives (i ∷ is) t =
      moving_each _ _ t.rows (λ j e. released (&&_split (contains (i ∷ is) j.id) _ e).1 refl)

  pub mark_succeeded_in_transaction-Lives :
      (job_id : ℕ) (t : JobTable)
      → Lives t.rows (mark_succeeded_in_transaction now job_id worker t).0.rows
  unfolding mark_succeeded_in_transaction
  mark_succeeded_in_transaction-Lives job_id t =
      moving_each _ _ t.rows (λ j e. completed (&&_split (j.id == job_id) _ e).1 refl)

  pub retry_job-Lives : (job_id : ℕ) (t : JobTable) → Lives t.rows (retry_job now job_id t).0.rows
  unfolding retry_job
  retry_job-Lives job_id t =
      moving_each _ _ t.rows (λ j e. reset (&&_split (j.id == job_id) _ e).1 refl)

  sweep-Lives :
      (test : Job → Bool) (f : Job → Job) (locked : ℕ → Bool) (n : ℕ) (rows : List Job)
      → Distinct (ids rows)
      → ((j : Job) → test j ≡ true → Move now worker j (f j))
      → Lives rows (sweep test f locked n rows).0
  unfolding sweep
  sweep-Lives test f locked n rows d h =
      moving (λ j. contains (sweep_ids test locked n rows) j.id) f rows
        (All-imp _ _
          (λ j same chosen.
            h j (&&_split (test j) _ (sym same ∙ found-take before (λ r. r.id) j.id n _ chosen)).0)
          rows (in-select_where (λ j. test j && not (locked j.id)) rows d))

  pub Lives-ids : (rows rows' : List Job) → Lives rows rows' → ids rows' ≡ ids rows
  Lives-ids rows rows' = map-Each (Moves now worker) (λ j. j.id) (λ j k m. Moves-id m) rows rows'

  pub bury_expired-Lives :
      (locked : ℕ → Bool) (n : ℕ) (t : JobTable)
      → Distinct (ids t.rows)
      → Lives t.rows (bury_expired now locked n t).0.rows
  unfolding bury_expired
  bury_expired-Lives locked n t d =
      sweep-Lives (poisoned now) (set_poisoned now) locked n t.rows d (λ j e. poisoned_out e refl)

  pub recover_expired-Lives :
      (locked : ℕ → Bool) (n : ℕ) (t : JobTable)
      → Distinct (ids t.rows)
      → Lives t.rows (recover_expired now locked n t).0.rows
  unfolding recover_expired
  recover_expired-Lives locked n t d =
      sweep-Lives (expired now) set_recovered locked n t.rows d (λ j e. recovered e refl)

  pub reap_expired_jobs-Lives :
      (locked locked' : ℕ → Bool) (n : ℕ) (t : JobTable)
      → Distinct (ids t.rows)
      → Lives t.rows (reap_expired_jobs now locked locked' n t).0.rows
  unfolding reap_expired_jobs
  reap_expired_jobs-Lives locked locked' n t d =
      Each-trans (Moves now worker) Moves-trans t.rows _ _ first (
        sweep-Lives (expired now) set_recovered locked' n _
          (subst Distinct (sym (Lives-ids t.rows _ first)) d) (λ j e. recovered e refl))
    where
      first : Lives t.rows (sweep (poisoned now) (set_poisoned now) locked n t.rows).0
      first = unfold bury_expired in bury_expired-Lives locked n t d
