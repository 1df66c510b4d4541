-- ===== src/Queue/Leases.antt =====
-- While its lease lasts, a job belongs to the worker that holds it.
use durable_queue.Prelude.{
  ℕ, ◌≤◌, ◌≡◌, ◌≢◌, sym, ap, ◌∙◌, subst, String, true, List, [], ◌∷◌, some, arith, contains, All,
  All-zip,
}
use durable_queue.Jobs.{Job, JobTable, get_job, owned_by}
use durable_queue.Jobs.Enqueue.{enqueue}
use durable_queue.Jobs.Retention.{outdated, outdated_ids, delete_completed_jobs}
use durable_queue.Jobs.Lifecycle.Leased.{Leased, Leased-earlier, Leased-Moves}
use durable_queue.Jobs.Wellformed.{IsWell}
use durable_queue.Worker.Run.{World}
use durable_queue.Queue.{Event, step, history}
use durable_queue.Queue.Steps.{Change, lives, inserts, inserts_many, purged, perform-Change}
use durable_queue.Queue.Invariant.{perform-IsWell}
use durable_queue.Queue.Reads.{
  get_job-Lives, upsert-get_job, enqueue_many-get_job, delete_where-get_job, purged_finished,
  get_job_one,
}

module _ (i : ℕ) (worker : String) (j : Job) {now : ℕ} (other : String) (t t' : JobTable)
    (v : IsWell t) (there : get_job i t.rows ≡ some j) (leased : Leased worker now j)
    (n : other ≢ worker) where
  -- No other worker's call touches the row while the lease lasts.
  Change-get_job : Change now other t t' → get_job i t'.rows ≡ some j
  unfolding enqueue delete_completed_jobs
  Change-get_job (lives rows next) =
      let (k, e, m) = get_job-Lives i t.rows t'.rows j rows there in
      e ∙ ap some (Leased-Moves worker other leased n m)
  Change-get_job (inserts task args key e) =
      subst (λ (u : JobTable). get_job i u.rows ≡ some j) (sym e)
        (upsert-get_job now task args key i t j there)
  Change-get_job (inserts_many task args_list keys found e) =
      enqueue_many-get_job now task args_list keys t t' found i j e there
  Change-get_job (purged locked older_than batch e) =
      subst (λ (u : JobTable). get_job i u.rows ≡ some j) (sym e)
        (delete_where-get_job _ i t.rows j
          (All-zip _ _ _ not_this t.rows
            (purged_finished now locked older_than batch t.rows v.distinct)
            (get_job_one i t.rows j v.distinct there))
          there)
    where
      not_this :
          (x : Job)
          → (contains (outdated_ids now locked older_than batch t.rows) x.id ≡ true
              → outdated now older_than x ≡ true)
          → (x.id ≡ i → x ≡ j)
          → contains (outdated_ids now locked older_than batch t.rows) x.id ≡ true
          → x.id ≡ i
          → ⊥
      not_this x finished one chosen same =
          running_not_finished leased.owned
            (subst (λ y. outdated now older_than y ≡ true) (one same) (finished chosen))
        where
          running_not_finished : owned_by worker j ≡ true → outdated now older_than j ≡ true → ⊥
          running_not_finished o f = ground arith

-- Other workers' events up to a time.
abbrev pub ByOthers : String → ℕ → List Event → Type 0
ByOthers worker until es = All (λ e. (e.worker ≢ worker) × (e.now ≤ until)) es

-- On a well-formed table, for a job that runs under a worker's lease: any history of other
-- processes' calls, none later than the end of the lease, leaves the job's row as it is.
pub lease_safety :
    (i : ℕ) (worker : String) (j : Job) (until : ℕ) (es : List Event) (w : World)
    → IsWell w.jobs
    → get_job i w.jobs.rows ≡ some j
    → Leased worker until j
    → ByOthers worker until es
    → get_job i (history es w).jobs.rows ≡ some j
unfolding history step
lease_safety i worker j until [] w v there leased others = there
lease_safety i worker j until (e ∷ es) w v there leased others =
    lease_safety i worker j until es _ (perform-IsWell e.now e.worker e.locked e.call w v)
      (Change-get_job i worker j e.worker w.jobs _ v there
        (Leased-earlier worker e.now until j others.0.1 leased) others.0.0
        (perform-Change e.now e.worker e.locked e.call w v.distinct))
      leased others.1
