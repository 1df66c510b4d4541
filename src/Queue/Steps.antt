-- ===== src/Queue/Steps.antt =====
-- Every event changes the `jobs` table by an INSERT, by changes of the lifecycle or by a purge.
use durable_queue.Prelude.{
  ℕ, ◌≡◌, refl, String, Bool, true, false, List, [], ◌∷◌, Option, none, some, inl, inr, ◌⊎◌,
  Distinct,
}
use durable_queue.Jobs.{Job, JobTable}
use durable_queue.Jobs.Leases.{extend_leases, release_jobs}
use durable_queue.Jobs.Rows.{ids}
use durable_queue.Jobs.Enqueue.{enqueue, enqueue_many, Outcome, ok, err}
use durable_queue.Jobs.Finish.{Failure, mark_failed, mark_succeeded, mark_succeeded_in_transaction}
use durable_queue.Jobs.Retention.{delete_completed_jobs}
use durable_queue.Jobs.Lifecycle.Refines.{
  Lives, Lives-refl, claim_jobs-Lives, extend_leases-Lives, release_jobs-Lives, retry_job-Lives,
  reap_expired_jobs-Lives, bury_expired-Lives, recover_expired-Lives,
  mark_succeeded_in_transaction-Lives,
}
use durable_queue.Jobs.Lifecycle.Failures.{mark_failed-Lives}
use durable_queue.Worker.Run.{
  World, TaskRun, Ending, returns, raises, Fault, fine, lost_before, lost_after, commit, commit_if,
  run_transactional, run_plain,
}
use durable_queue.Queue.{
  Call, enqueues, enqueues_many, claims, extends, hands_back, runs_transactional, runs_plain, fails,
  reaps, buries, recovers, purges, retries, accepted, recorded, perform,
}

-- How an event may change the table.
pub data Change (now : ℕ) (worker : String) (t t' : JobTable) : Type 0 where
  lives : Lives now worker t.rows t'.rows → t'.next_id ≡ t.next_id → Change now worker t t'
  inserts :
      (task args : String) (key : Option String)
      → t' ≡ (enqueue now task args key t).0
      → Change now worker t t'
  inserts_many :
      (task : String) (args_list : List String) (keys : Option (List (Option String)))
      (found : List ℕ)
      → enqueue_many now task args_list keys t ≡ ok (t', found)
      → Change now worker t t'
  purged :
      (locked : ℕ → Bool) (older_than batch : ℕ)
      → t' ≡ (delete_completed_jobs now locked older_than batch t).0
      → Change now worker t t'

pub Ending-cases :
    (e : Ending)
    → (e ≡ returns) ⊎ ((error : String) × (permanent : Bool) × (e ≡ raises error permanent))
Ending-cases returns = inl refl
Ending-cases (raises error permanent) = inr (error, permanent, refl)

pub next_id-extend_leases :
    (now : ℕ) (job_ids : List ℕ) (worker : String) (lease : ℕ) (t : JobTable)
    → (extend_leases now job_ids worker lease t).next_id ≡ t.next_id
unfolding extend_leases
next_id-extend_leases now [] worker lease t = refl
next_id-extend_leases now (i ∷ is) worker lease t = refl

pub next_id-release_jobs :
    (job_ids : List ℕ) (worker : String) (t : JobTable)
    → (release_jobs job_ids worker t).0.next_id ≡ t.next_id
unfolding release_jobs
next_id-release_jobs [] worker t = refl
next_id-release_jobs (i ∷ is) worker t = refl

module _ (now : ℕ) (worker : String) where
  -- The rows go through moves of the lifecycle, each in its place.
  abbrev pub Lived : JobTable → JobTable → Type 0
  Lived t t' = Lives now worker t.rows t'.rows × (t'.next_id ≡ t.next_id)

  lived : (t t' : JobTable) → Lived t t' → Change now worker t t'
  lived t t' l = lives l.0 l.1

  unchanged : (t : JobTable) → Lived t t
  unchanged t = (Lives-refl now worker t.rows, refl)

  accepted-Change :
      (task : String) (args_list : List String) (keys : Option (List (Option String)))
      (t : JobTable) (o : Outcome (JobTable × List ℕ))
      → enqueue_many now task args_list keys t ≡ o
      → Change now worker t (accepted t o)
  accepted-Change task args_list keys t (ok (t', found)) e =
      inserts_many task args_list keys found e
  accepted-Change task args_list keys t (err x) e = lived t t (unchanged t)

  pub recorded-Lived :
      (draw : ℕ → ℕ) (job_id : ℕ) (f : Failure) (t : JobTable) (o : Option (JobTable × Bool))
      → Distinct (ids t.rows)
      → mark_failed draw now job_id worker f t ≡ o
      → Lived t (recorded t o)
  recorded-Lived draw job_id f t none d e = unchanged t
  recorded-Lived draw job_id f t (some (t', held)) d e =
      mark_failed-Lives now worker draw job_id f t t' held d e

  completes :
      (job_id : ℕ) (t : JobTable) → Lived t (mark_succeeded_in_transaction now job_id worker t).0
  unfolding mark_succeeded_in_transaction
  completes job_id t = (mark_succeeded_in_transaction-Lives now worker job_id t, refl)

  commit-Lived :
      (fault : Fault) (max_attempts : Option ℕ) (w w' v : World)
      → Lived v.jobs w.jobs
      → Lived v.jobs w'.jobs
      → Lived v.jobs (commit fault max_attempts w w').0.jobs
  commit-Lived fine max_attempts w w' v a b = b
  commit-Lived (lost_before e) max_attempts w w' v a b = a
  commit-Lived (lost_after e) max_attempts w w' v a b = b

  commit_if-Lived :
      (held : Bool) (fault : Fault) (max_attempts : Option ℕ) (w w' v : World)
      → Lived v.jobs w.jobs
      → Lived v.jobs w'.jobs
      → Lived v.jobs (commit_if held fault max_attempts w w').0.jobs
  commit_if-Lived true fault max_attempts w w' v a b = commit-Lived fault max_attempts w w' v a b
  commit_if-Lived false fault max_attempts w w' v a b = a

  pub run_transactional-Lived :
      (job : Job) (max_attempts : Option ℕ) (fault : Fault) (run : TaskRun) (w : World)
      → Lived w.jobs (run_transactional now job worker max_attempts fault run w).0.jobs
  unfolding run_transactional
  run_transactional-Lived job max_attempts fault run w = elim (Ending-cases run.ending) [
    | inl e ↦
        rw (e, run_transactional)
          (commit_if-Lived _ fault max_attempts w _ w (unchanged w.jobs) (completes job.id w.jobs))
    | inr (error, permanent, e) ↦ rw (e, run_transactional) (unchanged w.jobs)
  ]

  pub run_plain-Lived :
      (job : Job) (max_attempts : Option ℕ) (fault : Fault) (run : TaskRun) (w : World)
      → Lived w.jobs (run_plain now job worker max_attempts fault run w).0.jobs
  unfolding run_plain mark_succeeded
  run_plain-Lived job max_attempts fault run w = elim (Ending-cases run.ending) [
    | inl e ↦
        rw (e, run_plain)
          (commit-Lived fault max_attempts _ _ w (unchanged w.jobs) (completes job.id w.jobs))
    | inr (error, permanent, e) ↦ rw (e, run_plain) (unchanged w.jobs)
  ]

  -- Each call of a history, a whole run of a task included, is such a change.
  pub perform-Change :
      (locked : ℕ → Bool) (c : Call) (w : World)
      → Distinct (ids w.jobs.rows)
      → Change now worker w.jobs (perform now worker locked c w).jobs
  unfolding perform
  perform-Change locked (enqueues task args key) w d = inserts task args key refl
  perform-Change locked (enqueues_many task args_list keys) w d =
      accepted-Change task args_list keys w.jobs _ refl
  perform-Change locked (claims lease n) w d =
      lives (claim_jobs-Lives now worker locked lease n w.jobs d) refl
  perform-Change locked (extends job_ids lease) w d =
      lives (extend_leases-Lives now worker job_ids lease w.jobs)
        (next_id-extend_leases now job_ids worker lease w.jobs)
  perform-Change locked (hands_back job_ids) w d =
      lives (release_jobs-Lives now worker job_ids w.jobs)
        (next_id-release_jobs job_ids worker w.jobs)
  perform-Change locked (runs_transactional job max_attempts fault run) w d =
      lived w.jobs _ (run_transactional-Lived job max_attempts fault run w)
  perform-Change locked (runs_plain job max_attempts fault run) w d =
      lived w.jobs _ (run_plain-Lived job max_attempts fault run w)
  perform-Change locked (fails job_id draw f) w d =
      lived w.jobs _ (recorded-Lived draw job_id f w.jobs _ d refl)
  perform-Change locked (reaps locked' n) w d =
      lives (reap_expired_jobs-Lives now worker locked locked' n w.jobs d) refl
  perform-Change locked (buries n) w d =
      lives (bury_expired-Lives now worker locked n w.jobs d) refl
  perform-Change locked (recovers n) w d =
      lives (recover_expired-Lives now worker locked n w.jobs d) refl
  perform-Change locked (purges older_than n) w d = purged locked older_than n refl
  perform-Change locked (retries job_id) w d = lives (retry_job-Lives now worker job_id w.jobs) refl
