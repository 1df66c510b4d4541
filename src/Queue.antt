-- ===== src/Queue.antt =====
-- The queue as a whole: any number of processes calling jobs.py and the run of a task in worker.py, in
-- any order. A transaction of the program is one event, and Postgres orders the events.
pub mod Steps
pub mod Life
pub mod Invariant
pub mod Over
pub mod Once
pub mod Reads
pub mod Leases
use durable_queue.Prelude.{ℕ, String, Bool, List, [], ◌∷◌, Option, none, some}
use durable_queue.Jobs.{Job, JobTable, no_jobs}
use durable_queue.Jobs.Enqueue.{enqueue, enqueue_many, Outcome, ok, err}
use durable_queue.Jobs.Claim.{claim_jobs}
use durable_queue.Jobs.Leases.{extend_leases, release_jobs}
use durable_queue.Jobs.Reap.{reap_expired_jobs, bury_expired, recover_expired}
use durable_queue.Jobs.Finish.{Failure, mark_failed}
use durable_queue.Jobs.Retention.{delete_completed_jobs, retry_job}
use durable_queue.Worker.Run.{World, TaskRun, Fault, run_transactional, run_plain}

-- What a process does. A worker may act on any job that it believes to hold, at any time.
pub data Call : Type 0 where
  enqueues : (task args : String) (key : Option String) → Call
  enqueues_many :
      (task : String) (args_list : List String) (keys : Option (List (Option String))) → Call
  claims : (lease batch_size : ℕ) → Call
  extends : (job_ids : List ℕ) (lease : ℕ) → Call
  hands_back : (job_ids : List ℕ) → Call
  runs_transactional runs_plain :
      (job : Job) (max_attempts : Option ℕ) (fault : Fault) (run : TaskRun) → Call
  fails : (job_id : ℕ) (draw : ℕ → ℕ) (failure : Failure) → Call
  reaps : (locked' : ℕ → Bool) (reap_batch : ℕ) → Call
  buries recovers : (reap_batch : ℕ) → Call
  purges : (older_than batch : ℕ) → Call
  retries : (job_id : ℕ) → Call

-- Who calls, when, and which rows other transactions have locked then.
pub record Event : Type 0 where
  pub now : ℕ
  pub worker : String
  pub locked : ℕ → Bool
  pub call : Call

-- A statement that Postgres refuses, and a call that raises, leave the table as it was.
abbrev pub accepted : JobTable → Outcome (JobTable × List ℕ) → JobTable
accepted t (ok (t', ids)) = t'
accepted t (err e) = t

abbrev pub recorded : JobTable → Option (JobTable × Bool) → JobTable
recorded t none = t
recorded t (some (t', held)) = t'

unfoldable pub perform : ℕ → String → (ℕ → Bool) → Call → World → World
unfolding enqueue enqueue_many claim_jobs extend_leases release_jobs reap_expired_jobs bury_expired
    recover_expired mark_failed delete_completed_jobs retry_job run_transactional run_plain
perform now worker locked (enqueues task args key) w = record w {
  jobs = (enqueue now task args key w.jobs).0;
}
perform now worker locked (enqueues_many task args_list keys) w = record w {
  jobs = accepted w.jobs (enqueue_many now task args_list keys w.jobs);
}
perform now worker locked (claims lease batch_size) w = record w {
  jobs = (claim_jobs now locked worker lease batch_size w.jobs).0;
}
perform now worker locked (extends job_ids lease) w = record w {
  jobs = extend_leases now job_ids worker lease w.jobs;
}
perform now worker locked (hands_back job_ids) w = record w {
  jobs = (release_jobs job_ids worker w.jobs).0;
}
perform now worker locked (runs_transactional job max_attempts fault run) w =
    (run_transactional now job worker max_attempts fault run w).0
perform now worker locked (runs_plain job max_attempts fault run) w =
    (run_plain now job worker max_attempts fault run w).0
perform now worker locked (fails job_id draw failure) w = record w {
  jobs = recorded w.jobs (mark_failed draw now job_id worker failure w.jobs);
}
perform now worker locked (reaps locked' reap_batch) w = record w {
  jobs = (reap_expired_jobs now locked locked' reap_batch w.jobs).0;
}
perform now worker locked (buries reap_batch) w = record w {
  jobs = (bury_expired now locked reap_batch w.jobs).0;
}
perform now worker locked (recovers reap_batch) w = record w {
  jobs = (recover_expired now locked reap_batch w.jobs).0;
}
perform now worker locked (purges older_than batch) w = record w {
  jobs = (delete_completed_jobs now locked older_than batch w.jobs).0;
}
perform now worker locked (retries job_id) w = record w { jobs = (retry_job now job_id w.jobs).0 }

unfoldable pub step : Event → World → World
unfolding perform
step e w = perform e.now e.worker e.locked e.call w

unfoldable pub history : List Event → World → World
unfolding step
history [] w = w
history (e ∷ es) w = history es (step e w)

abbrev pub new_world : World
new_world = record { jobs = no_jobs; committed = []; outside = [] }
