-- ===== src/Examples/Reads.antt =====
-- Looking at the queue, round trips and the command line at concrete inputs.
use durable_queue.Prelude.{◌+◌, ◌≡◌, refl, [], ◌∷◌, none, some}
use durable_queue.Jobs.{Job, JobTable, dead, get_job}
use durable_queue.Jobs.Rows.{ids}
use durable_queue.Jobs.Claim.{claim_jobs}
use durable_queue.Jobs.Leases.{release_jobs}
use durable_queue.Jobs.Leases.HandedBack.{claim_jobs-release_jobs}
use durable_queue.Jobs.Enqueue.Found.{Found}
use durable_queue.Jobs.Inspect.{get_queue_stats}
use durable_queue.Jobs.Inspect.Reads.{IsOldest, get_queue_stats_lem}
use durable_queue.Database.{answered, unheard}
use durable_queue.Commands.{retry, Shell, command}
use durable_queue.Commands.Retry.{AfterRetry, retry_lem}
use durable_queue.Examples.Data.{free, held_job, waiting_job, one_held, one_held-IsWell}

get_queue_stats_lem_example :
    let s = get_queue_stats 20 one_held in
    (s.n_pending + s.n_running + s.n_succeeded + s.n_dead ≡ 2)
    × IsOldest 20 one_held.rows s.oldest_pending_age
get_queue_stats_lem_example = get_queue_stats_lem 20 one_held

claim_jobs-release_jobs_example :
    let (claimed, batch) = claim_jobs 20 free "b" 30 5 one_held in
    (release_jobs (ids batch) "b" claimed).0 ≡ one_held
claim_jobs-release_jobs_example = claim_jobs-release_jobs 20 free "b" 30 5 one_held one_held-IsWell

abbrev dead_job : Job
dead_job = record held_job {
  status = dead;
  attempts = 5;
  locked_by = none;
  locked_until = none;
  last_error = some "boom";
  finished_at = some 9;
}

abbrev one_dead : JobTable
one_dead = record { rows = dead_job ∷ waiting_job 2 5 ∷ []; next_id = 3 }

abbrev shell : Shell
shell = record { connection = some 0; link = answered; now = 20; locked = free }

the_dead_job : get_job 1 one_dead.rows ≡ some dead_job
unfolding get_job
the_dead_job = refl

-- The COMMIT of a retry whose answer is lost.
abbrev lost_answer : Shell
lost_answer = record shell { link = unheard }

retry_lem_example :
    AfterRetry unheard (some 0) 20 1 dead_job one_dead (command (retry 1) lost_answer one_dead)
retry_lem_example = retry_lem lost_answer 1 one_dead dead_job the_dead_job refl
