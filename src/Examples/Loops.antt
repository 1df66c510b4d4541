-- ===== src/Examples/Loops.antt =====
-- The loops of a worker and a scheduler at concrete inputs.
use durable_queue.Prelude.{
  ℕ, ◌+◌, ◌^◌, ◌≤◌, ◌≡◌, refl, min, String, Bool, true, false, List, [], ◌∷◌, ◌++◌, none, some, inl,
  length,
}
use durable_queue.Jobs.{JobTable, no_jobs, seconds}
use durable_queue.Jobs.Claim.{claim_jobs}
use durable_queue.Jobs.Reap.{reap_expired_jobs}
use durable_queue.Database.{unopened, reached, answered}
use durable_queue.Worker.Sleep.{min_sleep, IsAsleep, is_long}
use durable_queue.Worker.Pool.{max_outstanding}
use durable_queue.Worker.Loop.{Options, Working, takes, ends, waits}
use durable_queue.Worker.Loop.Pass.{Statement, Outside, pass}
use durable_queue.Worker.Loop.Idle.{pass_idle}
use durable_queue.Worker.Loop.Shutdown.{Closing, Step, returned, going, started, run_worker}
use durable_queue.Worker.Loop.Ends.{is_running, run_worker_lem}
use durable_queue.Worker.Loop.Stops.{run_worker_stops}
use durable_queue.Examples.Data.{free, waiting_job, one_held}

abbrev pub options : Options
options = record {
  settings = record { worker = "b"; lease = seconds 30; batch_size = 2; concurrency = 1 };
  idle = true;
  use_notify = true;
  durable_bookkeeping = true;
  poll_interval = seconds 1;
  reap_interval = none;
}

abbrev pub over : JobTable → Statement
over t = record { reach = reached; link = answered; now = 20; found = t }

-- A pass over that table, in which a slot takes a job before the loop looks for room.
abbrev pub outside : JobTable → Outside
outside t = record {
  clock = 0;
  swept_at = 1;
  held_at = 2;
  bury = over t;
  recover = over t;
  claim = over t;
  due = over t;
  listening = reached;
  notices = answered;
  locked_poisoned = free;
  locked_expired = free;
  locked_due = free;
  looks = record { meanwhile = takes ∷ []; stopping = false } ∷ [];
  meanwhile = [];
}

abbrev closing : Closing
closing = record {
  hand = over one_held;
  emptying = [];
  joining = ends 2 ∷ [];
  heartbeat_conn = unopened;
}

-- One pass that claims a job, one that finds none, and then `stop`.
abbrev two_passes : List Step
two_passes =
    record { stopping = false; outside = outside one_held }
    ∷ record { stopping = false; outside = outside no_jobs }
    ∷ []

abbrev told_to_stop : Step
told_to_stop = record { stopping = true; outside = outside no_jobs }

still_going : (run_worker options reached 0 two_passes closing).ended ≡ going
unfolding run_worker
still_going = refl

run_worker_stops_example :
    let f = run_worker options reached 0 (two_passes ++ told_to_stop ∷ []) closing in
    (f.ended ≡ returned)
    × (f.worker.claim_conn.opened ≡ [])
    × (f.heartbeat_conn.opened ≡ [])
    × (f.worker.slot_pool ≡ false)
    × (f.worker.pool.ready ≡ [])
run_worker_stops_example =
    run_worker_stops options closing (inl refl) tt reached 0 two_passes told_to_stop []
      ((refl, (refl, tt)), (tt, (tt, tt))) refl still_going

run_worker_lem_example :
    let f = run_worker options reached 0 two_passes closing in
    (length f.worker.claim_conn.opened ≤ 1)
    × ((n : ℕ) × (f.worker.retry_delay ≡ min (seconds (2 ^ n)) (seconds 30)))
    × (is_running f.ended ≡ true
        → (f.worker.pool.outstanding ≡ length f.worker.pool.ready + length f.worker.pool.running)
          × (f.worker.pool.outstanding ≤ max_outstanding options.settings)
          × (length f.worker.pool.running ≤ options.settings.concurrency))
run_worker_lem_example =
    run_worker_lem options closing (inl refl) reached 0 two_passes ((refl, (refl, tt)), (tt, tt))

abbrev one_later : JobTable
one_later = record { rows = waiting_job 1 (seconds 90) ∷ []; next_id = 2 }

abbrev begun : Working
begun = started options unopened 7

goes_to_sleep : (pass options (outside one_later) begun).turn ≡ waits 7 (some 89999980)
unfolding pass
goes_to_sleep = refl

pass_idle_example :
    let r = pass options (outside one_later) begun in
    (7 ≡ begun.generation)
    × (r.worker.pool.outstanding ≡ 0
        → is_long (some 89999980) ≡ true
        → (r.worker.claim_conn.conn ≡ none) × (r.worker.slot_pool ≡ false))
    × ((later : ℕ) (locked locked' : ℕ → Bool) (worker : String) (lease n m : ℕ)
        → IsAsleep (outside one_later).due.now (some 89999980) later
        → (outside one_later).due.now + min_sleep ≤ later
        → (claim_jobs later locked worker lease n r.left ≡ (r.left, []))
          × (reap_expired_jobs later locked locked' m r.left ≡ (r.left, 0)))
pass_idle_example = pass_idle options (outside one_later) begun 7 (some 89999980) goes_to_sleep
