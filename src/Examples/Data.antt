-- ===== src/Examples/Data.antt =====
-- Tables, events and tasks that the tests share.
use durable_queue.Jobs.Wellformed.{IsWell}
use durable_queue.Prelude.{arith, refl, ℕ, String, Bool, false, List, [], ◌∷◌, none, some}
use durable_queue.Jobs.{Job, JobTable, pending, running}
use durable_queue.Worker.Run.{World, TaskRun, returns, fine}
use durable_queue.Queue.{Call, enqueues, claims, runs_transactional, reaps, Event}

-- Nothing is locked by another transaction.
abbrev pub free : ℕ → Bool
free i = false

abbrev pub event : ℕ → String → Call → Event
event now worker call = record { now = now; worker = worker; locked = free; call = call }

-- A running job, held by "a" until 30.
abbrev pub held_job : Job
held_job = record {
  id = 1;
  task = "award_credit";
  args = "{}";
  idempotency_key = some "k";
  status = running;
  run_at = 0;
  attempts = 0;
  max_attempts = 5;
  recoveries = 0;
  max_recoveries = 10;
  locked_by = some "a";
  locked_until = some 30;
  last_error = none;
  created_at = 0;
  finished_at = none;
}

abbrev pub waiting_job : ℕ → ℕ → Job
waiting_job i at = record held_job {
  id = i;
  idempotency_key = none;
  status = pending;
  run_at = at;
  locked_by = none;
  locked_until = none;
}

abbrev pub one_held : JobTable
one_held = record { rows = held_job ∷ waiting_job 2 5 ∷ []; next_id = 3 }

pub one_held-IsWell : IsWell one_held
one_held-IsWell = record {
  distinct = (refl, (refl, tt));
  below = omega arith;
  distinct_keys = ((refl, tt), (tt, tt));
  shaped = ((tt, tt, tt), ((tt, tt, tt), tt));
  triable = ((λ _. omega arith), ((λ _. omega arith), tt));
}

abbrev pub busy : World
busy = record { jobs = one_held; committed = []; outside = [] }

abbrev pub credit : TaskRun
credit = record { writes = "UPDATE accounts" ∷ []; ending = returns }

-- Claimed by "a", which dies; reaped, claimed by "b" and completed; "a" comes back too late.
abbrev pub crash : List Event
crash =
    event 0 "app" (enqueues "award_credit" "{}" (some "k"))
    ∷ event 1 "a" (claims 30 1)
    ∷ event 40 "b" (reaps free 100)
    ∷ event 41 "b" (claims 30 1)
    ∷ event 42 "b" (runs_transactional held_job none fine credit)
    ∷ event 43 "a" (runs_transactional held_job none fine credit)
    ∷ []
