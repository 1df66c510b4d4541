-- ===== src/Examples/Pools.antt =====
-- A worker's slots at concrete inputs.
use durable_queue.Prelude.{◌≡◌, true, false, [], ◌∷◌, All, Each, contains}
use durable_queue.Jobs.{owned_by}
use durable_queue.Jobs.Rows.{ids}
use durable_queue.Worker.Pool.{Settings, Pool, hand_back}
use durable_queue.Worker.Pool.HandBack.{Spared, hand_back_lem}
use durable_queue.Examples.Data.{held_job, waiting_job, one_held}

abbrev settings : Settings
settings = record { worker = "a"; lease = 30; batch_size = 2; concurrency = 1 }

abbrev holding : Pool
holding = record {
  ready = held_job ∷ [];
  running = waiting_job 2 5 ∷ [];
  outstanding = 2;
  deadlines = [];
}

hand_back_lem_example :
    All
      (λ j. contains (ids holding.ready) j.id ≡ true → owned_by settings.worker j ≡ false)
      (hand_back settings one_held holding).0.rows
    × Each (Spared (ids holding.ready)) one_held.rows (hand_back settings one_held holding).0.rows
hand_back_lem_example = hand_back_lem settings one_held holding
