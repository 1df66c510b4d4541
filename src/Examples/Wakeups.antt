-- ===== src/Examples/Wakeups.antt =====
-- Waking idle loops, at concrete inputs.
use durable_queue.Prelude.{◌≡◌, refl, true, false, List, [], ◌∷◌, some, if◌then◌else◌}
use durable_queue.Wakeup.{
  Moment, current, wait, generation_after, has_woken, first, rouses, wait_lem,
}
use durable_queue.Session.{
  Session, Statement, enqueues, enqueues_many, execute_all, any_refused, commit, enqueue,
  enqueue_many,
}
use durable_queue.Examples.Data.{one_held}

abbrev meanwhile : List Moment
meanwhile = record { woken = false; clock = 1 } ∷ record { woken = true; clock = 2 } ∷ []

abbrev asleep : List Moment
asleep = record { woken = false; clock = 30 } ∷ record { woken = false; clock = 60 } ∷ []

times_out : wait 3 (some 50) 3 asleep ≡ some 2
unfolding wait
times_out = refl

wait_lem_example :
    wait (current 3) (some 50) (generation_after meanwhile 3) asleep
    ≡ (if has_woken meanwhile then some 0 else first (rouses (some 50)) asleep)
wait_lem_example = wait_lem (some 50) 3 meanwhile asleep

abbrev idle_session : Session
idle_session = record {
  jobs = one_held;
  committed = one_held;
  aborted = false;
  enqueued = false;
  listening = false;
  generation = 7;
}

-- The second statement gives a key twice, which Postgres refuses.
abbrev orders : List Statement
orders =
    enqueues 40 "send_receipt" "{}" (some "r")
    ∷ enqueues_many 40 "notify" ("{}" ∷ "{}" ∷ []) (some (some "d" ∷ some "d" ∷ []))
    ∷ enqueues 41 "send_receipt" "{}" (some "s")
    ∷ []

refused_then : any_refused orders idle_session ≡ true
unfolding enqueue_many enqueue
refused_then = refl

woken_all_the_same : (commit (execute_all orders idle_session)).generation ≡ 8
unfolding commit execute_all enqueue enqueue_many
woken_all_the_same = refl
