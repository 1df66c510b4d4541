-- ===== src/Examples/Histories.antt =====
-- A worker among other processes, at a concrete input.
use durable_queue.Prelude.{◌≡◌, refl, true, false, List, [], ◌∷◌, none, inl, inr, ◌⊎◌, All}
use durable_queue.Jobs.{JobTable}
use durable_queue.Jobs.Claim.{claim_jobs}
use durable_queue.Database.{unopened, reached}
use durable_queue.Queue.{Event, enqueues, history, new_world}
use durable_queue.Worker.Loop.Shutdown.{Closing, Step, Finished, run_worker}
use durable_queue.Worker.Loop.History.{Interleaved, ended_in, run_worker-history}
use durable_queue.Examples.Data.{free, event}
use durable_queue.Examples.Loops.{options, over, outside}

abbrev asked_for : List Event
asked_for = event 10 "web" (enqueues "send" "{}" none) ∷ []

abbrev one_job : JobTable
one_job = (history asked_for new_world).jobs

-- It claims the job, and is told to stop before a slot has taken it.
abbrev hands_back : Closing
hands_back = record {
  hand = over (claim_jobs 20 free "b" 30000000 2 one_job).0;
  emptying = [];
  joining = [];
  heartbeat_conn = unopened;
}

abbrev claims_and_stops : List Step
claims_and_stops =
    record { stopping = false; outside = outside one_job }
    ∷ record { stopping = true; outside = outside one_job }
    ∷ []

abbrev ran : Finished
ran = run_worker options reached 0 claims_and_stops hands_back

abbrev the_others : List (List Event)
the_others = asked_for ∷ [] ∷ [] ∷ [] ∷ []

abbrev IsKnown : Event → Type 0
IsKnown e = (e.worker ≡ "web") ⊎ (e.worker ≡ "b")

ran-Interleaved : Interleaved the_others ran.worker.writes new_world
unfolding run_worker history
ran-Interleaved = (refl, (refl, (refl, (refl, tt))))

run_worker-history_example :
    (es : List Event) × (history es new_world ≡ ended_in the_others ran.worker.writes new_world)
    × All IsKnown es
run_worker-history_example =
    run_worker-history options hands_back reached 0 claims_and_stops IsKnown the_others new_world
      ran-Interleaved ((inl refl, tt), (tt, (tt, (tt, tt)))) (λ e own. inr own.0)
