-- ===== src/Examples/Queue.antt =====
-- The queue's theorems at concrete inputs.
use durable_queue.Prelude.{
  ◌≡◌, refl, ◌≢◌, String, List, [], ◌∷◌, map, some, All, Distinct, arith, false, str_eq, eq_iff,
}
use durable_queue.Jobs.{succeeded, get_job}
use durable_queue.Jobs.Wellformed.{IsWell}
use durable_queue.Queue.Life.{Allowed}
use durable_queue.Queue.Life.Holds.{perform-Allowed}
use durable_queue.Queue.{perform, Event, history, new_world, claims, reaps, retries}
use durable_queue.Queue.Invariant.{history-IsWell, no_jobs-IsWell}
use durable_queue.Queue.Once.{exactly_once, job_ids}
use durable_queue.Queue.Over.{Done}
use durable_queue.Queue.Leases.{lease_safety}
use durable_queue.Examples.Data.{one_held, free, event, held_job, one_held-IsWell, busy, crash}

crash_committed : job_ids (history crash new_world).committed ≡ 1 ∷ []
unfolding history
crash_committed = refl

crash_status : map (λ j. j.status) (history crash new_world).jobs.rows ≡ succeeded ∷ []
unfolding history
crash_status = refl

history-IsWell_example : IsWell (history crash new_world).jobs
history-IsWell_example = history-IsWell crash new_world no_jobs-IsWell

exactly_once_example :
    Distinct (job_ids (history crash new_world).committed)
    × All (λ c. Done c.job_id (history crash new_world).jobs) (history crash new_world).committed
exactly_once_example = exactly_once crash

abbrev others : List Event
others = event 10 "b" (reaps free 100) ∷ event 11 "b" (claims 30 5) ∷ event 12 "c" (retries 1) ∷ []

differ : (v w : String) → str_eq v w ≡ false → v ≢ w
differ v w n e = ground (arith, eq_iff v w)

lease_safety_example : get_job 1 (history others busy).jobs.rows ≡ some held_job
unfolding get_job
lease_safety_example =
    lease_safety 1 "a" held_job 20 others busy one_held-IsWell refl
      (record { until = 30; owned = refl; lease = refl; unexpired = omega arith })
      (
        (differ "b" "a" refl, omega arith),
        ((differ "b" "a" refl, omega arith), ((differ "c" "a" refl, omega arith), tt)),
      )

perform-Allowed_example :
    Allowed 40 "b" (reaps free 100) one_held (perform 40 "b" free (reaps free 100) busy).jobs
perform-Allowed_example = perform-Allowed 40 "b" free (reaps free 100) busy (refl, (refl, tt))
