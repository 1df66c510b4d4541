-- ===== src/Examples/Benchmarks.antt =====
-- The benchmark's loops at concrete inputs.
use durable_queue.Prelude.{ℕ, arith, ◌≡◌, refl, List, [], ◌∷◌, some, All}
use durable_queue.Jobs.{succeeded, dead}
use durable_queue.Benchmark.{drained, not_drained, drain, percentile, raw_jobs, raw_cycles}
use durable_queue.Benchmark.Ceiling.{raw_cycles_lem}
use durable_queue.Examples.Data.{waiting_job}

-- Two jobs, and a clock that stands still now and then.
abbrev clocks : List (ℕ × ℕ)
clocks = (5, 6) ∷ (6, 6) ∷ (9, 9) ∷ (9, 9) ∷ []

raw_cycles_lem_example :
    let r = raw_cycles clocks 0 (raw_jobs 5 1 2) in
    (r.1 ≡ some 2) × All (λ j. j.status ≡ succeeded) r.0
raw_cycles_lem_example =
    raw_cycles_lem 5 1 2 clocks (omega arith, (omega arith, (omega arith, (omega arith, tt))))
      (omega arith)

one_left :
    drain 10 20 (
      record { found = waiting_job 1 0 ∷ []; clock = 30; counted = [] }
      ∷ record { found = waiting_job 1 0 ∷ []; clock = 31; counted = waiting_job 1 0 ∷ [] }
      ∷ [])
    ≡ not_drained 1
unfolding drain
one_left = refl

in_time :
    drain 10 20 (
      record { found = waiting_job 1 0 ∷ []; clock = 30; counted = [] }
      ∷ record { found = record (waiting_job 1 0) { status = dead } ∷ []; clock = 31; counted = [] }
      ∷ [])
    ≡ drained 21
unfolding drain
in_time = refl

the_median : percentile (4 ∷ 1 ∷ 3 ∷ []) 50 ≡ some 3
unfolding percentile
the_median = refl
