-- ===== src/Examples/Rounds.antt =====
-- run_scheduler, register_schedule and a Runner at concrete inputs.
use durable_queue.Prelude.{
  ℕ, ◌+◌, ◌*◌, ◌^◌, ◌<◌, ◌≤◌, ◌≡◌, refl, min, max, String, Bool, true, false, List, [], ◌∷◌, Option,
  none, some, arith, All, length,
}
use durable_queue.Jobs.{seconds}
use durable_queue.Database.{unopened, reached, unreachable, answered}
use durable_queue.Wakeup.{Moment, Tick, wait, pause}
use durable_queue.Worker.Sleep.{min_sleep, IsAsleep, is_long}
use durable_queue.Scheduler.{IsTimed, day, one_day, one_hour}
use durable_queue.Scheduler.Clock.{register_schedule, daily}
use durable_queue.Scheduler.Due.{run_due_schedules}
use durable_queue.Scheduler.Keeps.{Follows}
use durable_queue.Scheduler.Timed.{by_daily, register_schedule-IsTimed}
use durable_queue.Scheduler.Loop.{
  Round, Looping, begun, round, sleeps, waits, returned, going, run_scheduler,
}
use durable_queue.Scheduler.Loop.Idle.{round_idle}
use durable_queue.Scheduler.Loop.Ends.{run_scheduler_lem, round-Follows}
use durable_queue.Runner.{Call, finished, keep_running, Signals, signal, join_all}
use durable_queue.Runner.Stop.{stop_lem}
use durable_queue.Examples.Schedules.{
  utc_on, utc_date, iso, report, nightly, both, noon, held, at_three,
}

-- A round over two schedules that are due, with the database at hand.
abbrev quiet : Round
quiet = record {
  stopped = false;
  first = reached;
  second = reached;
  pass = answered;
  query = answered;
  now = noon;
  later = noon;
  locked = held;
  found = both;
}

-- One that finds the server gone.
abbrev cut_off : Round
cut_off = record quiet { first = unreachable }

abbrev first_state : Looping
first_state = begun unopened 0

-- The report comes up again in five minutes.
dozes : (round utc_on utc_date iso true 1 quiet first_state).turn ≡ sleeps (waits (some 299999993))
unfolding round
dozes = refl

round_idle_example :
    let x = round utc_on utc_date iso true 1 quiet first_state in
    (is_long (some 299999993) ≡ true → x.loop.conn.conn ≡ none)
    × ((at : ℕ) (locked : String → Bool)
        → IsAsleep noon (some 299999993) at
        → noon + min_sleep ≤ at
        → run_due_schedules utc_on utc_date iso at locked x.left ≡ some (x.left, 0))
round_idle_example = round_idle utc_on utc_date iso 1 quiet first_state (some 299999993) dozes

run_scheduler_lem_example :
    let x = run_scheduler utc_on utc_date iso true 1 reached 0 (quiet ∷ cut_off ∷ []) in
    let y =
      run_scheduler utc_on utc_date iso true 1 reached 0
        (quiet ∷ cut_off ∷ record quiet { stopped = true } ∷ []) in
    (length x.0.conn.opened ≤ 1)
    × ((n : ℕ) × (x.0.retry_delay ≡ min (seconds (2 ^ n)) (seconds 30)))
    × (true ≡ true → x.1 ≡ going → (y.1 ≡ returned) × (y.0.conn.opened ≡ []))
run_scheduler_lem_example =
    run_scheduler_lem utc_on utc_date iso true 1 reached 0 (quiet ∷ cut_off ∷ [])
      (record quiet { stopped = true }) []

round-Follows_example :
    (fired : ℕ) × Follows both (round utc_on utc_date iso true 1 quiet first_state).left fired
round-Follows_example = round-Follows utc_on utc_date iso true 1 quiet first_state

abbrev every_zone : String → Bool
every_zone zone = true

abbrev three_o_clock : String → Option ℕ
three_o_clock s = some (3 * one_hour)

three_daily :
    daily every_zone three_o_clock "03:00" "UTC"
    ≡ some (record { every = day; at = 3 * one_hour; time_zone = "UTC" })
unfolding daily
three_daily = refl

registered :
    register_schedule utc_on utc_date noon "nightly" "send_report" "{}" at_three none none
      (report ∷ [])
    ≡ some (report ∷ record nightly { next_run_at = 11 * one_day + 3 * one_hour } ∷ [])
unfolding register_schedule
registered = refl

register_schedule-IsTimed_example :
    All IsTimed (report ∷ record nightly { next_run_at = 11 * one_day + 3 * one_hour } ∷ [])
register_schedule-IsTimed_example =
    register_schedule-IsTimed every_zone three_o_clock utc_on utc_date noon "nightly" "send_report"
      "{}" at_three none none (report ∷ []) _ (λ s t e. within t e)
      (by_daily "03:00" "UTC" _ three_daily) (omega arith, tt) registered
  where
    within : (t : ℕ) → some (3 * one_hour) ≡ some t → t < one_day
    within t e = ground (arith, e)

abbrev signals : Signals
signals = record { stop_set = false; generation = 4 }

stop_lem_example :
    ((deadline : ℕ) (ms : List Tick) → pause true deadline (signal signals).stop_set ms ≡ some 0)
    × ((deadline : Option ℕ) (ms : List Moment)
        → wait 3 deadline (signal signals).generation ms ≡ some 0)
    × ((call : Call) (calls : List Call)
        → call.stopped ≡ (signal signals).stop_set
        → keep_running (call ∷ calls) ≡ record { calls = 0; delays = 0; ending = finished })
    × ((timeout clock : ℕ) (ends : List ℕ)
        → join_all (some timeout) ends clock ≤ clock + length ends * timeout)
    × ((last clock : ℕ) (ends : List ℕ)
        → All (λ e. e ≤ last) ends
        → join_all none ends clock ≤ max clock last)
stop_lem_example = stop_lem signals 3 (omega arith)
