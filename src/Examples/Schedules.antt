-- ===== src/Examples/Schedules.antt =====
-- The scheduler's theorems at concrete inputs, with UTC as the only zone.
use durable_queue.Prelude.{
  ℕ, ◌+◌, ◌*◌, ◌-◌, ◌/◌, ◌≡◌, refl, String, Bool, false, [], ◌∷◌, some, none, All, arith,
}
use durable_queue.Jobs.{no_jobs}
use durable_queue.Scheduler.{day, When, clock_time, Schedule, Tables, one_day, one_hour}
use durable_queue.Scheduler.Clock.{IsZone, IsForward, register_schedule}
use durable_queue.Scheduler.Due.{slot_to_run, is_due, fire_slot, set_next, run_due_schedules}
use durable_queue.Scheduler.Slots.{Slotted, slot_to_run_lem}
use durable_queue.Scheduler.Pass.{run_due_schedules_lem}
use durable_queue.Scheduler.Refire.{wound_back_adds_nothing}
use durable_queue.Scheduler.Register.{register_schedule_again}

abbrev pub utc_on : String → ℕ → ℕ → ℕ
utc_on zone at d = d * one_day + at

abbrev pub utc_date : String → ℕ → ℕ
utc_date zone i = i / one_day

abbrev pub iso : ℕ → String
iso i = "2026-01-01T00:00:00+00:00"

pub utc-IsZone : IsZone utc_on utc_date
utc-IsZone = record {
  on_early = λ zone at d. omega arith;
  on_late = λ zone at d. omega arith;
  date_early = λ zone i. omega arith;
  date_late = λ zone i. omega arith;
}

utc-IsForward : IsForward utc_on utc_date
utc-IsForward = record { ordered = λ zone at d. omega arith; forward = λ zone at i. omega arith }

-- Every five minutes, from day 10 on.
abbrev pub report : Schedule
report = record {
  name = "report";
  task = "send_report";
  args = "{}";
  interval_seconds = some 300;
  every = none;
  at_time = none;
  time_zone = none;
  max_lateness_seconds = none;
  next_run_at = 10 * one_day;
}

-- At three every night.
abbrev pub nightly : Schedule
nightly = record report {
  name = "nightly";
  interval_seconds = none;
  every = some day;
  at_time = some (3 * one_hour);
  time_zone = some "UTC";
}

abbrev pub both : Tables
both = record { schedules = report ∷ nightly ∷ []; jobs = no_jobs }

abbrev pub noon : ℕ
noon = 10 * one_day + 12 * one_hour + 7

abbrev pub held : String → Bool
held name = false

slot_to_run_lem_example : Slotted utc_on utc_date nightly noon
slot_to_run_lem_example =
    slot_to_run_lem utc_on utc_date utc-IsZone utc-IsForward nightly noon (omega arith)
      (omega arith) (omega arith)

run_due_schedules_lem_example :
    (r : Tables × ℕ) × (run_due_schedules utc_on utc_date iso noon held both ≡ some r)
    × All (λ y. is_due noon held y ≡ false) r.0.schedules
    × (run_due_schedules utc_on utc_date iso noon held r.0 ≡ some (r.0, 0))
run_due_schedules_lem_example =
    run_due_schedules_lem utc_on utc_date iso utc-IsZone utc-IsForward noon (omega arith) held both
      (omega arith, (omega arith, tt))

last_report : slot_to_run utc_on utc_date noon report ≡ some (10 * one_day + 12 * one_hour)
unfolding slot_to_run
last_report = refl

wound_back_adds_nothing_example :
    (slot_to_run utc_on utc_date noon (set_next (10 * one_day - one_hour) report)
      ≡ some (10 * one_day + 12 * one_hour))
    × ((later : ℕ)
        → (fire_slot iso later
            (set_next (10 * one_day - one_hour) report)
            (10 * one_day + 12 * one_hour)
            (fire_slot iso noon report (10 * one_day + 12 * one_hour) no_jobs).0).0.rows
          ≡ (fire_slot iso noon report (10 * one_day + 12 * one_hour) no_jobs).0.rows)
wound_back_adds_nothing_example =
    wound_back_adds_nothing utc_on utc_date iso report noon (10 * one_day - one_hour)
      (10 * one_day + 12 * one_hour) no_jobs (omega arith) (12, refl) (omega arith) last_report refl

abbrev pub at_three : When
at_three = clock_time (record { every = day; at = 3 * one_hour; time_zone = "UTC" })

first_registration :
    register_schedule utc_on utc_date noon "nightly" "send_report" "{}" at_three none none []
    ≡ some (record nightly { next_run_at = 11 * one_day + 3 * one_hour } ∷ [])
unfolding register_schedule
first_registration = refl

register_schedule_again_example :
    register_schedule utc_on utc_date
      (noon + 5 * one_day)
      "nightly"
      "send_report"
      "{}"
      at_three
      none
      none
      (record nightly { next_run_at = 11 * one_day + 3 * one_hour } ∷ [])
    ≡ some (record nightly { next_run_at = 11 * one_day + 3 * one_hour } ∷ [])
register_schedule_again_example =
    register_schedule_again utc_on utc_date utc-IsZone "nightly" "send_report" "{}" at_three none
      none noon (noon + 5 * one_day) [] _ first_registration
