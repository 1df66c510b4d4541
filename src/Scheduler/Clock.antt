-- ===== src/Scheduler/Clock.antt =====
-- scheduler.py: _on, _clock_at_or_before and _clock_after, and register_schedule, which reads a clock.
use durable_queue.Prelude.{
  ℕ, zero, suc, ◌+◌, ◌-◌, ◌*◌, ◌/◌, ◌%◌, ◌<◌, ◌≤◌, String, Bool, List, Option, none, some, ltb, leb,
  if◌then◌else◌,
}
use durable_queue.Scheduler.{
  hour, day, ClockTime, Schedule, minute, one_hour, one_day, When, seconds_apart, clock_time,
  scheduled, upsert_schedule,
}

-- instant.replace(minute=clock.at.minute, second=0, microsecond=0), on UTC's clock
abbrev pub hour_slot : ℕ → ℕ → ℕ
hour_slot at instant = instant / one_hour * one_hour + at / minute % 60 * minute

-- slot if slot <= instant else slot - timedelta(hours=1)
unfoldable pub hour_at_or_before : ℕ → ℕ → ℕ
hour_at_or_before at instant =
    let slot = hour_slot at instant in if leb slot instant then slot else slot - one_hour

-- `while _on(clock, day) > instant: day -= 1`, for at most `fuel` tests; `none` if it has not ended.
unfoldable pub last_day : (ℕ → ℕ) → ℕ → ℕ → ℕ → Option ℕ
last_day on instant zero d = none
last_day on instant (suc fuel) d =
    let rest = last_day on instant fuel (d - 1) in if ltb instant (on d) then rest else some d

-- `while _on(clock, day) <= instant: day += 1`
unfoldable pub first_day : (ℕ → ℕ) → ℕ → ℕ → ℕ → Option ℕ
first_day on instant zero d = none
first_day on instant (suc fuel) d =
    let rest = first_day on instant fuel (d + 1) in if leb (on d) instant then rest else some d

-- Enough for both loops, since no clock is a whole day away from UTC.
abbrev pub fuel : ℕ
fuel = 4

abbrev pub at_day : (ℕ → ℕ) → Option ℕ → Option ℕ
at_day on none = none
at_day on (some d) = some (on d)

-- `on zone at d` is the instant of the time `at` on day d of the zone's calendar, the days counted from
-- the epoch's; `local_date zone i` is the day that this calendar shows at instant i.
module _ (on : String → ℕ → ℕ → ℕ) (local_date : String → ℕ → ℕ) where
  unfoldable pub clock_at_or_before : ClockTime → ℕ → Option ℕ
  unfolding hour_at_or_before last_day
  clock_at_or_before c instant = elim c.every [
    | hour ↦ some (hour_at_or_before c.at instant)
    | day ↦
        at_day (on c.time_zone c.at)
          (last_day (on c.time_zone c.at) instant fuel (local_date c.time_zone instant))
  ]

  unfoldable pub clock_after : ClockTime → ℕ → Option ℕ
  unfolding hour_at_or_before first_day
  clock_after c instant = elim c.every [
    | hour ↦ some (hour_at_or_before c.at instant + one_hour)
    | day ↦
        at_day (on c.time_zone c.at)
          (first_day (on c.time_zone c.at) instant fuel (local_date c.time_zone instant))
  ]

  -- The next_run_at of the row to be inserted: COALESCE(first_run_at, now()). `none`: an exception.
  unfoldable pub first_run : ℕ → When → Option ℕ → Option ℕ
  unfolding clock_after
  first_run now (seconds_apart n) none = some now
  first_run now (seconds_apart n) (some at) = some at
  first_run now (clock_time c) none = clock_after c now
  first_run now (clock_time c) (some at) = none

  unfoldable pub register_schedule :
      ℕ
      → (name task args : String) → When
      → (first_run_at max_lateness : Option ℕ) → List Schedule
      → Option (List Schedule)
  unfolding first_run upsert_schedule
  register_schedule now name task args when first_run_at max_lateness rows =
      elim (first_run now when first_run_at) [
        | none ↦ none
        | some next ↦ some (upsert_schedule (scheduled name task args when max_lateness next) rows)
      ]

-- daily; `known` tells the zones that zoneinfo has, and `fromisoformat` a text's time of day. `none`: a
-- ZoneInfoNotFoundError or a ValueError.
unfoldable pub daily :
    (String → Bool) → (String → Option ℕ) → (at time_zone : String) → Option ClockTime
daily known fromisoformat at time_zone =
    let time = fromisoformat at in
    if known time_zone
    then elim time [
      | none ↦ none
      | some t ↦ some (record { every = day; at = t; time_zone = time_zone })
    ]
    else none

-- What zoneinfo documents: a zone's offset from UTC is less than a day, so a time of a zone's day is
-- less than a day from that time of UTC's day, and so is the day's beginning.
pub record IsZone (on : String → ℕ → ℕ → ℕ) (local_date : String → ℕ → ℕ) : Type 0 where
  pub on_early : (zone : String) (at d : ℕ) → on zone at d < d * one_day + at + one_day
  pub on_late : (zone : String) (at d : ℕ) → d * one_day + at < on zone at d + one_day
  pub date_early : (zone : String) (i : ℕ) → local_date zone i * one_day < i + one_day
  pub date_late : (zone : String) (i : ℕ) → i < (local_date zone i + 2) * one_day

-- What holds besides of a zone whose clocks never go back over midnight: a day's time comes no later
-- than the next day's, and at any instant the next day's is yet to come.
pub record IsForward (on : String → ℕ → ℕ → ℕ) (local_date : String → ℕ → ℕ) : Type 0 where
  pub ordered : (zone : String) (at d : ℕ) → on zone at d ≤ on zone at (d + 1)
  pub forward : (zone : String) (at i : ℕ) → i < on zone at (local_date zone i + 1)
