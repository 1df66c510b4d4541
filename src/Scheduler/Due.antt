-- ===== src/Scheduler/Due.antt =====
-- scheduler.py: _slot_to_run, _slot_after, run_due_schedules and seconds_until_next_schedule.
use Prim.Native.String.{◌++◌ as text_append}
use durable_queue.Prelude.{
  ℕ, ◌+◌, ◌-◌, ◌*◌, ◌/◌, String, Bool, false, ◌&&◌, not, List, [], ◌∷◌, map, Option, none, some,
  ltb, leb, ◌==◌, if◌then◌else◌,
}
use durable_queue.Prelude.Int.{ℤ, sub_ℕ}
use durable_queue.Sql.{select_where, update_where, minimum}
use durable_queue.Jobs.{JobTable, seconds}
use durable_queue.Jobs.Enqueue.{enqueue}
use durable_queue.Scheduler.{Every, ClockTime, Schedule, Tables, named}
use durable_queue.Scheduler.Clock.{clock_at_or_before, clock_after}

-- Clock(row["every"], row["at_time"], row["time_zone"])
abbrev pub clock_of : Every → Option ℕ → Option String → Option ClockTime
clock_of every (some at) (some zone) = some (record { every = every; at = at; time_zone = zone })
clock_of every _ _ = none

-- WHERE next_run_at <= now() FOR UPDATE SKIP LOCKED
abbrev pub is_due : ℕ → (String → Bool) → Schedule → Bool
is_due now locked r = leb r.next_run_at now && not (locked r.name)

abbrev pub set_next : ℕ → Schedule → Schedule
set_next next r = record r { next_run_at = next }

-- next + ((now - next) // period) * period; `none`: a ZeroDivisionError
unfoldable pub interval_slot : ℕ → ℕ → ℕ → Option ℕ
interval_slot period next now =
    if period == 0 then none else some (next + (now - next) / period * period)

-- row["max_lateness_seconds"] is not None and lateness > row["max_lateness_seconds"]
abbrev pub too_late : Option ℕ → ℕ → Bool
too_late none lateness = false
too_late (some limit) lateness = ltb (seconds limit) lateness

module _ (on : String → ℕ → ℕ → ℕ) (local_date : String → ℕ → ℕ) where
  -- `none` where the program raises: the row has neither an interval nor a clock, or an interval of 0.
  unfoldable pub slot_to_run : ℕ → Schedule → Option ℕ
  unfolding interval_slot clock_at_or_before
  slot_to_run now row = elim row.every [
    | none ↦ elim row.interval_seconds [
      | none ↦ none
      | some n ↦ interval_slot (seconds n) row.next_run_at now
    ]
    | some every ↦ elim (clock_of every row.at_time row.time_zone) [
      | none ↦ none
      | some c ↦ clock_at_or_before on local_date c now
    ]
  ]

  unfoldable pub slot_after : Schedule → ℕ → Option ℕ
  unfolding clock_after
  slot_after row slot = elim row.every [
    | none ↦ elim row.interval_seconds [ none ↦ none | some n ↦ some (slot + seconds n) ]
    | some every ↦ elim (clock_of every row.at_time row.time_zone) [
      | none ↦ none
      | some c ↦ clock_after on local_date c slot
    ]
  ]

-- `isoformat` is that of a UTC datetime.
module _ (isoformat : ℕ → String) where
  -- f"sched:{row['name']}:{slot.astimezone(timezone.utc).isoformat()}"
  abbrev pub slot_key : Schedule → ℕ → String
  slot_key row slot = text_append (text_append (text_append "sched:" row.name) ":") (isoformat slot)

  -- The jobs after a row's slot, and how many were fired.
  unfoldable pub fire_slot : ℕ → Schedule → ℕ → JobTable → JobTable × ℕ
  unfolding enqueue
  fire_slot now row slot jobs =
      if too_late row.max_lateness_seconds (now - slot)
      then (jobs, 0)
      else ((enqueue now row.task row.args (some (slot_key row slot)) jobs).0, 1)

module _ (on : String → ℕ → ℕ → ℕ) (local_date : String → ℕ → ℕ) (isoformat : ℕ → String) where
  -- The body of `for row in due`.
  unfoldable pub fire : ℕ → Schedule → Tables → Option (Tables × ℕ)
  unfolding slot_to_run slot_after fire_slot update_where
  fire now row s = elim (slot_to_run on local_date now row) [
    | none ↦ none
    | some slot ↦ elim (slot_after on local_date row slot) [
      | none ↦ none
      | some next ↦
          let (jobs', fired) = fire_slot isoformat now row slot s.jobs in
          some (
            record {
              schedules = update_where (named row.name) (set_next next) s.schedules;
              jobs = jobs';
            },
            fired,
          )
    ]
  ]

  unfoldable pub fire_all : ℕ → List Schedule → Tables → Option (Tables × ℕ)
  unfolding fire
  fire_all now [] s = some (s, 0)
  fire_all now (row ∷ rows) s = elim (fire now row s) [
    | none ↦ none
    | some (s', fired) ↦ elim (fire_all now rows s') [
      | none ↦ none
      | some (s'', more) ↦ some (s'', fired + more)
    ]
  ]

  -- `none`: the transaction raised, so that neither table changed.
  unfoldable pub run_due_schedules : ℕ → (String → Bool) → Tables → Option (Tables × ℕ)
  unfolding fire_all select_where
  run_due_schedules now locked s = fire_all now (select_where (is_due now locked) s.schedules) s

-- Microseconds, signed.
unfoldable pub seconds_until_next_schedule : ℕ → Tables → Option ℤ
unfolding minimum
seconds_until_next_schedule now s = elim (minimum (map (λ r. some r.next_run_at) s.schedules)) [
  | none ↦ none
  | some at ↦ some (sub_ℕ at now)
]
