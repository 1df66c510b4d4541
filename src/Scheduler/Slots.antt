-- ===== src/Scheduler/Slots.antt =====
-- The slot of a due schedule and the time of its next run.
use native.Mathlib.Nat.{div-mul-le_self, lt-div-mul-add}
use durable_queue.Prelude.{
  ℕ, zero, suc, ◌+◌, ◌-◌, ◌*◌, ◌/◌, ◌≤◌, ◌<◌, ◌≡◌, refl, sym, ap, subst, ◌⊎◌, inl, inr, String,
  true, Option, none, some, arith, Bool-cases, leb,
}
use durable_queue.Jobs.{seconds}
use durable_queue.Scheduler.{Every, hour, day, Schedule, IsTimed, Timing, one_hour, one_day}
use durable_queue.Scheduler.Clock.{
  IsForward, hour_at_or_before, at_day, clock_at_or_before, clock_after, IsZone,
}
use durable_queue.Scheduler.Loops.{early_enough, late_enough, last_day_found, first_day_found}
use durable_queue.Scheduler.Due.{interval_slot, slot_to_run, slot_after}

hour_at_or_before_bounds :
    (at i : ℕ)
    → one_hour ≤ i
    → (hour_at_or_before at i ≤ i) × (i < hour_at_or_before at i + one_hour)
unfolding hour_at_or_before
hour_at_or_before_bounds at i h = ground arith

pub interval_found :
    (period next now : ℕ)
    → 0 < period
    → interval_slot period next now ≡ some (next + (now - next) / period * period)
unfolding interval_slot
interval_found period next now h = ground arith

interval_come : (period next now : ℕ) → next ≤ now → next + (now - next) / period * period ≤ now
interval_come period next now h = omega (arith, div-mul-le_self (now - next) period)

interval_next :
    (period next now : ℕ) → 0 < period → now < next + (now - next) / period * period + period
interval_next period next now h = omega (arith, lt-div-mul-add {a = now - next} h)

hour_beyond :
    (at i : ℕ) → one_hour ≤ i → i < hour_at_or_before at (hour_at_or_before at i) + one_hour
unfolding hour_at_or_before
hour_beyond at i h = ground arith

module _ (on : String → ℕ → ℕ → ℕ) (local_date : String → ℕ → ℕ) where
  -- Of a schedule at an instant: the slot, and the next run, which lie around it.
  abbrev pub Slotted : Schedule → ℕ → Type 0
  Slotted row now =
      (slot : ℕ) × (next : ℕ) × (slot_to_run on local_date now row ≡ some slot)
      × (slot_after on local_date row slot ≡ some next)
      × (slot ≤ now)
      × (now < next)

module _ (on : String → ℕ → ℕ → ℕ) (local_date : String → ℕ → ℕ) (z : IsZone on local_date)
    (f : IsForward on local_date) where
  on_le : (zone : String) (at d k : ℕ) → on zone at d ≤ on zone at (d + k)
  on_le zone at d zero =
      subst (λ x. on zone at d ≤ on zone at x) (same_sum d) (le_refl (on zone at d))
    where
      le_refl : (n : ℕ) → n ≤ n
      le_refl n = omega arith

      same_sum : (n : ℕ) → n ≡ n + 0
      same_sum n = omega arith
  on_le zone at d (suc k) =
      subst (λ x. on zone at d ≤ on zone at x) (next_sum d k)
        (le_trans (on zone at d) (on zone at (d + k)) (on zone at (d + k + 1)) (on_le zone at d k)
          (f.ordered zone at (d + k)))
    where
      le_trans : (a b c : ℕ) → a ≤ b → b ≤ c → a ≤ c
      le_trans a b c p q = omega (arith, p, q)

      next_sum : (a b : ℕ) → a + b + 1 ≡ a + suc b
      next_sum a b = omega arith

  -- The first day after a slot is after the day of the slot.
  beyond :
      (zone : String) (at d e : ℕ) → on zone at d < on zone at e → on zone at (d + 1) ≤ on zone at e
  beyond zone at d e h = elim (Bool-cases (leb e d)) [
    | inl back ↦ absurd (
        omega
          (arith, h, subst (λ x. on zone at e ≤ on zone at x) (sum back) (on_le zone at e (d - e))))
    | inr forth ↦
        subst (λ x. on zone at (d + 1) ≤ on zone at x) (ground arith)
          (on_le zone at (d + 1) (e - (d + 1)))
  ]
    where
      sum : leb e d ≡ true → e + (d - e) ≡ d
      sum back = ground arith

  -- The run after a day's, where no later day's time has come by `now`.
  next_day :
      (zone : String) (at now d e : ℕ)
      → (d ≡ local_date zone now) ⊎ (now < on zone at (d + 1))
      → on zone at d < on zone at e
      → now < on zone at e
  next_day zone at now d e next h = omega (arith, beyond zone at d e h, ahead next)
    where
      ahead : (d ≡ local_date zone now) ⊎ (now < on zone at (d + 1)) → now < on zone at (d + 1)
      ahead (inl eq) = subst (λ x. now < on zone at (x + 1)) (sym eq) (f.forward zone at now)
      ahead (inr more) = more

  clock_slot :
      (every : Every) (at : ℕ) (zone : String) (now : ℕ)
      → at < one_day
      → 5 * one_day ≤ now
      → (slot : ℕ) × (next : ℕ) × (clock_at_or_before on local_date
            (record { every = every; at = at; time_zone = zone })
            now
          ≡ some slot)
        × (clock_after on local_date (record { every = every; at = at; time_zone = zone }) slot
            ≡ some next)
        × (slot ≤ now)
        × (now < next)
  unfolding clock_at_or_before clock_after
  clock_slot hour at zone now h k = (
    hour_at_or_before at now,
    hour_at_or_before at (hour_at_or_before at now) + one_hour,
    refl,
    refl,
    (hour_at_or_before_bounds at now (omega arith)).0,
    hour_beyond at now (omega arith),
  )
  clock_slot day at zone now h k =
      let (d, found, come, next) =
        last_day_found (on zone at) now 4 3 (local_date zone now) (omega arith)
          (early_enough on local_date z zone at now h k) in
      let (e, found', later) =
        first_day_found (on zone at) (on zone at d) 4 3 (local_date zone (on zone at d))
          (omega arith) (late_enough on local_date z zone at (on zone at d)) in
      (
        on zone at d,
        on zone at e,
        ap (at_day (on zone at)) found,
        ap (at_day (on zone at)) found',
        come,
        next_day zone at now d e next later,
      )

  by_columns :
      (row : Schedule) (now : ℕ) (interval : Option ℕ) (every : Option Every) (at : Option ℕ)
      (tz : Option String)
      → Timing interval every at tz
      → row.next_run_at ≤ now
      → 5 * one_day ≤ now
      → Slotted on local_date
          (record row { interval_seconds = interval; every = every; at_time = at; time_zone = tz })
          now
  unfolding slot_to_run slot_after interval_slot
  by_columns row now (some n) none at tz t due k = (
    row.next_run_at + (now - row.next_run_at) / seconds n * seconds n,
    row.next_run_at + (now - row.next_run_at) / seconds n * seconds n + seconds n,
    interval_found (seconds n) row.next_run_at now (omega arith),
    refl,
    interval_come (seconds n) row.next_run_at now due,
    interval_next (seconds n) row.next_run_at now (omega arith),
  )
  by_columns row now none (some e) (some at) (some tz) t due k = clock_slot e at tz now t k
  by_columns row now none none at tz t due k = absurd t
  by_columns row now (some n) (some e) at tz t due k = absurd t
  by_columns row now none (some e) none tz t due k = absurd t
  by_columns row now none (some e) (some at) none t due k = absurd t

  -- From five days after the epoch, for zones whose clocks stay within a day of UTC and do not go
  -- back over midnight, a due timed schedule, on an interval or a clock, has a slot at or before
  -- now and a next run after now; the loops over days end within their fuel.
  pub slot_to_run_lem :
      (row : Schedule) (now : ℕ)
      → IsTimed row
      → row.next_run_at ≤ now
      → 5 * one_day ≤ now
      → Slotted on local_date row now
  slot_to_run_lem row now t due k =
      by_columns row now row.interval_seconds row.every row.at_time row.time_zone t due k
