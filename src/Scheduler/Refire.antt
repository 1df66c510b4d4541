-- ===== src/Scheduler/Refire.antt =====
-- A slot that is fired again: the same idempotency key, and so no second job.
use native.Mathlib.Nat.{add-mul-div_right, add-mul}
use durable_queue.Prelude.{
  ℕ, ◌+◌, ◌-◌, ◌*◌, ◌/◌, ◌≤◌, ◌<◌, ◌≡◌, refl, sym, ap, subst, ◌∙◌, String, Option, some, none,
  arith, inl, inr, true, false, Bool-cases,
}
use durable_queue.Jobs.{JobTable, seconds}
use durable_queue.Jobs.Enqueue.{enqueue}
use durable_queue.Jobs.Enqueue.Dedup.{enqueue_again}
use durable_queue.Scheduler.{Every, Schedule, IsTimed, Timing}
use durable_queue.Scheduler.Due.{
  interval_slot, slot_to_run, slot_key, fire_slot, set_next, too_late,
}
use durable_queue.Scheduler.Slots.{interval_found}

-- The slot counted from k periods earlier is the same.
slot_sum :
    (period earlier now k : ℕ)
    → 0 < period
    → earlier + k * period ≤ now
    → earlier + (now - earlier) / period * period
      ≡ earlier + k * period + (now - (earlier + k * period)) / period * period
slot_sum period earlier now k h due =
    ap (λ x. earlier + x / period * period) (apart (k * period) due)
    ∙ ap (λ x. earlier + x * period) (add-mul-div_right (now - (earlier + k * period)) k h)
    ∙ ap (λ x. earlier + x) (add-mul ((now - (earlier + k * period)) / period) k period)
    ∙ reorder ((now - (earlier + k * period)) / period * period) (k * period)
  where
    apart : (d : ℕ) → earlier + d ≤ now → now - earlier ≡ now - (earlier + d) + d
    apart d e = omega (arith, e)

    reorder : (a b : ℕ) → earlier + (a + b) ≡ earlier + b + a
    reorder a b = omega arith

interval_slot_wound_back :
    (period earlier now k : ℕ)
    → 0 < period
    → earlier + k * period ≤ now
    → interval_slot period earlier now ≡ interval_slot period (earlier + k * period) now
interval_slot_wound_back period earlier now k h due =
    interval_found period earlier now h
    ∙ ap some (slot_sum period earlier now k h due)
    ∙ sym (interval_found period (earlier + k * period) now h)

-- An interval's next run was `earlier`, some whole periods before; a clock's was any time.
abbrev pub IsEarlier : Option ℕ → ℕ → ℕ → Type 0
IsEarlier none earlier next = Unit
IsEarlier (some n) earlier next = (k : ℕ) × (next ≡ earlier + k * seconds n)

module _ (on : String → ℕ → ℕ → ℕ) (local_date : String → ℕ → ℕ) (isoformat : ℕ → String) where
  slot_by_columns :
      (row : Schedule) (now earlier : ℕ) (interval : Option ℕ) (every : Option Every)
      (at : Option ℕ) (tz : Option String)
      → Timing interval every at tz
      → IsEarlier interval earlier row.next_run_at
      → row.next_run_at ≤ now
      → slot_to_run on local_date now (record row {
        interval_seconds = interval;
        every = every;
        at_time = at;
        time_zone = tz;
        next_run_at = earlier;
      })
        ≡ slot_to_run on local_date now (record row {
          interval_seconds = interval;
          every = every;
          at_time = at;
          time_zone = tz;
        })
  unfolding slot_to_run
  slot_by_columns row now earlier (some n) none at tz t (k, e) due =
      interval_slot_wound_back (seconds n) earlier now k (omega arith) (subst (λ x. x ≤ now) e due)
      ∙ ap (λ x. interval_slot (seconds n) x now) (sym e)
  slot_by_columns row now earlier none (some e) (some at) (some tz) t w due = refl
  slot_by_columns row now earlier none none at tz t w due = absurd t
  slot_by_columns row now earlier (some n) (some e) at tz t w due = absurd t
  slot_by_columns row now earlier none (some e) none tz t w due = absurd t
  slot_by_columns row now earlier none (some e) (some at) none t w due = absurd t

  slot_wound_back :
      (row : Schedule) (now earlier : ℕ)
      → IsTimed row
      → IsEarlier row.interval_seconds earlier row.next_run_at
      → row.next_run_at ≤ now
      → slot_to_run on local_date now (set_next earlier row) ≡ slot_to_run on local_date now row
  slot_wound_back row now earlier t w due =
      slot_by_columns row now earlier row.interval_seconds row.every row.at_time row.time_zone t w
        due

  fire_slot_late :
      (row : Schedule) (now slot : ℕ) (jobs : JobTable)
      → too_late row.max_lateness_seconds (now - slot) ≡ true
      → fire_slot isoformat now row slot jobs ≡ (jobs, 0)
  unfolding fire_slot
  fire_slot_late row now slot jobs e = rw e

  fire_slot_punctual :
      (row : Schedule) (now slot : ℕ) (jobs : JobTable)
      → too_late row.max_lateness_seconds (now - slot) ≡ false
      → fire_slot isoformat now row slot jobs
        ≡ ((enqueue now row.task row.args (some (slot_key isoformat row slot)) jobs).0, 1)
  unfolding fire_slot
  fire_slot_punctual row now slot jobs e = rw e

  -- Firing a slot under a schedule's name when it has been fired leaves the jobs as they are.
  fire_slot_again :
      (row row' : Schedule) (now later slot : ℕ) (jobs : JobTable)
      → row'.name ≡ row.name
      → too_late row.max_lateness_seconds (now - slot) ≡ false
      → (fire_slot isoformat later row' slot (fire_slot isoformat now row slot jobs).0).0.rows
        ≡ (fire_slot isoformat now row slot jobs).0.rows
  fire_slot_again row row' now later slot jobs n e =
      elim (Bool-cases (too_late row'.max_lateness_seconds (later - slot))) [
        | inl late ↦
            ap (λ (r : JobTable × ℕ). r.0.rows)
              (fire_slot_late row' later slot (fire_slot isoformat now row slot jobs).0 late)
        | inr also ↦
            ap (λ (r : JobTable × ℕ). r.0.rows)
              (fire_slot_punctual row' later slot (fire_slot isoformat now row slot jobs).0 also)
            ∙ ap
                (λ (name : String).
                  (enqueue later row'.task row'.args
                    (some (slot_key isoformat (record row { name = name }) slot))
                    (fire_slot isoformat now row slot jobs).0).0.rows)
                n
            ∙ ap
                (λ (r : JobTable × ℕ).
                  (enqueue later row'.task row'.args (some (slot_key isoformat row slot))
                    r.0).0.rows)
                (fire_slot_punctual row now slot jobs e)
            ∙ (enqueue_again now row.task row.args (slot_key isoformat row slot) jobs later
                row'.task row'.args).1
            ∙ sym (ap (λ (r : JobTable × ℕ). r.0.rows) (fire_slot_punctual row now slot jobs e))
      ]

  -- Where a timed schedule is due, its slot is not too late to fire, and its next run is then wound
  -- back, an interval's by whole periods and a clock's to any time: a pass at the same time comes
  -- to that slot again, and firing it at any later time adds no job.
  pub wound_back_adds_nothing :
      (row : Schedule) (now earlier slot : ℕ) (jobs : JobTable)
      → IsTimed row
      → IsEarlier row.interval_seconds earlier row.next_run_at
      → row.next_run_at ≤ now
      → slot_to_run on local_date now row ≡ some slot
      → too_late row.max_lateness_seconds (now - slot) ≡ false
      → (slot_to_run on local_date now (set_next earlier row) ≡ some slot)
        × ((later : ℕ)
            → (fire_slot isoformat later
                (set_next earlier row)
                slot
                (fire_slot isoformat now row slot jobs).0).0.rows
              ≡ (fire_slot isoformat now row slot jobs).0.rows)
  wound_back_adds_nothing row now earlier slot jobs t w due e punctual = (
    slot_wound_back row now earlier t w due ∙ e,
    (λ later. fire_slot_again row (set_next earlier row) now later slot jobs refl punctual),
  )
