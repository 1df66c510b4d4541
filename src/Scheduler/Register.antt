-- ===== src/Scheduler/Register.antt =====
-- Registering a schedule on every start.
use durable_queue.Prelude.{
  ℕ, ◌+◌, ◌≡◌, refl, sym, ap, subst, ◌∙◌, String, List, Option, some, none, inl, inr, arith,
  Option-cases,
}
use durable_queue.Scheduler.{
  one_hour, Every, hour, day, Schedule, When, seconds_apart, clock_time, scheduled, upsert_schedule,
}
use durable_queue.Scheduler.Clock.{
  IsZone, at_day, first_run, clock_after, register_schedule, hour_at_or_before,
}
use durable_queue.Scheduler.Loops.{late_enough, first_day_found}
use durable_queue.Scheduler.Upsert.{again, upsert_again}

module _ (on : String → ℕ → ℕ → ℕ) (local_date : String → ℕ → ℕ) (z : IsZone on local_date) where
  clock_after-some :
      (every : Every) (at : ℕ) (zone : String) (i : ℕ)
      → (next : ℕ) × (clock_after on local_date
            (record { every = every; at = at; time_zone = zone })
            i
          ≡ some next)
  unfolding clock_after
  clock_after-some hour at zone i = (hour_at_or_before at i + one_hour, refl)
  clock_after-some day at zone i =
      let (e, found, later) =
        first_day_found (on zone at) i 4 3 (local_date zone i) (omega arith)
          (late_enough on local_date z zone at i) in
      (on zone at e, ap (at_day (on zone at)) found)

  first_run-some :
      (now later : ℕ) (when : When) (first : Option ℕ) (next : ℕ)
      → first_run on local_date now when first ≡ some next
      → (next' : ℕ) × (first_run on local_date later when first ≡ some next')
  unfolding first_run
  first_run-some now later (seconds_apart n) none next e = (later, refl)
  first_run-some now later (seconds_apart n) (some at) next e = (at, refl)
  first_run-some now later (clock_time c) none next e =
      clock_after-some c.every c.at c.time_zone later
  first_run-some now later (clock_time c) (some at) next e = cc

  module _ (name task args : String) (when : When) (first max_lateness : Option ℕ) where
    abbrev register : ℕ → List Schedule → Option (List Schedule)
    register now rows =
        register_schedule on local_date now name task args when first max_lateness rows

    register-some :
        (now next : ℕ) (rows : List Schedule)
        → first_run on local_date now when first ≡ some next
        → register now rows
          ≡ some (upsert_schedule (scheduled name task args when max_lateness next) rows)
    unfolding register_schedule
    register-some now next rows e = rw (e, register_schedule)

    register-none :
        (now : ℕ) (rows : List Schedule)
        → first_run on local_date now when first ≡ none
        → register now rows ≡ none
    unfolding register_schedule
    register-none now rows e = rw (e, register_schedule)

    again-scheduled :
        (next next' : ℕ)
        → again (scheduled name task args when max_lateness next) next'
          ≡ scheduled name task args when max_lateness next'
    again-scheduled next next' =
        elim when
          as (λ w.
            again (scheduled name task args w max_lateness next) next'
            ≡ scheduled name task args w max_lateness next') [
              | seconds_apart n ↦ refl
              | clock_time c ↦ refl
            ]

    -- For zones whose clocks stay within a day of UTC, registering a schedule again with the same
    -- arguments, at any time, succeeds if it did the first time and changes no row, in particular
    -- not the next run.
    pub register_schedule_again :
        (now later : ℕ) (rows rows' : List Schedule)
        → register now rows ≡ some rows'
        → register later rows' ≡ some rows'
    register_schedule_again now later rows rows' e =
        elim (Option-cases (first_run on local_date now when first)) [
          | inl n ↦ absurd (none_some rows' (sym (register-none now rows n) ∙ e))
          | inr (next, n) ↦
              let (next', n') = first_run-some now later when first next n in
              let eq = some_inj _ _ (sym e ∙ register-some now next rows n) in
              register-some later next' rows' n'
              ∙ ap some (
                  ap (λ (row : Schedule). upsert_schedule row rows')
                    (sym (again-scheduled next next'))
                  ∙ subst
                      (λ (there : List Schedule).
                        upsert_schedule
                          (again (scheduled name task args when max_lateness next) next') there
                        ≡ there)
                      (sym eq)
                      (upsert_again (scheduled name task args when max_lateness next) next' rows))
        ]
      where
        none_some : (x : List Schedule) → none ≡ some x → ⊥
        none_some x e' = cc

        some_inj : (x y : List Schedule) → some x ≡ some y → x ≡ y
        some_inj x y e' = cc
