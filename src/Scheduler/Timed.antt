-- ===== src/Scheduler/Timed.antt =====
-- scheduler.py: what daily() and hourly() give, and that register_schedule keeps the constraints of `schedules`.
use durable_queue.Prelude.{
  ℕ, ◌<◌, ◌≡◌, refl, subst, ap, Bool, true, false, String, List, [], ◌∷◌, ◌++◌, Option, none, some,
  inl, inr, arith, Bool-cases, All, All-append, ltb, some_of, if◌then◌else◌,
}
use durable_queue.Sql.{select_where, update_where, fetch_one}
use durable_queue.Sql.Laws.{All-update_where}
use durable_queue.Scheduler.{
  day, ClockTime, Schedule, IsTimed, one_day, named, hourly, When, seconds_apart, clock_time,
  scheduled, set_registered, upsert_schedule,
}
use durable_queue.Scheduler.Clock.{first_run, register_schedule, daily}

-- An interval of some seconds, or a clock's time within the day.
abbrev pub IsSound : When → Type 0
IsSound (seconds_apart n) = 0 < n
IsSound (clock_time c) = c.at < one_day

scheduled-IsTimed :
    (name task args : String) (when : When) (max_lateness : Option ℕ) (next : ℕ)
    → IsSound when
    → IsTimed (scheduled name task args when max_lateness next)
scheduled-IsTimed name task args (seconds_apart n) max_lateness next h = h
scheduled-IsTimed name task args (clock_time c) max_lateness next h = h

upsert_schedule-IsTimed :
    (row : Schedule) (rows : List Schedule)
    → IsTimed row
    → All IsTimed rows
    → All IsTimed (upsert_schedule row rows)
unfolding upsert_schedule
upsert_schedule-IsTimed row rows h hs = by_found (fetch_one (select_where (named row.name) rows))
  where
    by_found :
        (o : Option Schedule)
        → All IsTimed (elim o [
          | none ↦ rows ++ row ∷ []
          | some old ↦ update_where (named row.name) (set_registered row) rows
        ])
    by_found none = All-append IsTimed rows (row ∷ []) hs (h, tt)
    by_found (some old) =
        All-update_where (named row.name) IsTimed IsTimed (set_registered row) (λ x n t. h)
          (λ x n t. t) rows hs

hourly-IsSound : (m : ℕ) (c : ClockTime) → hourly m ≡ some c → IsSound (clock_time c)
unfolding hourly
hourly-IsSound m c e = elim (Bool-cases (ltb m 60)) [
  | inl f ↦
      subst (λ (o : ClockTime). IsSound (clock_time o)) (given (rw (f, hourly) at e))
        (ground (arith, f))
  | inr f ↦ absurd (refused (rw (f, hourly) at e))
]
  where
    given : {k : ClockTime} → some k ≡ some c → k ≡ c
    given q = cc

    refused : none ≡ some c → ⊥
    refused q = cc

module _ (known : String → Bool) (fromisoformat : String → Option ℕ) where
  -- How an application comes by the argument `when`.
  pub data Built : When → Type 0 where
    interval : (n : ℕ) → 0 < n → Built (seconds_apart n)
    by_daily :
        (at zone : String) (c : ClockTime)
        → daily known fromisoformat at zone ≡ some c
        → Built (clock_time c)
    by_hourly : (m : ℕ) (c : ClockTime) → hourly m ≡ some c → Built (clock_time c)

  -- A time of day is one.
  abbrev pub IsTime : Type 0
  IsTime = (s : String) (t : ℕ) → fromisoformat s ≡ some t → t < one_day

  daily-IsSound :
      IsTime
      → (at zone : String) (c : ClockTime) → daily known fromisoformat at zone ≡ some c
      → IsSound (clock_time c)
  unfolding daily
  daily-IsSound h at zone c e = by_known (known zone) (fromisoformat at) (h at) e
    where
      by_known :
          (b : Bool) (time : Option ℕ)
          → ((t : ℕ) → time ≡ some t → t < one_day)
          → (if b
              then elim time [
                | none ↦ none
                | some t ↦ some (record { every = day; at = t; time_zone = zone })
              ]
              else none)
            ≡ some c
          → c.at < one_day
      by_known true none k q = cc
      by_known true (some t) k q = subst (λ n. n < one_day) (ap at_of (given q)) (k t refl)
        where
          at_of : ClockTime → ℕ
          at_of x = x.at

          given : {x : ClockTime} → some x ≡ some c → x ≡ c
          given r = cc
      by_known false time k q = cc

  Built-IsSound : IsTime → (when : When) → Built when → IsSound when
  Built-IsSound h (seconds_apart n) (interval m p) = p
  Built-IsSound h (clock_time c) (by_daily at zone d e) = daily-IsSound h at zone c e
  Built-IsSound h (clock_time c) (by_hourly m d e) = hourly-IsSound m c e

  -- Where fromisoformat gives times of day, registering a schedule whose `when` is a positive
  -- interval or comes from daily() or hourly() keeps the table's constraint: each row has either a
  -- positive interval or a clock's unit, time of day and zone.
  pub register_schedule-IsTimed :
      (on : String → ℕ → ℕ → ℕ) (local_date : String → ℕ → ℕ) (now : ℕ) (name task args : String)
      (when : When) (first_run_at max_lateness : Option ℕ) (rows rows' : List Schedule)
      → IsTime
      → Built when
      → All IsTimed rows
      → register_schedule on local_date now name task args when first_run_at max_lateness rows
        ≡ some rows'
      → All IsTimed rows'
  unfolding register_schedule
  register_schedule-IsTimed on local_date now name task args when first_run_at max_lateness rows
        rows' h b t e =
      let (next, _, e') = some_of (first_run on local_date now when first_run_at) _ rows' e in
      subst (All IsTimed) (given e') (
        upsert_schedule-IsTimed (scheduled name task args when max_lateness next) rows
          (scheduled-IsTimed name task args when max_lateness next (Built-IsSound h when b)) t)
    where
      given : {xs : List Schedule} → some xs ≡ some rows' → xs ≡ rows'
      given r = cc
