-- ===== src/Scheduler/Loop/Idle.antt =====
-- While an idle scheduler sleeps, nothing comes due.
use durable_queue.Prelude.{
  ℕ, suc, ◌+◌, ◌≤◌, ◌≡◌, refl, ap, subst, inl, inr, String, Bool, true, false, List, [], ◌∷◌, map,
  Option, none, some, arith, leb, if◌then◌else◌, Bool-cases, Option-cases, All,
}
use durable_queue.Prelude.Int.{ℤ, sub_ℕ}
use durable_queue.Sql.Laws.{Above, minimum-All, select_where_none}
use durable_queue.Database.{Reconnecting, close}
use durable_queue.Worker.Sleep.{timeout, is_long, min_sleep, IsAsleep}
use durable_queue.Scheduler.{Schedule, Tables}
use durable_queue.Scheduler.Due.{is_due, fire_all, run_due_schedules, seconds_until_next_schedule}
use durable_queue.Scheduler.Loop.Cases.{round-Kept}
use durable_queue.Scheduler.Loop.{
  Round, Looping, Turned, waits, sleeps, lose, rest_until, round, close_if_long,
}

abbrev until : ℕ → Option ℕ → Option ℤ
until now none = none
until now (some at) = some (sub_ℕ at now)

asleep-Above :
    (now at : ℕ) (next : Option ℕ)
    → IsAsleep now (timeout (until now next)) at
    → now + min_sleep ≤ at
    → Above (suc at) next
unfolding timeout
asleep-Above now at none a h = tt
asleep-Above now at (some n) a h = elim (Bool-cases (leb now n)) [
  | inl e ↦ ground arith
  | inr e ↦ ground arith
]

nothing_due :
    (at : ℕ) (locked : String → Bool) (rows : List Schedule)
    → All (Above (suc at)) (map (λ r. some r.next_run_at) rows)
    → All (λ r. is_due at locked r ≡ false) rows
nothing_due at locked [] h = tt
nothing_due at locked (r ∷ rows) h = (early h.0, nothing_due at locked rows h.1)
  where
    early : suc at ≤ r.next_run_at → is_due at locked r ≡ false
    early k = ground (arith, k)

-- A round that waits has looked for how long it may, and holds no connection through a long sleep.
abbrev Waits : ℕ → Turned → Type 0
Waits later x =
    (t : Option ℕ)
    → x.turn ≡ sleeps (waits t)
    → (t ≡ timeout (seconds_until_next_schedule later x.left))
      × (is_long t ≡ true → x.loop.conn.conn ≡ none)

close-conn : (c : Reconnecting) → (close c).conn ≡ none
unfolding close
close-conn c = elim (Option-cases c.conn) [ inl e ↦ rw (e, close) e | inr (i, e) ↦ rw (e, close) ]

lose-Waits : (later : ℕ) (left : Tables) (s : Looping) → Waits later (lose left s)
unfolding lose
lose-Waits later left s t e = cc

rest_until-Waits :
    (later : ℕ) (left : Tables) (s : Looping)
    → Waits later (rest_until (seconds_until_next_schedule later left) left s)
unfolding rest_until close_if_long
rest_until-Waits later left s t e = (
  same,
  λ long.
      closed (timeout (seconds_until_next_schedule later left))
        (subst (λ (o : Option ℕ). is_long o ≡ true) same long),
)
  where
    same : t ≡ timeout (seconds_until_next_schedule later left)
    same = cc

    closed :
        (o : Option ℕ) → is_long o ≡ true → (if is_long o then close s.conn else s.conn).conn ≡ none
    closed o long = rw long (close-conn s.conn)

module _ (on : String → ℕ → ℕ → ℕ) (local_date : String → ℕ → ℕ) (isoformat : ℕ → String) where
  pub idle_pass :
      (now at : ℕ) (s : Tables) (locked : String → Bool)
      → IsAsleep now (timeout (seconds_until_next_schedule now s)) at
      → now + min_sleep ≤ at
      → run_due_schedules on local_date isoformat at locked s ≡ some (s, 0)
  unfolding run_due_schedules seconds_until_next_schedule fire_all
  idle_pass now at s locked a h =
      ap (λ (due : List Schedule). fire_all on local_date isoformat at due s)
        (select_where_none (is_due at locked) s.schedules (
          nothing_due at locked s.schedules
            (minimum-All (suc at) _ (asleep-Above now at _ (told _ a) h))))
    where
      told :
          (next : Option ℕ)
          → IsAsleep now (timeout (elim next [ none ↦ none | some x ↦ some (sub_ℕ x now) ])) at
          → IsAsleep now (timeout (until now next)) at
      told none b = b
      told (some x) b = b

  round-Waits :
      (poll : ℕ) (r : Round) (s : Looping)
      → Waits r.later (round on local_date isoformat true poll r s)
  round-Waits poll r s =
      round-Kept true poll r (λ x. x ≡ x) (λ x. x ≡ x) (Waits r.later)
        record {
          kept_get = λ reach x i. refl;
          kept_wake = λ fired x i. refl;
          when_lost = λ left x l i. lose-Waits r.later left x;
          when_raised = λ left x l i t e. cc;
          when_polling = λ e left x l i. absurd (true_false e);
          when_idle = λ e left x l i. rest_until-Waits r.later left x;
        }
        on local_date isoformat refl (λ left fired e. refl) s refl
    where
      true_false : true ≡ false → ⊥
      true_false e = cc

  -- Where an idle round of the scheduler ends in a wait: it holds no connection if the wait is
  -- longer than a minute, and from MIN_SLEEP after it looked until the wait is over a pass over the
  -- tables that it left would fire nothing and change nothing.
  pub round_idle :
      (poll_interval : ℕ) (r : Round) (s : Looping) (t : Option ℕ)
      → let x = round on local_date isoformat true poll_interval r s in
        x.turn ≡ sleeps (waits t)
        → (is_long t ≡ true → x.loop.conn.conn ≡ none)
          × ((at : ℕ) (locked : String → Bool)
              → IsAsleep r.later t at
              → r.later + min_sleep ≤ at
              → run_due_schedules on local_date isoformat at locked x.left ≡ some (x.left, 0))
  round_idle poll_interval r s t e =
      let (told, closed) = round-Waits poll_interval r s t e in
      (
        closed,
        λ at locked a h.
            idle_pass r.later at _ locked (subst (λ (o : Option ℕ). IsAsleep r.later o at) told a)
              h,
      )
