-- ===== src/Scheduler/Loop/Ends.antt =====
-- What run_scheduler holds and leaves behind, round after round.
use durable_queue.Prelude.{
  ℕ, suc, ◌^◌, ◌∙◌, ◌++◌, ◌≤◌, ◌≡◌, refl, min, String, Bool, true, false, List, [], ◌∷◌, Option,
  none, some, inl, length, if◌then◌else◌,
}
use durable_queue.Database.{Reach, unopened, get, close}
use durable_queue.Database.Reopened.{IsTidy, get-IsTidy, close-IsTidy, close_opened, one_open}
use durable_queue.Jobs.{seconds}
use durable_queue.Worker.Sleep.{retry_delay, retry_delay_lem, timeout, is_long}
use durable_queue.Scheduler.{Tables}
use durable_queue.Scheduler.Due.{seconds_until_next_schedule}
use durable_queue.Scheduler.Keeps.{Follows, Follows-refl, run_due_schedules-Follows}
use durable_queue.Scheduler.Loop.{
  Round, Looping, Turned, Turn, sleeps, raises, lose, rest_until, close_if_long, pass_over, round,
  Ended, returned, raised, going, begun, run_rounds, run_connected, run_scheduler,
}
use durable_queue.Scheduler.Loop.Cases.{round-Kept}

-- Between rounds at most one connection is open, and the delay is one of those that retry_delay grows through.
abbrev IsSteady : Looping → Type 0
IsSteady s = IsTidy s.conn × ((n : ℕ) × (s.retry_delay ≡ retry_delay n))

get_tidy :
    (reach : Reach) (s : Looping) → IsSteady s → IsSteady (record s { conn = (get reach s.conn).0 })
get_tidy reach s h = (get-IsTidy reach s.conn h.0, h.1)

lose-IsSteady : (left : Tables) (s : Looping) → IsSteady s → IsSteady (lose left s).loop
unfolding lose retry_delay
lose-IsSteady left s (tidy, (n, e)) = (close-IsTidy s.conn tidy, (suc n, rw e))

rest_until-IsSteady :
    (later : ℕ) (left : Tables) (s : Looping)
    → IsSteady s
    → IsSteady (rest_until (seconds_until_next_schedule later left) left s).loop
unfolding rest_until close_if_long
rest_until-IsSteady later left s h = (
  closed (is_long (timeout (seconds_until_next_schedule later left))),
  (0, unfold retry_delay in refl),
)
  where
    closed : (b : Bool) → IsTidy (if b then close s.conn else s.conn)
    closed true = close-IsTidy s.conn h.0
    closed false = h.0

module _ (on : String → ℕ → ℕ → ℕ) (local_date : String → ℕ → ℕ) (isoformat : ℕ → String)
    (idle : Bool) (poll_interval : ℕ) where
  round-IsSteady :
      (r : Round) (s : Looping)
      → IsSteady s
      → IsSteady (round on local_date isoformat idle poll_interval r s).loop
  round-IsSteady r s h =
      round-Kept idle poll_interval r IsSteady (λ x. x ≡ x) (λ x. IsSteady x.loop)
        record {
          kept_get = get_tidy;
          kept_wake = λ fired x i. i;
          when_lost = λ left x l i. lose-IsSteady left x i;
          when_raised = λ left x l i. i;
          when_polling = λ e left x l i. (i.0, (0, unfold retry_delay in refl));
          when_idle = λ e left x l i. rest_until-IsSteady r.later left x i;
        }
        on local_date isoformat refl (λ left fired e. refl) s h

  -- What is left of a run that has come to its end.
  abbrev Over : Looping × Ended → Type 0
  Over x = IsSteady x.0 × (x.1 ≡ returned → x.0.conn.opened ≡ [])

  run_rounds-Over :
      (rs : List Round) (s : Looping)
      → IsSteady s
      → Over (run_rounds on local_date isoformat idle poll_interval rs s)
  unfolding run_rounds
  run_rounds-Over [] s h = (h, (λ e. cc))
  run_rounds-Over (r ∷ rs) s h =
      by_stop r.stopped t.turn (run_rounds-Over rs t.loop (round-IsSteady r s h))
    where
      t : Turned
      t = round on local_date isoformat idle poll_interval r s

      by_stop :
          (b : Bool) (turn : Turn)
          → Over (run_rounds on local_date isoformat idle poll_interval rs t.loop)
          → Over (
              if b then (record s { conn = close s.conn }, returned) else elim turn [
                | sleeps _ ↦ run_rounds on local_date isoformat idle poll_interval rs t.loop
                | raises ↦ (t.loop, raised)
              ])
      by_stop true turn rest = ((close-IsTidy s.conn h.0, h.1), λ e. close_opened s.conn h.0)
      by_stop false (sleeps x) rest = rest
      by_stop false raises rest = (round-IsSteady r s h, (λ e. cc))

  run_connected-Over :
      (rs : List Round) (s : Looping) (got : Option ℕ)
      → IsSteady s
      → Over (run_connected on local_date isoformat idle poll_interval rs s got)
  unfolding run_connected
  run_connected-Over rs s none h = (h, (λ e. cc))
  run_connected-Over rs s (some i) h = run_rounds-Over rs s h

  -- What run_rounds comes to after a round, for what the rest of them comes to.
  abbrev next : Looping → Looping → Bool → Turn → Looping × Ended → Looping × Ended
  next s s' b turn rest =
      if b
      then (record s { conn = close s.conn }, returned)
      else elim turn [ sleeps _ ↦ rest | raises ↦ (s', raised) ]

  -- A run that has come to its next round goes on from there.
  run_rounds-stops :
      (before : List Round) (last : Round) (rest : List Round) (s : Looping)
      → last.stopped ≡ true
      → (run_rounds on local_date isoformat idle poll_interval before s).1 ≡ going
      → (run_rounds on local_date isoformat idle poll_interval (before ++ last ∷ rest) s).1
        ≡ returned
  unfolding run_rounds
  run_rounds-stops [] last rest s l e = rw l refl
  run_rounds-stops (r ∷ before) last rest s l e =
      by_stop r.stopped t.turn (run_rounds-stops before last rest t.loop l) e
    where
      t : Turned
      t = round on local_date isoformat idle poll_interval r s

      after : List Round → Looping × Ended
      after rs = run_rounds on local_date isoformat idle poll_interval rs t.loop

      by_stop :
          (b : Bool) (turn : Turn)
          → ((after before).1 ≡ going → (after (before ++ last ∷ rest)).1 ≡ returned)
          → (next s t.loop b turn (after before)).1 ≡ going
          → (next s t.loop b turn (after (before ++ last ∷ rest))).1 ≡ returned
      by_stop true turn h q = cc
      by_stop false (sleeps x) h q = h q
      by_stop false raises h q = cc

  run_connected-stops :
      (before : List Round) (last : Round) (rest : List Round) (s : Looping) (got : Option ℕ)
      → last.stopped ≡ true
      → (run_connected on local_date isoformat idle poll_interval before s got).1 ≡ going
      → (run_connected on local_date isoformat idle poll_interval (before ++ last ∷ rest) s got).1
        ≡ returned
  unfolding run_connected
  run_connected-stops before last rest s none l e = cc
  run_connected-stops before last rest s (some i) l e = run_rounds-stops before last rest s l e

  -- Whatever the rounds meet, at most one connection is open at any time, and the delay before a
  -- retry is some 2 ** n seconds, or half a minute where that is less; a scheduler that has come to
  -- its next round when stop is set returns, with no connection open.
  pub run_scheduler_lem :
      (reach : Reach) (generation : ℕ) (before : List Round) (last : Round) (rest : List Round)
      → let x = run_scheduler on local_date isoformat idle poll_interval reach generation before in
        let y =
          run_scheduler on local_date isoformat idle poll_interval reach generation
            (before ++ last ∷ rest) in
        (length x.0.conn.opened ≤ 1)
        × ((n : ℕ) × (x.0.retry_delay ≡ min (seconds (2 ^ n)) (seconds 30)))
        × (last.stopped ≡ true → x.1 ≡ going → (y.1 ≡ returned) × (y.0.conn.opened ≡ []))
  unfolding run_scheduler
  run_scheduler_lem reach generation before last rest =
      let over = run_connected-Over before start (get reach unopened).1 begins in
      let ends = run_connected-Over (before ++ last ∷ rest) start (get reach unopened).1 begins in
      (
        one_open
            (run_connected on local_date isoformat idle poll_interval before start
              (get reach unopened).1).0.conn
            over.0.0,
        (over.0.1.0, over.0.1.1 ∙ retry_delay_lem over.0.1.0),
        λ l e.
            let stops = run_connected-stops before last rest start (get reach unopened).1 l e in
            (stops, ends.1 stops),
      )
    where
      start : Looping
      start = begun (get reach unopened).0 generation

      begins : IsSteady start
      begins = (get-IsTidy reach unopened (inl refl), (0, unfold retry_delay in refl))

  -- Whatever becomes of its connection, a round leaves each schedule as it was but for next_run_at,
  -- and the jobs that it found, ahead of new ones that are pending with no attempt; a well-formed
  -- table of jobs stays well-formed.
  pub round-Follows :
      (r : Round) (s : Looping)
      → (fired : ℕ) × Follows r.found
          (round on local_date isoformat idle poll_interval r s).left
          fired
  round-Follows r s =
      round-Kept idle poll_interval r (λ x. x ≡ x) (λ x. (n : ℕ) × Follows r.found x n)
        (λ x. (n : ℕ) × Follows r.found x.left n)
        record {
          kept_get = λ reach x i. refl;
          kept_wake = λ fired x i. refl;
          when_lost = λ left x l i. unfold lose in l;
          when_raised = λ left x l i. l;
          when_polling = λ e left x l i. l;
          when_idle = λ e left x l i. unfold rest_until in l;
        }
        on local_date isoformat (0, Follows-refl r.found)
        (λ left fired e. (
          fired,
          run_due_schedules-Follows on local_date isoformat r.now r.locked r.found (left, fired)
              (unfold pass_over in e),
        ))
        s refl
