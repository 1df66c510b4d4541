-- ===== src/Scheduler/Loop.antt =====
-- scheduler.py: run_scheduler, round by round. A round finds the tables as other processes left them.
pub mod Cases
pub mod Idle
pub mod Ends
use durable_queue.Prelude.{
  ℕ, ◌*◌, min, String, Bool, List, [], ◌∷◌, Option, none, some, ◌==◌, if◌then◌else◌,
}
use durable_queue.Prelude.Int.{ℤ}
use durable_queue.Database.{
  Reach, Reconnecting, unopened, get, close, Link, answered, broken, unheard, failed,
}
use durable_queue.Wakeup.{wake}
use durable_queue.Worker.Sleep.{timeout, is_long, reconnect_min_delay, reconnect_max_delay}
use durable_queue.Scheduler.{Tables}
use durable_queue.Scheduler.Due.{run_due_schedules, seconds_until_next_schedule}

-- The outside world in a round: the tests of `stop`, what the two calls of conn.get() meet, what becomes
-- of the two transactions, their now(), and the schedules that other transactions lock.
pub record Round : Type 0 where
  pub stopped : Bool
  pub first : Reach
  pub second : Reach
  pub pass : Link
  pub query : Link
  pub now : ℕ
  pub later : ℕ
  pub locked : String → Bool
  pub found : Tables

-- wakeup.pause(seconds, stop), or wakeup.wait(seen, timeout)
pub data Rest : Type 0 where
  pauses : ℕ → Rest
  waits : Option ℕ → Rest

-- How a round ends: the loop sleeps and goes on, or an exception other than OperationalError leaves it.
pub data Turn : Type 0 where
  sleeps : Rest → Turn
  raises : Turn

pub record Looping : Type 0 where
  pub conn : Reconnecting
  pub retry_delay : ℕ
  pub generation : ℕ

-- The loop's state after a round, the tables as it leaves them, and how it ended.
pub record Turned : Type 0 where
  pub loop : Looping
  pub left : Tables
  pub turn : Turn

-- except psycopg.OperationalError
unfoldable pub lose : Tables → Looping → Turned
unfolding close
lose left s = record {
  loop = record s {
    conn = close s.conn;
    retry_delay = min (s.retry_delay * 2) reconnect_max_delay;
  };
  left = left;
  turn = sleeps (pauses s.retry_delay);
}

-- if timeout is None or timeout > wakeup.CLOSE_CONNECTIONS_AFTER: conn.close()
unfoldable pub close_if_long : Option ℕ → Reconnecting → Reconnecting
unfolding close
close_if_long t conn = if is_long t then close conn else conn

-- The end of an idle round, from what seconds_until_next_schedule told.
unfoldable pub rest_until : Option ℤ → Tables → Looping → Turned
unfolding timeout close_if_long
rest_until seconds left s = record {
  loop = record s {
    conn = close_if_long (timeout seconds) s.conn;
    retry_delay = reconnect_min_delay;
  };
  left = left;
  turn = sleeps (waits (timeout seconds));
}

-- `seconds_until_next_schedule(conn.get())`, over a connection, if there is one
unfoldable pub look_ahead : Round → Tables → Looping → Option ℕ → Turned
unfolding lose rest_until seconds_until_next_schedule
look_ahead r left s none = lose left s
look_ahead r left s (some i) = elim r.query [
  | answered ↦ rest_until (seconds_until_next_schedule r.later left) left s
  | broken ↦ lose left s
  | unheard ↦ lose left s
  | failed ↦ record { loop = s; left = left; turn = raises }
]

-- What follows run_due_schedules where it has returned.
unfoldable pub after_pass : Bool → ℕ → Round → Tables → Looping → Turned
unfolding look_ahead get
after_pass idle poll_interval r left s =
    let (conn, got) = get r.second s.conn in
    if idle then look_ahead r left (record s { conn = conn }) got else record {
      loop = record s { retry_delay = reconnect_min_delay };
      left = left;
      turn = sleeps (pauses poll_interval);
    }

-- if fired: wakeup.wake()
abbrev pub wake_if : ℕ → Looping → Looping
wake_if fired s = record s { generation = if fired == 0 then s.generation else wake s.generation }

-- How run_scheduler has ended, if it has.
pub data Ended : Type 0 where
  returned raised going : Ended

abbrev pub begun : Reconnecting → ℕ → Looping
begun conn generation = record {
  conn = conn;
  retry_delay = reconnect_min_delay;
  generation = generation;
}

module _ (on : String → ℕ → ℕ → ℕ) (local_date : String → ℕ → ℕ) (isoformat : ℕ → String) where
  -- The tables after run_due_schedules(conn), `none` in place of a result if it raised.
  unfoldable pub pass_over : Round → Option (Tables × ℕ)
  unfolding run_due_schedules
  pass_over r = run_due_schedules on local_date isoformat r.now r.locked r.found

  unfoldable pub run_pass : Bool → ℕ → Round → Looping → Option ℕ → Turned
  unfolding lose pass_over after_pass
  run_pass idle poll_interval r s none = lose r.found s
  run_pass idle poll_interval r s (some i) = elim r.pass [
    | broken ↦ lose r.found s
    | failed ↦ record { loop = s; left = r.found; turn = raises }
    | answered ↦ elim (pass_over r) [
      | none ↦ record { loop = s; left = r.found; turn = raises }
      | some (left, fired) ↦ after_pass idle poll_interval r left (wake_if fired s)
    ]
    | unheard ↦ elim (pass_over r) [
      | none ↦ record { loop = s; left = r.found; turn = raises }
      | some (left, fired) ↦ lose left s
    ]
  ]

  -- The body of the loop.
  unfoldable pub round : Bool → ℕ → Round → Looping → Turned
  unfolding get run_pass
  round idle poll_interval r s =
      let (conn, got) = get r.first s.conn in
      run_pass idle poll_interval r (record s { conn = conn }) got

  unfoldable pub run_rounds : Bool → ℕ → List Round → Looping → Looping × Ended
  unfolding round close
  run_rounds idle poll_interval [] s = (s, going)
  run_rounds idle poll_interval (r ∷ rs) s =
      let t = round idle poll_interval r s in
      let rest = run_rounds idle poll_interval rs t.loop in
      if r.stopped
      then (record s { conn = close s.conn }, returned)
      else elim t.turn [ sleeps _ ↦ rest | raises ↦ (t.loop, raised) ]

  -- `conn.get()` at startup, over a connection, if it made one.
  unfoldable pub run_connected : Bool → ℕ → List Round → Looping → Option ℕ → Looping × Ended
  unfolding run_rounds
  run_connected idle poll_interval rs s none = (s, raised)
  run_connected idle poll_interval rs s (some i) = run_rounds idle poll_interval rs s

  unfoldable pub run_scheduler : Bool → ℕ → Reach → ℕ → List Round → Looping × Ended
  unfolding get run_connected
  run_scheduler idle poll_interval reach generation rs =
      let (conn, got) = get reach unopened in
      run_connected idle poll_interval rs (begun conn generation) got
