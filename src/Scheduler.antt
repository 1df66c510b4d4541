-- ===== src/Scheduler.antt =====
-- src/durable_queue/scheduler.py and the `schedules` table of sql/schema.sql. Times are microseconds
-- since the epoch, as in Jobs; a time of day is in microseconds since midnight. What zoneinfo knows is
-- a parameter (`on`, `local_date`), and so is datetime's isoformat.
pub mod Clock
pub mod Due
pub mod Loops
pub mod Slots
pub mod Pass
pub mod Refire
pub mod Upsert
pub mod Register
pub mod Keeps
pub mod Timed
pub mod Loop
use durable_queue.Prelude.{
  ℕ, ◌*◌, ◌/◌, ◌%◌, ◌<◌, String, Bool, true, false, ◌&&◌, ◌||◌, not, List, [], ◌∷◌, ◌++◌, Option,
  none, some, str_eq, ◌==◌, ltb, if◌then◌else◌,
}
use durable_queue.Sql.{select_where, update_where, fetch_one}
use durable_queue.Jobs.{JobTable}

pub data Every : Type 0 where
  hour day : Every

-- Clock
pub record ClockTime : Type 0 where
  pub every : Every
  pub at : ℕ
  pub time_zone : String

-- A row of `schedules`.
pub record Schedule : Type 0 where
  pub name : String
  pub task : String
  pub args : String
  pub interval_seconds : Option ℕ
  pub every : Option Every
  pub at_time : Option ℕ
  pub time_zone : Option String
  pub max_lateness_seconds : Option ℕ
  pub next_run_at : ℕ

-- The CHECK constraints, the type of at_time, and an interval that is not 0, which no CHECK demands.
abbrev Timing : Option ℕ → Option Every → Option ℕ → Option String → Type 0
Timing (some n) none at tz = 0 < n
Timing none (some e) (some at) (some tz) = at < 86400000000
Timing _ _ _ _ = ⊥

abbrev pub IsTimed : Schedule → Type 0
IsTimed r = Timing r.interval_seconds r.every r.at_time r.time_zone

abbrev pub minute : ℕ
minute = 60000000

abbrev pub one_hour : ℕ
one_hour = 3600000000

abbrev pub one_day : ℕ
one_day = 86400000000

-- What a scheduler's transaction reads and writes.
pub record Tables : Type 0 where
  pub schedules : List Schedule
  pub jobs : JobTable

abbrev pub named : String → Schedule → Bool
named name r = str_eq r.name name

-- hourly; `none` is a ValueError.
unfoldable pub hourly : ℕ → Option ClockTime
hourly m =
    if ltb m 60 then some (record { every = hour; at = m * minute; time_zone = "UTC" }) else none

-- The argument `when`, an interval in seconds or a clock time.
pub data When : Type 0 where
  seconds_apart : ℕ → When
  clock_time : ClockTime → When

-- The row of the INSERT, for the next_run_at that its last value comes to.
abbrev pub scheduled : String → String → String → When → Option ℕ → ℕ → Schedule
scheduled name task args (seconds_apart n) max_lateness next = record {
  name = name;
  task = task;
  args = args;
  interval_seconds = some n;
  every = none;
  at_time = none;
  time_zone = none;
  max_lateness_seconds = max_lateness;
  next_run_at = next;
}
scheduled name task args (clock_time c) max_lateness next = record {
  name = name;
  task = task;
  args = args;
  interval_seconds = none;
  every = some c.every;
  at_time = some c.at;
  time_zone = some c.time_zone;
  max_lateness_seconds = max_lateness;
  next_run_at = next;
}

abbrev pub same_every : Option Every → Option Every → Bool
same_every none none = true
same_every (some hour) (some hour) = true
same_every (some day) (some day) = true
same_every _ _ = false

abbrev pub same_number : Option ℕ → Option ℕ → Bool
same_number none none = true
same_number (some a) (some b) = a == b
same_number _ _ = false

abbrev pub same_text : Option String → Option String → Bool
same_text none none = true
same_text (some a) (some b) = str_eq a b
same_text _ _ = false

-- (every, at_time, time_zone) IS NOT DISTINCT FROM (…): a NULL is like a NULL.
abbrev pub same_clock : Schedule → Schedule → Bool
same_clock a b =
    same_every a.every b.every
    && same_number a.at_time b.at_time
    && same_text a.time_zone b.time_zone

-- DO UPDATE SET …, from the row that is there and the one that was to be inserted.
abbrev pub set_registered : Schedule → Schedule → Schedule
set_registered excluded r = record r {
  task = excluded.task;
  args = excluded.args;
  interval_seconds = excluded.interval_seconds;
  every = excluded.every;
  at_time = excluded.at_time;
  time_zone = excluded.time_zone;
  max_lateness_seconds = excluded.max_lateness_seconds;
  next_run_at = if same_clock r excluded then r.next_run_at else excluded.next_run_at;
}

-- INSERT … ON CONFLICT (name) DO UPDATE
unfoldable pub upsert_schedule : Schedule → List Schedule → List Schedule
unfolding select_where update_where
upsert_schedule row rows = elim (fetch_one (select_where (named row.name) rows)) [
  | none ↦ rows ++ row ∷ []
  | some old ↦ update_where (named row.name) (set_registered row) rows
]
