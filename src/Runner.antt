-- ===== src/Runner.antt =====
-- src/durable_queue/runner.py: a worker and a scheduler on threads of an application's process.
pub mod Restart
pub mod Options
pub mod Stop
use durable_queue.Prelude.{
  ℕ, suc, ◌+◌, max, min, String, Bool, true, false, List, [], ◌∷◌, ◌++◌, Option, none, some, str_eq,
  if◌then◌else◌,
}
use durable_queue.Jobs.{seconds}
use durable_queue.Wakeup.{wake}

-- The value of a keyword argument; an event, by its number.
pub data Value : Type 0 where
  number : ℕ → Value
  flag : Bool → Value
  text : String → Value
  missing : Value
  event : ℕ → Value

-- Keyword arguments, a dict in insertion order.
abbrev pub Kwargs : Type 0
Kwargs = List (String × Value)

unfoldable pub set_key : String → Value → Kwargs → Kwargs
set_key key value [] = (key, value) ∷ []
set_key key value ((k, v) ∷ rest) =
    let others = set_key key value rest in
    if str_eq k key then (k, value) ∷ rest else (k, v) ∷ others

-- {**options, **more}
unfoldable pub merge : Kwargs → Kwargs → Kwargs
unfolding set_key
merge options [] = options
merge options ((key, value) ∷ rest) = merge (set_key key value options) rest

unfoldable pub value_of : String → Kwargs → Option Value
value_of key [] = none
value_of key ((k, v) ∷ rest) =
    let others = value_of key rest in if str_eq k key then some v else others

pub data Loop : Type 0 where
  run_worker run_scheduler : Loop

-- A thread's arguments of _keep_running, and its name.
pub record Thread : Type 0 where
  pub name : String
  pub loop : Loop
  pub options : Kwargs

pub record Runner : Type 0 where
  pub dsn : Value
  pub worker_options : Kwargs
  pub stop : ℕ
  pub threads : List Thread

-- __init__, with a new event for `_stop`.
unfoldable pub init : ℕ → (concurrency dsn : Value) → Kwargs → Runner
unfolding merge
init stop concurrency dsn worker_options = record {
  dsn = dsn;
  worker_options = merge (("concurrency", concurrency) ∷ ("dsn", dsn) ∷ []) worker_options;
  stop = stop;
  threads = [];
}

-- {**options, "idle": True, "stop": self._stop}
unfoldable pub loop_options : ℕ → Kwargs → Kwargs
unfolding merge
loop_options stop options = merge options (("idle", flag true) ∷ ("stop", event stop) ∷ [])

-- start(), and whether it returned: get_connection raises if the database cannot be reached.
unfoldable pub start : (reachable : Bool) → Runner → Runner × Bool
unfolding loop_options
start false r = (r, false)
start true r = (
  record r {
    threads =
        r.threads
        ++ record {
          name = "durable-queue-worker";
          loop = run_worker;
          options = loop_options r.stop r.worker_options;
        }
          ∷ record {
            name = "durable-queue-scheduler";
            loop = run_scheduler;
            options = loop_options r.stop (("dsn", r.dsn) ∷ []);
          }
          ∷ [];
  },
  true,
)

-- _RESTART_DELAY
abbrev pub restart_delay : ℕ
restart_delay = seconds 5

-- How a call of a loop ends: it returns, raises an Exception, or another BaseException; or not yet.
pub data CallEnd : Type 0 where
  returns crashes dies runs_on : CallEnd

-- Whether `_stop` is set when _keep_running tests it, and how the call of the loop that it makes else ends.
pub record Call : Type 0 where
  pub stopped : Bool
  pub ending : CallEnd

pub data ThreadEnd : Type 0 where
  finished killed alive : ThreadEnd

-- What a thread has done: its calls of the loop, its waits before a restart, and how it has ended.
pub record Kept : Type 0 where
  pub calls : ℕ
  pub delays : ℕ
  pub ending : ThreadEnd

abbrev after_call : CallEnd → Kept → Kept
after_call returns k = record k { calls = suc k.calls }
after_call crashes k = record k { calls = suc k.calls; delays = suc k.delays }
after_call dies k = record { calls = 1; delays = 0; ending = killed }
after_call runs_on k = record { calls = 1; delays = 0; ending = alive }

unfoldable pub keep_running : List Call → Kept
keep_running [] = record { calls = 0; delays = 0; ending = alive }
keep_running (c ∷ cs) =
    let rest = keep_running cs in
    if c.stopped
    then record { calls = 0; delays = 0; ending = finished }
    else after_call c.ending rest

-- What stop() shares with the loops.
pub record Signals : Type 0 where
  pub stop_set : Bool
  pub generation : ℕ

-- self._stop.set(); wakeup.wake()
unfoldable pub signal : Signals → Signals
signal s = record { stop_set = true; generation = wake s.generation }

-- thread.join(timeout): the clock after it, for a thread that ends at a time.
abbrev pub join : Option ℕ → ℕ → ℕ → ℕ
join none ends clock = max clock ends
join (some timeout) ends clock = max clock (min ends (clock + timeout))

unfoldable pub join_all : Option ℕ → List ℕ → ℕ → ℕ
join_all timeout [] clock = clock
join_all timeout (ends ∷ rest) clock = join_all timeout rest (join timeout ends clock)
