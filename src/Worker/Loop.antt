-- ===== src/Worker/Loop.antt =====
-- worker.py: run_worker, one pass of its loop after another, with the slots' threads at work meanwhile. A
-- pass finds the table as other processes left it, and so does each of its statements.
pub mod Pass
pub mod Made
pub mod Slots
pub mod Kept
pub mod Cases
pub mod Steady
pub mod Writes
pub mod History
pub mod Ends
pub mod Stops
pub mod Idle
pub mod Shutdown
use durable_queue.Prelude.{
  ℕ, ◌+◌, ◌*◌, ◌/◌, max, min, String, Bool, true, false, ◌&&◌, not, List, [], ◌∷◌, ◌++◌, Option,
  none, some, leb, ◌==◌, if◌then◌else◌,
}
use durable_queue.Jobs.{JobTable, seconds}
use durable_queue.Database.{Reach, Reconnecting, get, close, Link, Result}
use durable_queue.Wakeup.{wake}
use durable_queue.Worker.Pool.{Settings, max_outstanding, Pool, take_job, finish_job}
use durable_queue.Worker.Sleep.{reconnect_max_delay}

-- The other arguments of run_worker.
pub record Options : Type 0 where
  pub settings : Settings
  pub idle : Bool
  pub use_notify : Bool
  pub durable_bookkeeping : Bool
  pub poll_interval : ℕ
  pub reap_interval : Option ℕ

-- if idle: use_notify = False
abbrev pub notifies : Options → Bool
notifies o = not o.idle && o.use_notify

-- if reap_interval is None: reap_interval = max(1.0, lease_seconds / 4)
abbrev pub reap_every : Options → ℕ
reap_every o = elim o.reap_interval [ none ↦ max (seconds 1) (o.settings.lease / 4) | some n ↦ n ]

-- What a new claim connection is sent, in autocommit mode.
pub data Setup : Type 0 where
  synchronous_commit_off listen : Setup

unfoldable pub set_up_claim_conn : Options → List Setup
set_up_claim_conn o =
    let listens = if notifies o then listen ∷ [] else [] in
    if not o.durable_bookkeeping then synchronous_commit_off ∷ listens else listens

-- What a transaction did to the table: the one that it found, and the one that it left.
pub record Write : Type 0 where
  pub found : JobTable
  pub left : JobTable

-- What the loop and the slots share, and the loop's own variables. `slot_pool` tells whether it is open.
-- `writes` is what the statements of the loop and of the hand-back have done to the database, in order.
pub record Working : Type 0 where
  pub claim_conn : Reconnecting
  pub slot_pool : Bool
  pub pool : Pool
  pub generation : ℕ
  pub next_reap_at : ℕ
  pub retry_delay : ℕ
  pub writes : List Write

abbrev pub wrote : JobTable → JobTable → Working → Working
wrote found left s = record s { writes = s.writes ++ record { found = found; left = left } ∷ [] }

-- What a slot does at a time: it takes a job, or ends one.
pub data SlotMove : Type 0 where
  takes : SlotMove
  ends : ℕ → SlotMove

-- if idle and finished_last and job is not None: wakeup.wake()
abbrev pub wake_if_last : (idle : Bool) → (before after generation : ℕ) → ℕ
wake_if_last idle before after generation =
    if idle && (not (before == after) && after == 0) then wake generation else generation

unfoldable pub slot_move : Options → SlotMove → Working → Working
unfolding take_job finish_job
slot_move o takes s = record s { pool = take_job o.settings s.pool }
slot_move o (ends i) s =
    let p = finish_job i s.pool in
    record s {
      pool = p;
      generation = wake_if_last o.idle s.pool.outstanding p.outstanding s.generation;
    }

unfoldable pub slot_moves : Options → List SlotMove → Working → Working
unfolding slot_move
slot_moves o [] s = s
slot_moves o (m ∷ ms) s = slot_moves o ms (slot_move o m s)

-- While the loop waits for room: what the slots do, and whether it is to stop, at each time it looks.
pub record Look : Type 0 where
  pub meanwhile : List SlotMove
  pub stopping : Bool

-- How the wait for room ends: with room, told to stop, or not as far as the looks go.
pub data Room : Type 0 where
  room stop waiting : Room

-- outstanding >= max_outstanding
abbrev pub is_full : Options → Working → Bool
is_full o s = leb (max_outstanding o.settings) s.pool.outstanding

-- `while outstanding >= max_outstanding and not stopping(): capacity.wait(timeout=0.5)`, and the test of
-- stopping() that follows it.
unfoldable pub wait_for_room : Options → List Look → Working → Working × Room
unfolding slot_moves
wait_for_room o [] s = (s, waiting)
wait_for_room o (l ∷ ls) s =
    let s' = slot_moves o l.meanwhile s in
    let rest = wait_for_room o ls s' in
    if l.stopping then (s', stop) else if is_full o s' then rest else (s', room)

-- How a pass ends: the loop sleeps and goes on, or at once; it breaks off to stop; it still waits for room;
-- or an exception other than OperationalError leaves run_worker.
pub data Turn : Type 0 where
  pauses : ℕ → Turn
  waits : (seen : ℕ) → Option ℕ → Turn
  waits_for_job : ℕ → Turn
  waits_for_slot goes_on stops full raises : Turn

-- The loop's state after a pass, the tables that its statements left in turn, and how it ended.
pub record Passed : Type 0 where
  pub worker : Working
  pub left : JobTable
  pub turn : Turn

-- except psycopg.OperationalError
unfoldable pub lose : JobTable → Working → Passed
unfolding close
lose left s = record {
  worker = record s {
    claim_conn = close s.claim_conn;
    retry_delay = min (s.retry_delay * 2) reconnect_max_delay;
  };
  left = left;
  turn = pauses s.retry_delay;
}
