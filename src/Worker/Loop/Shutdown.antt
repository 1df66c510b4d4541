-- ===== src/Worker/Loop/Shutdown.antt =====
-- worker.py: run_worker from its start, through its passes, to the end of its shutdown.
use durable_queue.Prelude.{ℕ, Bool, false, not, List, [], ◌∷◌, Option, none, some, if◌then◌else◌}
use durable_queue.Jobs.{JobTable}
use durable_queue.Jobs.Rows.{ids}
use durable_queue.Database.{
  Reach, Reconnecting, unopened, get, close, Result, did, lost, raised, transact,
}
use durable_queue.Worker.Pool.{empty_pool, hand_back}
use durable_queue.Worker.Sleep.{reconnect_min_delay}
use durable_queue.Worker.Loop.{
  Options, Working, wrote, SlotMove, slot_moves, Turn, stops, full, raises,
}
use durable_queue.Worker.Loop.Pass.{Statement, Outside, pass}

-- The outside world of a shutdown: the hand-back's statement, what the slots end before the buffer is empty and
-- then before they have been joined or shutdown_timeout is over, and the heartbeat's connection by then.
pub record Closing : Type 0 where
  pub hand : Statement
  pub emptying : List SlotMove
  pub joining : List SlotMove
  pub heartbeat_conn : Reconnecting

-- How run_worker has ended, if it has: it comes to its next pass, or waits for room within one.
pub data Ended : Type 0 where
  returned escaped going blocked : Ended

pub record Finished : Type 0 where
  pub worker : Working
  pub heartbeat_conn : Reconnecting
  pub left : JobTable
  pub ended : Ended

-- What follows the hand-back: slots are joined, and everything is closed.
unfoldable pub close_all : Options → Closing → JobTable → Working → Finished
unfolding slot_moves close
close_all o x left s =
    let s' = slot_moves o x.joining s in
    record {
      worker = record s' { claim_conn = close s'.claim_conn; slot_pool = false };
      heartbeat_conn = close x.heartbeat_conn;
      left = left;
      ended = returned;
    }

-- Where the hand-back's connection was lost, the leases lapse; another exception leaves run_worker.
unfoldable pub after_hand_back :
    Options → Closing → Working → JobTable × Result (Option ℕ) → Finished
unfolding close_all
after_hand_back o x s (left, did _) = close_all o x left s
after_hand_back o x s (left, lost) = close_all o x left s
after_hand_back o x s (left, raised) = record {
  worker = s;
  heartbeat_conn = x.heartbeat_conn;
  left = left;
  ended = escaped;
}

-- release_jobs(claim_conn.get(), unstarted, worker_id), and the state after it.
abbrev pub tried : Options → Closing → Working → JobTable × Result (Option ℕ)
tried o x s =
    transact x.hand.link (get x.hand.reach s.claim_conn).1 x.hand.found
      ((hand_back o.settings x.hand.found s.pool).0, none)

abbrev pub handed_back : Options → Closing → Working → Working
handed_back o x s = wrote x.hand.found (tried o x s).0 (record s {
  claim_conn = (get x.hand.reach s.claim_conn).0;
  pool = (hand_back o.settings x.hand.found s.pool).1;
})

-- `if unstarted: heartbeat.release(unstarted); release_jobs(claim_conn.get(), unstarted, worker_id)`
unfoldable pub hand_back_over : Options → Closing → Working → List ℕ → Finished
unfolding hand_back after_hand_back close_all get transact
hand_back_over o x s [] = close_all o x x.hand.found s
hand_back_over o x s (i ∷ is) = after_hand_back o x (handed_back o x s) (tried o x s)

-- What follows the loop.
unfoldable pub shut_down : Options → Closing → Working → Finished
unfolding hand_back_over slot_moves
shut_down o x s = let s' = slot_moves o x.emptying s in hand_back_over o x s' (ids s'.pool.ready)

-- The outside world of a pass, and whether stopping() holds before it.
pub record Step : Type 0 where
  pub stopping : Bool
  pub outside : Outside

abbrev pub unfinished : Ended → Closing → Working → Finished
unfinished ended x s = record {
  worker = s;
  heartbeat_conn = x.heartbeat_conn;
  left = x.hand.found;
  ended = ended;
}

-- What a pass leads to, for what the rest of the passes come to.
abbrev pub follow : Options → Closing → Turn → Working → Finished → Finished
follow o x stops s rest = shut_down o x s
follow o x raises s rest = unfinished escaped x s
follow o x full s rest = unfinished blocked x s
follow o x _ s rest = rest

unfoldable pub run_passes : Options → Closing → List Step → Working → Finished
unfolding pass shut_down
run_passes o x [] s = unfinished going x s
run_passes o x (q ∷ qs) s =
    let p = pass o q.outside s in
    let rest = run_passes o x qs p.worker in
    if q.stopping then shut_down o x s else follow o x p.turn p.worker rest

-- The state once claim_conn.get() has succeeded; next_reap_at = 0.0.
abbrev pub started : Options → Reconnecting → ℕ → Working
started o conn generation = record {
  claim_conn = conn;
  slot_pool = not o.idle;
  pool = empty_pool;
  generation = generation;
  next_reap_at = 0;
  retry_delay = reconnect_min_delay;
  writes = [];
}

unfoldable pub run_connected : Options → Closing → List Step → Working → Option ℕ → Finished
unfolding run_passes
run_connected o x qs s none = unfinished escaped x s
run_connected o x qs s (some i) = run_passes o x qs s

unfoldable pub run_worker : Options → Reach → ℕ → List Step → Closing → Finished
unfolding run_connected get
run_worker o reach generation qs x =
    let (conn, got) = get reach unopened in run_connected o x qs (started o conn generation) got
