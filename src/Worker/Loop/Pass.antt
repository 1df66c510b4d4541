-- ===== src/Worker/Loop/Pass.antt =====
-- worker.py: the body of run_worker's loop.
use durable_queue.Prelude.{
  ℕ, ◌+◌, Bool, true, false, List, [], ◌∷◌, ◌++◌, length, Option, none, leb, ◌==◌, if◌then◌else◌,
}
use durable_queue.Prelude.Int.{ℤ}
use durable_queue.Jobs.{Job, JobTable, default_reap_batch}
use durable_queue.Jobs.Claim.{claim_jobs}
use durable_queue.Jobs.Reap.{bury_expired, recover_expired}
use durable_queue.Jobs.Inspect.{seconds_until_due}
use durable_queue.Database.{Reach, get, close, Link, Result, did, lost, raised, transact}
use durable_queue.Jobs.Rows.{ids}
use durable_queue.Worker.Heartbeat.{hold}
use durable_queue.Worker.Pool.{Pool, asks}
use durable_queue.Worker.Sleep.{timeout, is_overdue, lets_go, reconnect_min_delay}
use durable_queue.Worker.Loop.{
  Options, notifies, reap_every, Working, wrote, SlotMove, slot_moves, Look, Room, room, stop,
  waiting, wait_for_room, pauses, waits, waits_for_job, waits_for_slot, goes_on, stops, full,
  raises, Passed, lose,
}

-- What a statement meets: the call of claim_conn.get(), its transaction, its now() and the table.
pub record Statement : Type 0 where
  pub reach : Reach
  pub link : Link
  pub now : ℕ
  pub found : JobTable

-- The outside world in a pass: its statements are the two UPDATEs of the sweep, the claim, and the SELECT of
-- seconds_until_due. `clock` is the monotonic clock when it begins, `swept_at` after the sweep and
-- `held_at` after the claim; `looks` are those at the room, and `meanwhile` what the slots do after the claim.
pub record Outside : Type 0 where
  pub clock : ℕ
  pub swept_at : ℕ
  pub held_at : ℕ
  pub bury : Statement
  pub recover : Statement
  pub claim : Statement
  pub due : Statement
  pub listening : Reach
  pub notices : Link
  pub locked_poisoned : ℕ → Bool
  pub locked_expired : ℕ → Bool
  pub locked_due : ℕ → Bool
  pub looks : List Look
  pub meanwhile : List SlotMove

-- A statement over claim_conn.get(): the state with the connection after it, the table it leaves, the result.
unfoldable pub execute {ℓ} :
    {A : Type ℓ} → Statement → JobTable × A → Working → Working × (JobTable × Result A)
unfolding get transact
execute q made s =
    let (conn, got) = get q.reach s.claim_conn in
    let (left, a) = transact q.link got q.found made in
    (wrote q.found left (record s { claim_conn = conn }), (left, a))

-- The second UPDATE of reap_expired_jobs, over the same connection, where the first was answered.
unfoldable pub recover_after :
    Outside → Working × (JobTable × Result ℕ) → Working × (JobTable × Result ℕ)
unfolding transact recover_expired
recover_after x (s, (left, lost)) = (s, (left, lost))
recover_after x (s, (left, raised)) = (s, (left, raised))
recover_after x (s, (left, did buried)) =
    let (left, a) =
      transact x.recover.link s.claim_conn.conn x.recover.found
        (recover_expired x.recover.now x.locked_expired default_reap_batch x.recover.found) in
    (wrote x.recover.found left s, (left, a))

-- reap_expired_jobs(claim_conn.get())
unfoldable pub reap_over : Outside → Working → Working × (JobTable × Result ℕ)
unfolding recover_after execute bury_expired
reap_over x s =
    recover_after x
      (execute x.bury (bury_expired x.bury.now x.locked_poisoned default_reap_batch x.bury.found) s)

-- What claim_jobs makes of the table that it finds.
abbrev pub batch_of : Options → Outside → Working → JobTable × List Job
batch_of o x s =
    let c = o.settings in
    claim_jobs x.claim.now x.locked_due c.worker c.lease (asks c s.pool) x.claim.found

-- timeout is None or timeout > CLOSE_CONNECTIONS_AFTER, with nothing outstanding: let go of both.
unfoldable pub let_go : (long : Bool) → Working → Working
unfolding close
let_go long s = if long then record s { claim_conn = close s.claim_conn; slot_pool = false } else s

-- The rest of an idle pass, from what seconds_until_due told.
unfoldable pub rest_until :
    (seen : ℕ) (nothing_outstanding : Bool) → JobTable → Option ℤ → Working → Passed
unfolding let_go timeout is_overdue lets_go
rest_until seen nothing_outstanding left seconds s = record {
  worker =
      let_go (lets_go nothing_outstanding seconds)
        (record s { next_reap_at = if is_overdue seconds then 0 else s.next_reap_at });
  left = left;
  turn = waits seen (timeout seconds);
}

unfoldable pub after_due :
    (seen : ℕ) (nothing_outstanding : Bool) → Working × (JobTable × Result (Option ℤ)) → Passed
unfolding lose rest_until
after_due seen nothing_outstanding (s, (left, did seconds)) =
    rest_until seen nothing_outstanding left seconds s
after_due seen nothing_outstanding (s, (left, lost)) = lose left s
after_due seen nothing_outstanding (s, (left, raised)) = record {
  worker = s;
  left = left;
  turn = raises;
}

-- wait_for_job(claim_conn.get(), poll_interval)
unfoldable pub await_notice : ℕ → Working × (JobTable × Result (Option ℕ)) → Passed
unfolding lose
await_notice poll_interval (s, (left, did _)) = record {
  worker = s;
  left = left;
  turn = waits_for_job poll_interval;
}
await_notice poll_interval (s, (left, lost)) = lose left s
await_notice poll_interval (s, (left, raised)) = record { worker = s; left = left; turn = raises }

-- After a claim that found nothing.
unfoldable pub nothing_claimed : Options → Outside → (seen : ℕ) → JobTable → Working → Passed
unfolding after_due await_notice execute seconds_until_due
nothing_claimed o x seen left s =
    let nothing_outstanding = s.pool.outstanding == 0 in
    if o.idle
    then after_due seen nothing_outstanding
        (execute x.due (x.due.found, seconds_until_due x.due.now x.due.found) s)
    else if nothing_outstanding
    then (if notifies o
        then await_notice o.poll_interval (
            execute (record x.due { reach = x.listening; link = x.notices; found = left })
              (left, none) s)
        else record { worker = s; left = left; turn = pauses o.poll_interval })
    else record { worker = s; left = left; turn = waits_for_slot }

-- heartbeat.hold(...), outstanding += len(batch), and ready.put(job) for each
abbrev pub put_batch : ℕ → List Job → Pool → Pool
put_batch clock batch p = record p {
  ready = p.ready ++ batch;
  outstanding = p.outstanding + length batch;
  deadlines = hold clock (ids batch) none p.deadlines;
}

-- After a claim: the jobs are held and put, or there were none.
unfoldable pub after_claim :
    Options → Outside → (seen : ℕ) → Working × (JobTable × Result (List Job)) → Passed
unfolding nothing_claimed slot_moves hold lose
after_claim o x seen (s, (left, lost)) = lose left s
after_claim o x seen (s, (left, raised)) = record { worker = s; left = left; turn = raises }
after_claim o x seen (s, (left, did [])) =
    nothing_claimed o x seen left
      (slot_moves o x.meanwhile (record s { retry_delay = reconnect_min_delay }))
after_claim o x seen (s, (left, did (job ∷ jobs))) =
    let s' = slot_moves o x.meanwhile s in
    record {
      worker = record s' {
        slot_pool = true;
        retry_delay = reconnect_min_delay;
        pool = put_batch x.held_at (job ∷ jobs) s'.pool;
      };
      left = left;
      turn = goes_on;
    }

unfoldable pub after_room : Options → Outside → (seen : ℕ) → JobTable → Working × Room → Passed
unfolding after_claim execute claim_jobs
after_room o x seen left (s, waiting) = record { worker = s; left = left; turn = full }
after_room o x seen left (s, stop) = record { worker = s; left = left; turn = stops }
after_room o x seen left (s, room) = after_claim o x seen (execute x.claim (batch_of o x s) s)

unfoldable pub after_sweep :
    Options → Outside → (seen : ℕ) → Working × (JobTable × Result ℕ) → Passed
unfolding after_room wait_for_room lose
after_sweep o x seen (s, (left, lost)) = lose left s
after_sweep o x seen (s, (left, raised)) = record { worker = s; left = left; turn = raises }
after_sweep o x seen (s, (left, did n)) =
    after_room o x seen left
      (wait_for_room o x.looks (record s { next_reap_at = x.swept_at + reap_every o }))

-- The body of the loop, once stopping() is false.
unfoldable pub pass : Options → Outside → Working → Passed
unfolding after_sweep after_room wait_for_room reap_over
pass o x s =
    if leb s.next_reap_at x.clock
    then after_sweep o x s.generation (reap_over x s)
    else after_room o x s.generation x.bury.found (wait_for_room o x.looks s)
