-- ===== src/Worker/Loop/Writes.antt =====
-- Everything that run_worker does to the table.
use durable_queue.Prelude.{
  ℕ, refl, subst, sym, Bool, true, false, List, [], ◌∷◌, Option, none, some, All, All-append, ◌==◌,
  if◌then◌else◌,
}
use durable_queue.Prelude.Int.{ℤ}
use durable_queue.Jobs.{JobTable}
use durable_queue.Jobs.Inspect.{seconds_until_due}
use durable_queue.Worker.Sleep.{is_overdue, lets_go}
use durable_queue.Jobs.Rows.{ids}
use durable_queue.Database.{Reach, unopened, get, Result, did, lost, raised}
use durable_queue.Worker.Loop.{
  Options, Write, Working, wrote, SlotMove, slot_moves, Turn, pauses, waits, waits_for_job,
  waits_for_slot, goes_on, stops, full, raises, Passed, lose,
}
use durable_queue.Worker.Loop.Pass.{Outside, let_go, rest_until, pass}
use durable_queue.Worker.Loop.Made.{Made, return, transact-Made}
use durable_queue.Worker.Loop.Cases.{pass-Kept}
use durable_queue.Worker.Loop.Slots.{slot_moves-writes}
use durable_queue.Worker.Loop.Shutdown.{
  Closing, Finished, close_all, after_hand_back, hand_back_over, tried, handed_back, shut_down,
  Step, follow, run_passes, started, run_connected, run_worker,
}
use durable_queue.Worker.Pool.{hand_back}

-- Each of its transactions left the table as it found it, or as one of its statements makes it.
abbrev pub AllMade : Options → List Write → Type 0
AllMade o ws = All (λ w. Made o.settings w.found w.left) ws

module _ (o : Options) where
  slot_moves-AllMade :
      (ms : List SlotMove) (s : Working) → AllMade o s.writes → AllMade o (slot_moves o ms s).writes
  slot_moves-AllMade ms s h = subst (AllMade o) (sym (slot_moves-writes o ms s)) h

  wrote-AllMade :
      (t t' : JobTable) (s : Working)
      → Made o.settings t t'
      → AllMade o s.writes
      → AllMade o (wrote t t' s).writes
  wrote-AllMade t t' s m h = All-append _ s.writes _ h (m, tt)

  let_go-AllMade :
      (long : Bool) (s : Working) → AllMade o s.writes → AllMade o (let_go long s).writes
  unfolding let_go
  let_go-AllMade true s h = h
  let_go-AllMade false s h = h

  rest_until-AllMade :
      (seen : ℕ) (nothing_outstanding : Bool) (left : JobTable) (seconds : Option ℤ) (s : Working)
      → AllMade o s.writes
      → AllMade o (rest_until seen nothing_outstanding left seconds s).worker.writes
  unfolding rest_until
  rest_until-AllMade seen z left seconds s h =
      let_go-AllMade (lets_go z seconds)
        (record s { next_reap_at = if is_overdue seconds then 0 else s.next_reap_at }) h

  pass-AllMade :
      (x : Outside) (s : Working) → AllMade o s.writes → AllMade o (pass o x s).worker.writes
  pass-AllMade x s h =
      pass-Kept o x (λ r. AllMade o r.writes) (λ r. AllMade o r.worker.writes) s
        record {
          kept_get = λ reach r i. i;
          kept_write = λ t t' r m i. wrote-AllMade t t' r m i;
          kept_slots = λ ms r i. slot_moves-AllMade ms r i;
          kept_reap = λ at r i. i;
          kept_delay = λ r i. i;
          when_lost = λ left r i. unfold lose in i;
          when_turned = λ left r turn e i. i;
          when_claimed = λ left r batch i e. slot_moves-AllMade x.meanwhile r i;
          when_idle = λ r e i.
              rest_until-AllMade s.generation (r.pool.outstanding == 0) x.due.found
                (seconds_until_due x.due.now x.due.found) r i;
        }
        h

module _ (o : Options) (x : Closing) where
  close_all-AllMade :
      (left : JobTable) (s : Working)
      → AllMade o s.writes
      → AllMade o (close_all o x left s).worker.writes
  unfolding close_all
  close_all-AllMade left s h = slot_moves-AllMade o x.joining s h

  after_hand_back-AllMade :
      (s : Working) (t : JobTable) (r : Result (Option ℕ))
      → AllMade o s.writes
      → AllMade o (after_hand_back o x s (t, r)).worker.writes
  unfolding after_hand_back
  after_hand_back-AllMade s t (did a) h = close_all-AllMade t s h
  after_hand_back-AllMade s t lost h = close_all-AllMade t s h
  after_hand_back-AllMade s t raised h = h

  hand_back_over-AllMade :
      (s : Working) (us : List ℕ)
      → AllMade o s.writes
      → AllMade o (hand_back_over o x s us).worker.writes
  unfolding hand_back_over
  hand_back_over-AllMade s [] h = close_all-AllMade x.hand.found s h
  hand_back_over-AllMade s (i ∷ is) h =
      after_hand_back-AllMade (handed_back o x s) (tried o x s).0 (tried o x s).1
        (wrote-AllMade o x.hand.found (tried o x s).0 s tried-Made h)
    where
      tried-Made : Made o.settings x.hand.found (tried o x s).0
      tried-Made =
          transact-Made o.settings x.hand.link (get x.hand.reach s.claim_conn).1 x.hand.found
            ((hand_back o.settings x.hand.found s.pool).0, none)
            (return (ids s.pool.ready) (unfold hand_back in refl))

  shut_down-AllMade : (s : Working) → AllMade o s.writes → AllMade o (shut_down o x s).worker.writes
  unfolding shut_down
  shut_down-AllMade s h =
      hand_back_over-AllMade (slot_moves o x.emptying s)
        (ids (slot_moves o x.emptying s).pool.ready) (slot_moves-AllMade o x.emptying s h)

  follow-AllMade :
      (t : Turn) (s : Working) (rest : Finished)
      → AllMade o s.writes
      → AllMade o rest.worker.writes
      → AllMade o (follow o x t s rest).worker.writes
  follow-AllMade stops s rest h r = shut_down-AllMade s h
  follow-AllMade raises s rest h r = h
  follow-AllMade full s rest h r = h
  follow-AllMade (pauses n) s rest h r = r
  follow-AllMade (waits a b) s rest h r = r
  follow-AllMade (waits_for_job n) s rest h r = r
  follow-AllMade waits_for_slot s rest h r = r
  follow-AllMade goes_on s rest h r = r

  run_passes-AllMade :
      (qs : List Step) (s : Working)
      → AllMade o s.writes
      → AllMade o (run_passes o x qs s).worker.writes
  unfolding run_passes
  run_passes-AllMade [] s h = h
  run_passes-AllMade (q ∷ qs) s h =
      let h' = pass-AllMade o q.outside s h in
      by_stop q.stopping (follow o x p.turn p.worker (run_passes o x qs p.worker)) (
        follow-AllMade p.turn p.worker (run_passes o x qs p.worker) h'
          (run_passes-AllMade qs p.worker h'))
    where
      p : Passed
      p = pass o q.outside s

      by_stop :
          (b : Bool) (f : Finished)
          → AllMade o f.worker.writes
          → AllMade o (if b then shut_down o x s else f).worker.writes
      by_stop true f g = shut_down-AllMade s h
      by_stop false f g = g

  run_connected-AllMade :
      (qs : List Step) (s : Working) (got : Option ℕ)
      → AllMade o s.writes
      → AllMade o (run_connected o x qs s got).worker.writes
  unfolding run_connected
  run_connected-AllMade qs s none h = h
  run_connected-AllMade qs s (some i) h = run_passes-AllMade qs s h

  pub run_worker-AllMade :
      (reach : Reach) (generation : ℕ) (qs : List Step)
      → AllMade o (run_worker o reach generation qs x).worker.writes
  unfolding run_worker
  run_worker-AllMade reach generation qs =
      run_connected-AllMade qs (started o (get reach unopened).0 generation) (get reach unopened).1
        tt
