-- ===== src/Worker/Loop/Ends.antt =====
-- How run_worker ends.
use durable_queue.Prelude.{
  ℕ, ◌+◌, ◌^◌, min, ◌∙◌, ◌≤◌, ◌≡◌, refl, subst, sym, Bool, true, false, List, [], ◌∷◌, Option, none,
  some, inl, arith, All, Distinct, length, if◌then◌else◌,
}
use durable_queue.Jobs.{Job, JobTable, seconds}
use durable_queue.Jobs.Rows.{ids}
use durable_queue.Database.{Reach, unopened, get, Result, did, lost, raised}
use durable_queue.Database.Reopened.{IsTidy, get-IsTidy, close-IsTidy, close_opened, one_open}
use durable_queue.Worker.Sleep.{retry_delay, retry_delay_lem}
use durable_queue.Worker.Pool.{max_outstanding, hand_back}
use durable_queue.Worker.Loop.{
  Options, Working, slot_moves, Turn, pauses, waits, waits_for_job, waits_for_slot, goes_on, stops,
  full, raises,
}
use durable_queue.Worker.Loop.Pass.{pass}
use durable_queue.Worker.Loop.Steady.{IsSteady, slot_moves-IsSteady, pass-IsSteady}
use durable_queue.Worker.Loop.Slots.{slot_moves-empty, slot_moves-conn}
use durable_queue.Worker.Loop.Shutdown.{
  Closing, Ended, returned, escaped, going, blocked, Finished, close_all, after_hand_back,
  hand_back_over, tried, handed_back, shut_down, Step, unfinished, follow, run_passes, started,
  run_connected, run_worker,
}

abbrev Paced : Working → Type 0
Paced s = IsTidy s.claim_conn × ((n : ℕ) × (s.retry_delay ≡ retry_delay n))

-- It has not ended.
abbrev pub is_running : Ended → Bool
is_running going = true
is_running blocked = true
is_running _ = false

-- What holds of a run, however far it has come.
pub record IsOver (o : Options) (f : Finished) : Type 0 where
  pub paced : Paced f.worker
  pub steady : is_running f.ended ≡ true → IsSteady o f.worker
  pub released :
      f.ended ≡ returned
      → (f.worker.claim_conn.opened ≡ [])
        × (f.heartbeat_conn.opened ≡ [])
        × (f.worker.slot_pool ≡ false)
        × (f.worker.pool.ready ≡ [])

module _ (o : Options) (x : Closing) (hb : IsTidy x.heartbeat_conn) where
  close_all-IsOver :
      (left : JobTable) (s : Working)
      → Paced s
      → s.pool.ready ≡ []
      → IsOver o (close_all o x left s)
  unfolding close_all
  close_all-IsOver left s p e =
      let (same_conn, same_delay) = slot_moves-conn o x.joining s in
      let tidy : IsTidy (slot_moves o x.joining s).claim_conn = subst IsTidy (sym same_conn) p.0 in
      record {
        paced =
            (close-IsTidy (slot_moves o x.joining s).claim_conn tidy, (p.1.0, rw same_delay p.1.1));
        steady = λ e. cc;
        released = λ _. (
          close_opened (slot_moves o x.joining s).claim_conn tidy,
          close_opened x.heartbeat_conn hb,
          refl,
          slot_moves-empty o x.joining s e,
        );
      }

  after_hand_back-IsOver :
      (s : Working) (t : JobTable) (r : Result (Option ℕ))
      → Paced s
      → s.pool.ready ≡ []
      → IsOver o (after_hand_back o x s (t, r))
  unfolding after_hand_back
  after_hand_back-IsOver s t (did _) p e = close_all-IsOver t s p e
  after_hand_back-IsOver s t lost p e = close_all-IsOver t s p e
  after_hand_back-IsOver s t raised p e = record { paced = p; steady = λ q. cc; released = λ q. cc }

  hand_back_over-IsOver :
      (s : Working) (us : List ℕ)
      → us ≡ ids s.pool.ready
      → Paced s
      → IsOver o (hand_back_over o x s us)
  unfolding hand_back_over hand_back
  hand_back_over-IsOver s [] e p = close_all-IsOver x.hand.found s p (nothing s.pool.ready e)
    where
      nothing : (js : List Job) → [] ≡ ids js → js ≡ []
      nothing [] q = refl
      nothing (j ∷ js) q = cc
  hand_back_over-IsOver s (i ∷ is) e p =
      after_hand_back-IsOver (handed_back o x s) (tried o x s).0 (tried o x s).1
        (get-IsTidy x.hand.reach s.claim_conn p.0, p.1) refl

  shut_down-IsOver : (s : Working) → IsSteady o s → IsOver o (shut_down o x s)
  unfolding shut_down
  shut_down-IsOver s h =
      let h' = slot_moves-IsSteady o x.emptying s h in
      hand_back_over-IsOver (slot_moves o x.emptying s) (ids (slot_moves o x.emptying s).pool.ready)
        refl (h'.tidy, h'.paced)

  stays : (s : Working) → IsSteady o s → IsOver o (unfinished going x s)
  stays s h = record { paced = (h.tidy, h.paced); steady = λ e. h; released = λ e. cc }

  leaves : (s : Working) → IsSteady o s → IsOver o (unfinished escaped x s)
  leaves s h = record { paced = (h.tidy, h.paced); steady = λ e. cc; released = λ e. cc }

  follow-IsOver :
      (t : Turn) (s : Working) (rest : Finished)
      → IsSteady o s
      → IsOver o rest
      → IsOver o (follow o x t s rest)
  follow-IsOver stops s rest h r = shut_down-IsOver s h
  follow-IsOver raises s rest h r = leaves s h
  follow-IsOver full s rest h r = record {
    paced = (h.tidy, h.paced);
    steady = λ e. h;
    released = λ e. cc;
  }
  follow-IsOver (pauses n) s rest h r = r
  follow-IsOver (waits a b) s rest h r = r
  follow-IsOver (waits_for_job n) s rest h r = r
  follow-IsOver waits_for_slot s rest h r = r
  follow-IsOver goes_on s rest h r = r

  run_passes-IsOver :
      (qs : List Step) (s : Working)
      → All (λ q. Distinct (ids q.outside.claim.found.rows)) qs
      → IsSteady o s
      → IsOver o (run_passes o x qs s)
  unfolding run_passes
  run_passes-IsOver [] s d h = stays s h
  run_passes-IsOver (q ∷ qs) s d h =
      let h' = pass-IsSteady o q.outside s d.0 h in
      by_stop q.stopping (
        follow-IsOver (pass o q.outside s).turn (pass o q.outside s).worker
          (run_passes o x qs (pass o q.outside s).worker) h'
          (run_passes-IsOver qs (pass o q.outside s).worker d.1 h'))
    where
      by_stop :
          (b : Bool)
          → IsOver o (
              follow o x
                (pass o q.outside s).turn
                (pass o q.outside s).worker
                (run_passes o x qs (pass o q.outside s).worker))
          → IsOver o (
              if b
              then shut_down o x s
              else follow o x
                  (pass o q.outside s).turn
                  (pass o q.outside s).worker
                  (run_passes o x qs (pass o q.outside s).worker))
      by_stop true f = shut_down-IsOver s h
      by_stop false f = f

  run_connected-IsOver :
      (qs : List Step) (s : Working) (got : Option ℕ)
      → All (λ q. Distinct (ids q.outside.claim.found.rows)) qs
      → IsSteady o s
      → IsOver o (run_connected o x qs s got)
  unfolding run_connected
  run_connected-IsOver qs s none d h = leaves s h
  run_connected-IsOver qs s (some i) d h = run_passes-IsOver qs s d h

  begins :
      (reach : Reach) (generation : ℕ) → IsSteady o (started o (get reach unopened).0 generation)
  begins reach generation = record {
    bounded = record { counted = omega arith; within = omega arith; slots = omega arith };
    tidy = get-IsTidy reach unopened (inl refl);
    paced = (0, unfold retry_delay in refl);
  }

  pub run_worker-IsOver :
      (reach : Reach) (generation : ℕ) (qs : List Step)
      → All (λ q. Distinct (ids q.outside.claim.found.rows)) qs
      → IsOver o (run_worker o reach generation qs x)
  unfolding run_worker
  run_worker-IsOver reach generation qs d =
      run_connected-IsOver qs (started o (get reach unopened).0 generation) (get reach unopened).1 d
        (begins reach generation)

  -- In any order of claims, losses and slots' moves, over tables with distinct ids: as long as a
  -- worker runs, its count is that of its queued and running jobs and within max_outstanding, and
  -- no more jobs run than it has slots; at most one claim connection is open at any time, and the
  -- delay before a retry is some 2 ** n seconds, or half a minute where that is less.
  pub run_worker_lem :
      (reach : Reach) (generation : ℕ) (qs : List Step)
      → All (λ q. Distinct (ids q.outside.claim.found.rows)) qs
      → let f = run_worker o reach generation qs x in
        (length f.worker.claim_conn.opened ≤ 1)
        × ((n : ℕ) × (f.worker.retry_delay ≡ min (seconds (2 ^ n)) (seconds 30)))
        × (is_running f.ended ≡ true
            → (f.worker.pool.outstanding
                ≡ length f.worker.pool.ready + length f.worker.pool.running)
              × (f.worker.pool.outstanding ≤ max_outstanding o.settings)
              × (length f.worker.pool.running ≤ o.settings.concurrency))
  run_worker_lem reach generation qs d =
      let v = run_worker-IsOver reach generation qs d in
      (
        one_open (run_worker o reach generation qs x).worker.claim_conn v.paced.0,
        (v.paced.1.0, v.paced.1.1 ∙ retry_delay_lem v.paced.1.0),
        λ e. let b = (v.steady e).bounded in (b.counted, b.within, b.slots),
      )
