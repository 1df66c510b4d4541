-- ===== src/Worker/Loop/Stops.antt =====
-- run_worker returns once it is told to stop.
use durable_queue.Prelude.{
  ℕ, ◌≡◌, refl, Bool, true, false, List, [], ◌∷◌, ◌++◌, Option, none, some, inl, inr, Bool-cases,
  All, Distinct,
}
use durable_queue.Jobs.{JobTable}
use durable_queue.Jobs.Rows.{ids}
use durable_queue.Database.{
  Reach, unopened, get, Link, answered, broken, unheard, failed, Result, did, lost, raised,
  transact,
}
use durable_queue.Database.Reopened.{IsTidy}
use durable_queue.Worker.Pool.{hand_back}
use durable_queue.Worker.Loop.{
  Options, Working, slot_moves, Turn, pauses, waits, waits_for_job, waits_for_slot, goes_on, stops,
  full, raises,
}
use durable_queue.Worker.Loop.Pass.{pass}
use durable_queue.Worker.Loop.Ends.{run_worker-IsOver}
use durable_queue.Worker.Loop.Shutdown.{
  Closing, returned, going, Finished, close_all, after_hand_back, hand_back_over, shut_down, Step,
  tried, handed_back, follow, run_passes, started, run_connected, run_worker,
}

-- The hand-back's transaction raises no exception but the OperationalError that is caught.
abbrev pub IsCaught : Link → Type 0
IsCaught failed = ⊥
IsCaught _ = Unit

abbrev is_raised {ℓ} : {A : Type ℓ} → Result A → Bool
is_raised raised = true
is_raised _ = false

transact-caught {ℓ κ} :
    {T : Type ℓ} {A : Type κ} (link : Link) (got : Option ℕ) (found : T) (made : T × A)
    → IsCaught link
    → is_raised (transact link got found made).1 ≡ false
unfolding transact
transact-caught link none found made c = refl
transact-caught answered (some i) found made c = refl
transact-caught broken (some i) found made c = refl
transact-caught unheard (some i) found made c = refl
transact-caught failed (some i) found made c = absurd c

module _ (o : Options) (x : Closing) where
  after_hand_back-returned :
      (s : Working) (t : JobTable) (r : Result (Option ℕ))
      → is_raised r ≡ false
      → (after_hand_back o x s (t, r)).ended ≡ returned
  unfolding after_hand_back close_all
  after_hand_back-returned s t (did a) e = refl
  after_hand_back-returned s t lost e = refl
  after_hand_back-returned s t raised e = cc

  after_hand_back-going :
      (s : Working) (t : JobTable) (r : Result (Option ℕ))
      → (after_hand_back o x s (t, r)).ended ≡ going
      → ⊥
  unfolding after_hand_back close_all
  after_hand_back-going s t (did a) e = cc
  after_hand_back-going s t lost e = cc
  after_hand_back-going s t raised e = cc

  hand_back_over-returned :
      (s : Working) (us : List ℕ)
      → IsCaught x.hand.link
      → (hand_back_over o x s us).ended ≡ returned
  unfolding hand_back_over close_all
  hand_back_over-returned s [] c = refl
  hand_back_over-returned s (i ∷ is) c =
      after_hand_back-returned (handed_back o x s) (tried o x s).0 (tried o x s).1 (
        transact-caught x.hand.link (get x.hand.reach s.claim_conn).1 x.hand.found
          ((hand_back o.settings x.hand.found s.pool).0, none) c)

  hand_back_over-going : (s : Working) (us : List ℕ) → (hand_back_over o x s us).ended ≡ going → ⊥
  unfolding hand_back_over close_all
  hand_back_over-going s [] e = cc
  hand_back_over-going s (i ∷ is) e =
      after_hand_back-going (handed_back o x s) (tried o x s).0 (tried o x s).1 e

  shut_down-returned : (s : Working) → IsCaught x.hand.link → (shut_down o x s).ended ≡ returned
  unfolding shut_down
  shut_down-returned s c =
      hand_back_over-returned (slot_moves o x.emptying s)
        (ids (slot_moves o x.emptying s).pool.ready) c

  shut_down-going : (s : Working) → (shut_down o x s).ended ≡ going → ⊥
  unfolding shut_down
  shut_down-going s e =
      hand_back_over-going (slot_moves o x.emptying s) (ids (slot_moves o x.emptying s).pool.ready)
        e

  -- A run that has come to its next pass goes on from there.
  follow-append :
      (t : Turn) (s : Working) (rest more : Finished) (P : Finished → Type 0)
      → (follow o x t s rest).ended ≡ going
      → (rest.ended ≡ going → P more)
      → P (follow o x t s more)
  follow-append stops s rest more P e h = absurd (shut_down-going s e)
  follow-append raises s rest more P e h = cc
  follow-append full s rest more P e h = cc
  follow-append (pauses n) s rest more P e h = h e
  follow-append (waits a b) s rest more P e h = h e
  follow-append (waits_for_job n) s rest more P e h = h e
  follow-append waits_for_slot s rest more P e h = h e
  follow-append goes_on s rest more P e h = h e

  run_passes-stops :
      (before : List Step) (last : Step) (rest : List Step) (s : Working)
      → IsCaught x.hand.link
      → last.stopping ≡ true
      → (run_passes o x before s).ended ≡ going
      → (run_passes o x (before ++ last ∷ rest) s).ended ≡ returned
  unfolding run_passes
  run_passes-stops [] last rest s c l e = rw l (shut_down-returned s c)
  run_passes-stops (q ∷ qs) last rest s c l e = elim (Bool-cases q.stopping) [
    | inl b ↦ absurd (shut_down-going s (rw (b, run_passes) at e))
    | inr b ↦
        rw (b, run_passes)
          (follow-append (pass o q.outside s).turn (pass o q.outside s).worker
            (run_passes o x qs (pass o q.outside s).worker)
            (run_passes o x (qs ++ last ∷ rest) (pass o q.outside s).worker)
            (λ f. f.ended ≡ returned) (rw (b, run_passes) at e)
            (run_passes-stops qs last rest (pass o q.outside s).worker c l))
  ]

  run_connected-stops :
      (before : List Step) (last : Step) (rest : List Step) (s : Working) (got : Option ℕ)
      → IsCaught x.hand.link
      → last.stopping ≡ true
      → (run_connected o x before s got).ended ≡ going
      → (run_connected o x (before ++ last ∷ rest) s got).ended ≡ returned
  unfolding run_connected
  run_connected-stops before last rest s none c l e = cc
  run_connected-stops before last rest s (some i) c l e = run_passes-stops before last rest s c l e

  -- Over tables with distinct ids, a worker that has come to its next pass when stop is set
  -- returns, unless the hand-back raises an exception of its own; its connections and its slots'
  -- pool are then closed, and no job is left in its buffer.
  pub run_worker_stops :
      IsTidy x.heartbeat_conn
      → IsCaught x.hand.link
      → (reach : Reach) (generation : ℕ) (before : List Step) (last : Step) (rest : List Step)
      → All (λ q. Distinct (ids q.outside.claim.found.rows)) (before ++ last ∷ rest)
      → last.stopping ≡ true
      → (run_worker o reach generation before x).ended ≡ going
      → let f = run_worker o reach generation (before ++ last ∷ rest) x in
        (f.ended ≡ returned)
        × (f.worker.claim_conn.opened ≡ [])
        × (f.heartbeat_conn.opened ≡ [])
        × (f.worker.slot_pool ≡ false)
        × (f.worker.pool.ready ≡ [])
  unfolding run_worker
  run_worker_stops hb c reach generation before last rest d l e =
      let over =
        run_connected-stops before last rest (started o (get reach unopened).0 generation)
          (get reach unopened).1 c l e in
      let (claim_closed, heartbeat_closed, pool_closed, emptied) =
        (run_worker-IsOver o x hb reach generation (before ++ last ∷ rest) d).released over in
      (over, claim_closed, heartbeat_closed, pool_closed, emptied)
