-- ===== src/Worker/Loop/Cases.antt =====
-- What holds of every way that a pass can go.
use durable_queue.Jobs.{default_reap_batch}
use durable_queue.Jobs.Reap.{bury_expired, recover_expired}
use durable_queue.Prelude.{
  ℕ, ◌+◌, refl, Bool, true, false, List, [], ◌∷◌, arith, leb, if◌then◌else◌,
}
use durable_queue.Jobs.{JobTable}
use durable_queue.Database.{Result, did, lost, raised, transact}
use durable_queue.Worker.Loop.{
  Options, reap_every, Working, wrote, slot_moves, Look, Room, room, stop, waiting, is_full,
  wait_for_room, stops, full, raises, Passed,
}
use durable_queue.Worker.Loop.Pass.{
  Outside, batch_of, recover_after, reap_over, after_claim, after_room, after_sweep, pass,
}
use durable_queue.Worker.Loop.Kept.{connected, Kept, executed, answered_by, after_claim-Kept}
use durable_queue.Worker.Loop.Made.{Made, burial, recovery, claim, transact-Made}
use durable_queue.Worker.Pool.{asks}

module _ {ℓ κ} (o : Options) (x : Outside) (seen : ℕ) (I : Working → Type ℓ) (P : Passed → Type κ)
    (k : Kept o x seen I P) where
  after_room-Kept :
      (left : JobTable) (s : Working) (r : Room) → I s → P (after_room o x seen left (s, r))
  unfolding after_room
  after_room-Kept left s waiting i = k.when_turned left s full refl i
  after_room-Kept left s stop i = k.when_turned left s stops refl i
  after_room-Kept left s room i =
      executed o x seen I P k x.claim s (batch_of o x s) (after_claim o x seen) claims i
        (after_claim-Kept o x seen I P k
          (wrote x.claim.found (batch_of o x s).0 (connected s x.claim.reach)) (batch_of o x s).1
          (batch_of o x s).0 (answered_by o x seen I P k x.claim s (batch_of o x s).0 claims i)
          refl)
        (λ l r j. unfold after_claim in k.when_lost l r j)
        (λ l r j. unfold after_claim in k.when_turned l r raises refl j)
    where
      claims : Made o.settings x.claim.found (batch_of o x s).0
      claims = claim x.claim.now x.locked_due (asks o.settings s.pool) (omega arith) refl

  wait_for_room-Kept : (ls : List Look) (s : Working) → I s → I (wait_for_room o ls s).0
  unfolding wait_for_room
  wait_for_room-Kept [] s i = i
  wait_for_room-Kept (l ∷ ls) s i =
      by_look l.stopping (is_full o (slot_moves o l.meanwhile s))
        (wait_for_room-Kept ls (slot_moves o l.meanwhile s) moved)
    where
      moved : I (slot_moves o l.meanwhile s)
      moved = k.kept_slots l.meanwhile s i

      by_look :
          (stopping is_full : Bool)
          → I (wait_for_room o ls (slot_moves o l.meanwhile s)).0
          → I
              (if stopping
                then (slot_moves o l.meanwhile s, stop)
                else if is_full
                then wait_for_room o ls (slot_moves o l.meanwhile s)
                else (slot_moves o l.meanwhile s, room)).0
      by_look true f h = moved
      by_look false true h = h
      by_look false false h = moved

  waited :
      (left : JobTable) (s : Working)
      → I s
      → P (after_room o x seen left (wait_for_room o x.looks s))
  waited left s i =
      after_room-Kept left (wait_for_room o x.looks s).0 (wait_for_room o x.looks s).1
        (wait_for_room-Kept x.looks s i)

  after_sweep-Kept :
      (left : JobTable) (s : Working) (r : Result ℕ) → I s → P (after_sweep o x seen (s, (left, r)))
  unfolding after_sweep
  after_sweep-Kept left s lost i = k.when_lost left s i
  after_sweep-Kept left s raised i = k.when_turned left s raises refl i
  after_sweep-Kept left s (did n) i =
      waited left (record s { next_reap_at = x.swept_at + reap_every o })
        (k.kept_reap (x.swept_at + reap_every o) s i)

  recover_after-Kept :
      (left : JobTable) (s : Working) (r : Result ℕ)
      → I s
      → P (after_sweep o x seen (recover_after x (s, (left, r))))
  unfolding recover_after
  recover_after-Kept left s lost i = after_sweep-Kept left s lost i
  recover_after-Kept left s raised i = after_sweep-Kept left s raised i
  recover_after-Kept left s (did n) i =
      after_sweep-Kept tried.0 (wrote x.recover.found tried.0 s) tried.1 (
        k.kept_write x.recover.found tried.0 s
          (transact-Made o.settings x.recover.link s.claim_conn.conn x.recover.found recovers
            (recovery x.recover.now x.locked_expired refl))
          i)
    where
      recovers : JobTable × ℕ
      recovers = recover_expired x.recover.now x.locked_expired default_reap_batch x.recover.found

      tried : JobTable × Result ℕ
      tried = transact x.recover.link s.claim_conn.conn x.recover.found recovers

  reap_over-Kept : (s : Working) → I s → P (after_sweep o x seen (reap_over x s))
  unfolding reap_over
  reap_over-Kept s i =
      executed o x seen I P k x.bury s buries (λ r. after_sweep o x seen (recover_after x r)) made i
        (recover_after-Kept buries.0 (wrote x.bury.found buries.0 (connected s x.bury.reach))
          (did buries.1) (answered_by o x seen I P k x.bury s buries.0 made i))
        (λ l r j. recover_after-Kept l r lost j) (λ l r j. recover_after-Kept l r raised j)
    where
      buries : JobTable × ℕ
      buries = bury_expired x.bury.now x.locked_poisoned default_reap_batch x.bury.found

      made : Made o.settings x.bury.found buries.0
      made = burial x.bury.now x.locked_poisoned refl

module _ {ℓ κ} (o : Options) (x : Outside) (I : Working → Type ℓ) (P : Passed → Type κ) where
  pub pass-Kept : (s : Working) → Kept o x s.generation I P → I s → P (pass o x s)
  unfolding pass
  pass-Kept s k i = by_clock (leb s.next_reap_at x.clock)
    where
      by_clock :
          (sweeps : Bool)
          → P (
              if sweeps
              then after_sweep o x s.generation (reap_over x s)
              else after_room o x s.generation x.bury.found (wait_for_room o x.looks s))
      by_clock true = reap_over-Kept o x s.generation I P k s i
      by_clock false = waited o x s.generation I P k x.bury.found s i
