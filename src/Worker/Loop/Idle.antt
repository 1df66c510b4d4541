-- ===== src/Worker/Loop/Idle.antt =====
-- What an idle worker sleeps through, and what ends its sleep.
use durable_queue.Prelude.{
  ℕ, ◌+◌, ◌≤◌, ◌<◌, ◌≡◌, refl, ap, subst, sym, ◌∙◌, String, Bool, true, false, List, [], Option,
  none, some, inl, inr, arith, Option-cases, ◌==◌, if◌then◌else◌,
}
use durable_queue.Prelude.Int.{ℤ}
use durable_queue.Jobs.{JobTable}
use durable_queue.Jobs.Claim.{claim_jobs}
use durable_queue.Jobs.Reap.{reap_expired_jobs}
use durable_queue.Jobs.Inspect.{seconds_until_due}
use durable_queue.Database.{Reconnecting, close}
use durable_queue.Wakeup.{Moment, wait, at_once}
use durable_queue.Worker.Sleep.{
  timeout, is_overdue, lets_go, is_long, min_sleep, IsAsleep, timeout_lem,
}
use durable_queue.Worker.Loop.{
  Options, Working, SlotMove, slot_moves, Turn, pauses, waits, goes_on, Passed, lose,
}
use durable_queue.Worker.Loop.Pass.{Outside, let_go, rest_until, pass}
use durable_queue.Worker.Loop.Kept.{is_wait}
use durable_queue.Worker.Loop.Slots.{slot_moves-generation}
use durable_queue.Worker.Loop.Cases.{pass-Kept}

-- A pass that waits has read the counter before it looked, has looked for how long it may sleep, and holds no
-- connection through a long sleep with nothing outstanding.
record Rests (x : Outside) (generation : ℕ) (r : Passed) (seen : ℕ) (t : Option ℕ) : Type 0 where
  read_first : seen ≡ generation
  looked : r.left ≡ x.due.found
  told : t ≡ timeout (seconds_until_due x.due.now x.due.found)
  closed :
      r.worker.pool.outstanding ≡ 0
      → is_long t ≡ true
      → (r.worker.claim_conn.conn ≡ none) × (r.worker.slot_pool ≡ false)

abbrev Waits : Outside → ℕ → Passed → Type 0
Waits x generation r =
    (seen : ℕ) (t : Option ℕ) → r.turn ≡ waits seen t → Rests x generation r seen t

close-conn : (c : Reconnecting) → (close c).conn ≡ none
unfolding close
close-conn c = elim (Option-cases c.conn) [ inl e ↦ rw (e, close) e | inr (i, e) ↦ rw (e, close) ]

no_wait : (turn : Turn) → is_wait turn ≡ false → (seen : ℕ) (t : Option ℕ) → turn ≡ waits seen t → ⊥
no_wait turn e seen t q = true_false (subst (λ w. is_wait w ≡ false) q e)
  where
    true_false : true ≡ false → ⊥
    true_false f = cc

let_go-closed :
    (long : Bool) (s : Working)
    → long ≡ true
    → ((let_go long s).claim_conn.conn ≡ none) × ((let_go long s).slot_pool ≡ false)
unfolding let_go
let_go-closed true s e = (close-conn s.claim_conn, refl)
let_go-closed false s e = cc

let_go-pool : (long : Bool) (s : Working) → (let_go long s).pool ≡ s.pool
unfolding let_go
let_go-pool true s = refl
let_go-pool false s = refl

goes :
    (n : ℕ) (seconds : Option ℤ)
    → n ≡ 0
    → is_long (timeout seconds) ≡ true
    → lets_go (n == 0) seconds ≡ true
unfolding lets_go
goes n seconds z long = ground (arith, z, long)

let_go-idle :
    (n : ℕ) (seconds : Option ℤ) (s : Working)
    → s.pool.outstanding ≡ n
    → let r = let_go (lets_go (n == 0) seconds) s in
      r.pool.outstanding ≡ 0
      → is_long (timeout seconds) ≡ true
      → (r.claim_conn.conn ≡ none) × (r.slot_pool ≡ false)
let_go-idle n seconds s e z long = let_go-closed (lets_go (n == 0) seconds) s (
    goes n seconds
      (sym e ∙ ap (λ p. p.outstanding) (sym (let_go-pool (lets_go (n == 0) seconds) s)) ∙ z) long)

rest_until-Waits :
    (x : Outside) (generation : ℕ) (s : Working)
    → Waits x generation (
        rest_until generation
          (s.pool.outstanding == 0)
          x.due.found
          (seconds_until_due x.due.now x.due.found)
          s)
unfolding rest_until
rest_until-Waits x generation s seen t e = record {
  read_first = ground arith;
  looked = refl;
  told = same;
  closed = λ z long.
      let_go-idle s.pool.outstanding seconds looked refl z
        (subst (λ (o : Option ℕ). is_long o ≡ true) same long);
}
  where
    seconds : Option ℤ
    seconds = seconds_until_due x.due.now x.due.found

    looked : Working
    looked = record s { next_reap_at = if is_overdue seconds then 0 else s.next_reap_at }

    same : t ≡ timeout seconds
    same = cc

lose-Waits :
    (x : Outside) (generation : ℕ) (left : JobTable) (s : Working)
    → Waits x generation (lose left s)
unfolding lose
lose-Waits x generation left s seen t e = absurd (no_wait (pauses s.retry_delay) refl seen t e)

pass-Waits : (o : Options) (x : Outside) (s : Working) → Waits x s.generation (pass o x s)
pass-Waits o x s =
    pass-Kept o x (λ r. r ≡ r) (Waits x s.generation) s
      record {
        kept_get = λ reach r i. refl;
        kept_write = λ t t' r m i. refl;
        kept_slots = λ ms r i. refl;
        kept_reap = λ at r i. refl;
        kept_delay = λ r i. refl;
        when_lost = λ left r i. lose-Waits x s.generation left r;
        when_turned = λ left r turn e i seen t q. absurd (no_wait turn e seen t q);
        when_claimed = λ left r batch i e seen t q. absurd (no_wait goes_on refl seen t q);
        when_idle = λ r e i. rest_until-Waits x s.generation r;
      }
      refl

-- Where a pass of an idle worker ends in a wait: it has read the wakeup counter before it looked;
-- with nothing outstanding and a wait longer than a minute its claim connection and its slots' pool
-- are closed; and from MIN_SLEEP after it looked until the wait is over no claim and no sweep of
-- the table that it looked at finds anything.
pub pass_idle :
    (o : Options) (x : Outside) (s : Working) (seen : ℕ) (t : Option ℕ)
    → let r = pass o x s in
      r.turn ≡ waits seen t
      → (seen ≡ s.generation)
        × (r.worker.pool.outstanding ≡ 0
            → is_long t ≡ true
            → (r.worker.claim_conn.conn ≡ none) × (r.worker.slot_pool ≡ false))
        × ((later : ℕ) (locked locked' : ℕ → Bool) (worker : String) (lease n m : ℕ)
            → IsAsleep x.due.now t later
            → x.due.now + min_sleep ≤ later
            → (claim_jobs later locked worker lease n r.left ≡ (r.left, []))
              × (reap_expired_jobs later locked locked' m r.left ≡ (r.left, 0)))
pass_idle o x s seen t e =
    let w = pass-Waits o x s seen t e in
    (
      w.read_first,
      w.closed,
      λ later locked locked' worker lease n m a h.
          subst
            (λ (left : JobTable).
              (claim_jobs later locked worker lease n left ≡ (left, []))
              × (reap_expired_jobs later locked locked' m left ≡ (left, 0)))
            (sym w.looked)
            (timeout_lem x.due.now later x.due.found
              (subst (λ (d : Option ℕ). IsAsleep x.due.now d later) w.told a) h locked locked'
              worker lease n m),
    )

-- Where an idle worker has read the counter while jobs were outstanding and the slots have ended the last
-- of them since, its wait returns at once, whatever its deadline.
pub burst_end :
    (o : Options) (ms : List SlotMove) (s : Working) (seen : ℕ)
    → o.idle ≡ true
    → seen ≤ s.generation
    → 0 < s.pool.outstanding
    → (slot_moves o ms s).pool.outstanding ≡ 0
    → (deadline : Option ℕ) (later : List Moment)
    → wait seen deadline (slot_moves o ms s).generation later ≡ some 0
burst_end o ms s seen i le h z deadline later =
    at_once seen deadline (slot_moves o ms s).generation later
      (omega (arith, le, (slot_moves-generation o ms s i).1 h z))
