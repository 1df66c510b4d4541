-- ===== src/Worker/Loop/Kept.antt =====
-- What holds of every way that a pass can go, from its claim on.
use durable_queue.Prelude.{
  ℕ, ◌≡◌, refl, Bool, true, false, List, [], ◌∷◌, Option, none, some, ◌==◌, if◌then◌else◌,
}
use durable_queue.Prelude.Int.{ℤ}
use durable_queue.Jobs.{Job, JobTable}
use durable_queue.Jobs.Inspect.{seconds_until_due}
use durable_queue.Database.{
  Reach, get, Link, answered, broken, unheard, failed, Result, did, lost, raised, transact,
}
use durable_queue.Worker.Sleep.{reconnect_min_delay}
use durable_queue.Worker.Loop.{
  Options, notifies, Working, wrote, SlotMove, slot_moves, Turn, pauses, waits, waits_for_job,
  waits_for_slot, goes_on, raises, Passed, lose,
}
use durable_queue.Worker.Loop.Pass.{
  Statement, Outside, execute, batch_of, rest_until, after_due, await_notice, nothing_claimed,
  put_batch, after_claim,
}
use durable_queue.Worker.Loop.Made.{Made, nothing}

abbrev pub is_wait : Turn → Bool
is_wait (waits _ _) = true
is_wait _ = false

abbrev pub connected : Working → Reach → Working
connected s reach = record s { claim_conn = (get reach s.claim_conn).0 }

-- A property P of passes, where the loop's state has I throughout.
pub record Kept {ℓ κ} (o : Options) (x : Outside) (seen : ℕ) (I : Working → Type ℓ)
    (P : Passed → Type κ) : Type (ℓ ⊔ κ) where
  pub kept_get :
      (reach : Reach) (s : Working) → I s → I (record s { claim_conn = (get reach s.claim_conn).0 })
  pub kept_write : (t t' : JobTable) (s : Working) → Made o.settings t t' → I s → I (wrote t t' s)
  pub kept_slots : (ms : List SlotMove) (s : Working) → I s → I (slot_moves o ms s)
  pub kept_reap : (at : ℕ) (s : Working) → I s → I (record s { next_reap_at = at })
  pub kept_delay : (s : Working) → I s → I (record s { retry_delay = reconnect_min_delay })
  pub when_lost : (left : JobTable) (s : Working) → I s → P (lose left s)
  pub when_turned :
      (left : JobTable) (s : Working) (turn : Turn)
      → is_wait turn ≡ false
      → I s
      → P (record { worker = s; left = left; turn = turn })
  pub when_claimed :
      (left : JobTable) (s : Working) (batch : List Job)
      → I s
      → batch ≡ (batch_of o x s).1
      → let s' = slot_moves o x.meanwhile s in
        P (record {
          worker = record s' {
            slot_pool = true;
            retry_delay = reconnect_min_delay;
            pool = put_batch x.held_at batch s'.pool;
          };
          left = left;
          turn = goes_on;
        })
  pub when_idle :
      (s : Working)
      → o.idle ≡ true
      → I s
      → P (
          rest_until seen
            (s.pool.outstanding == 0)
            x.due.found
            (seconds_until_due x.due.now x.due.found)
            s)

module _ {ℓ κ} (o : Options) (x : Outside) (seen : ℕ) (I : Working → Type ℓ) (P : Passed → Type κ)
    (k : Kept o x seen I P) where
  -- What a transaction comes to.
  by_result :
      {A : Type 0} (q : Statement) (s : Working) (made : JobTable × A) (got : Option ℕ)
      (f : Working × (JobTable × Result A) → Passed)
      → Made o.settings q.found made.0
      → I s
      → P (f (wrote q.found made.0 s, (made.0, did made.1)))
      → ((left : JobTable) (r : Working) → I r → P (f (r, (left, lost))))
      → ((left : JobTable) (r : Working) → I r → P (f (r, (left, raised))))
      → let p = transact q.link got q.found made in P (f (wrote q.found p.0 s, (p.0, p.1)))
  unfolding transact
  by_result q s made none f m i d l r =
      l q.found _ (k.kept_write q.found q.found s (nothing refl) i)
  by_result q s made (some c) f m i d l r = by_link q.link
    where
      by_link :
          (link : Link)
          → let p = transact link (some c) q.found made in P (f (wrote q.found p.0 s, (p.0, p.1)))
      by_link answered = d
      by_link broken = l q.found _ (k.kept_write q.found q.found s (nothing refl) i)
      by_link unheard = l made.0 _ (k.kept_write q.found made.0 s m i)
      by_link failed = r q.found _ (k.kept_write q.found q.found s (nothing refl) i)

  pub executed :
      {A : Type 0} (q : Statement) (s : Working) (made : JobTable × A)
      (f : Working × (JobTable × Result A) → Passed)
      → Made o.settings q.found made.0
      → I s
      → P (f (wrote q.found made.0 (connected s q.reach), (made.0, did made.1)))
      → ((left : JobTable) (r : Working) → I r → P (f (r, (left, lost))))
      → ((left : JobTable) (r : Working) → I r → P (f (r, (left, raised))))
      → P (f (execute q made s))
  unfolding execute
  executed q s made f m i d l r =
      by_result q (connected s q.reach) made (get q.reach s.claim_conn).1 f m
        (k.kept_get q.reach s i) d l r

  -- The state after a statement that was answered.
  pub answered_by :
      (q : Statement) (s : Working) (t : JobTable)
      → Made o.settings q.found t
      → I s
      → I (wrote q.found t (connected s q.reach))
  answered_by q s t m i = k.kept_write q.found t (connected s q.reach) m (k.kept_get q.reach s i)

  nothing_claimed-Kept : (left : JobTable) (s : Working) → I s → P (nothing_claimed o x seen left s)
  unfolding nothing_claimed
  nothing_claimed-Kept left s i = by_mode o.idle (s.pool.outstanding == 0) (notifies o) refl
    where
      told : JobTable × Option ℤ
      told = (x.due.found, seconds_until_due x.due.now x.due.found)

      listening : Statement
      listening = record x.due { reach = x.listening; link = x.notices; found = left }

      by_mode :
          (idle nothing_outstanding notify : Bool)
          → o.idle ≡ idle
          → P (
              if idle
              then after_due seen (s.pool.outstanding == 0) (execute x.due told s)
              else if nothing_outstanding
              then (if notify
                  then await_notice o.poll_interval (execute listening (left, none) s)
                  else record { worker = s; left = left; turn = pauses o.poll_interval })
              else record { worker = s; left = left; turn = waits_for_slot })
      by_mode true z n e =
          executed x.due s told (after_due seen (s.pool.outstanding == 0)) (nothing refl) i
            (unfold after_due in
              k.when_idle (wrote x.due.found x.due.found (connected s x.due.reach)) e
                (answered_by x.due s x.due.found (nothing refl) i))
            (λ l r j. unfold after_due in k.when_lost l r j)
            (λ l r j. unfold after_due in k.when_turned l r raises refl j)
      by_mode false true true e =
          executed listening s (left, none) (await_notice o.poll_interval) (nothing refl) i
            (unfold await_notice in
              k.when_turned left (wrote left left (connected s x.listening))
                (waits_for_job o.poll_interval) refl
                (answered_by listening s left (nothing refl) i))
            (λ l r j. unfold await_notice in k.when_lost l r j)
            (λ l r j. unfold await_notice in k.when_turned l r raises refl j)
      by_mode false true false e = k.when_turned left s (pauses o.poll_interval) refl i
      by_mode false false n e = k.when_turned left s waits_for_slot refl i

  pub after_claim-Kept :
      (s : Working) (batch : List Job) (left : JobTable)
      → I s
      → batch ≡ (batch_of o x s).1
      → P (after_claim o x seen (s, (left, did batch)))
  unfolding after_claim
  after_claim-Kept s [] left i e =
      nothing_claimed-Kept left
        (slot_moves o x.meanwhile (record s { retry_delay = reconnect_min_delay }))
        (k.kept_slots x.meanwhile (record s { retry_delay = reconnect_min_delay })
          (k.kept_delay s i))
  after_claim-Kept s (job ∷ jobs) left i e = k.when_claimed left s (job ∷ jobs) i e
