-- ===== src/Worker/Loop/Steady.antt =====
-- What a worker holds, pass after pass, and what it has let go of once it has returned.
use durable_queue.Prelude.{
  ℕ, suc, ◌-◌, ◌≤◌, ◌≡◌, refl, subst, sym, Bool, true, false, List, [], ◌∷◌, inl, inr, arith,
  Bool-cases, Distinct, length, length-append, contains, leb,
}
use durable_queue.Jobs.{Job, JobTable}
use durable_queue.Jobs.Rows.{ids}
use durable_queue.Database.Reopened.{IsTidy, get-IsTidy, close-IsTidy}
use durable_queue.Worker.Sleep.{retry_delay}
use durable_queue.Worker.Pool.{Settings, Pool, max_outstanding, take_job, finish_job}
use durable_queue.Worker.Pool.Bounds.{IsBounded, batch_le, take_job-IsBounded, finish_job-IsBounded}
use durable_queue.Worker.Loop.{Options, Working, SlotMove, takes, ends, slot_move, slot_moves, lose}
use durable_queue.Worker.Loop.Pass.{Outside, batch_of, put_batch, let_go, rest_until, pass}
use durable_queue.Worker.Loop.Cases.{pass-Kept}

-- The count is that of the queued and running jobs and within its bounds; at most one claim connection is open;
-- the delay before a retry is one of those that retry_delay grows through.
pub record IsSteady (o : Options) (s : Working) : Type 0 where
  pub bounded : IsBounded o.settings s.pool
  pub tidy : IsTidy s.claim_conn
  pub paced : (n : ℕ) × (s.retry_delay ≡ retry_delay n)

slot_move-IsBounded :
    (o : Options) (m : SlotMove) (s : Working)
    → IsBounded o.settings s.pool
    → IsBounded o.settings (slot_move o m s).pool
unfolding slot_move
slot_move-IsBounded o takes s b = take_job-IsBounded o.settings s.pool b
slot_move-IsBounded o (ends i) s b = finish_job-IsBounded o.settings i s.pool b

pub slot_moves-IsSteady :
    (o : Options) (ms : List SlotMove) (s : Working) → IsSteady o s → IsSteady o (slot_moves o ms s)
unfolding slot_moves slot_move
slot_moves-IsSteady o [] s h = h
slot_moves-IsSteady o (takes ∷ ms) s h =
    slot_moves-IsSteady o ms (slot_move o takes s)
      (record { bounded = slot_move-IsBounded o takes s h.bounded; tidy = h.tidy; paced = h.paced })
slot_moves-IsSteady o (ends i ∷ ms) s h =
    slot_moves-IsSteady o ms (slot_move o (ends i) s) (record {
      bounded = slot_move-IsBounded o (ends i) s h.bounded;
      tidy = h.tidy;
      paced = h.paced;
    })

slot_move-le :
    (o : Options) (m : SlotMove) (s : Working)
    → (slot_move o m s).pool.outstanding ≤ s.pool.outstanding
unfolding slot_move take_job finish_job
slot_move-le o takes s = taken s.pool.ready
  where
    taken :
        (ready : List Job)
        → (take_job o.settings (record s.pool { ready = ready })).outstanding ≤ s.pool.outstanding
    taken [] = omega arith
    taken (x ∷ xs) = elim (Bool-cases (leb o.settings.concurrency (length s.pool.running))) [
      | inl e ↦ rw (e, take_job) (omega arith)
      | inr e ↦ rw (e, take_job) (omega arith)
    ]
slot_move-le o (ends i) s = elim (Bool-cases (contains (ids s.pool.running) i)) [
  | inl e ↦ rw (e, finish_job) (omega arith)
  | inr e ↦ rw (e, finish_job) (omega arith)
]

pub slot_moves-le :
    (o : Options) (ms : List SlotMove) (s : Working)
    → (slot_moves o ms s).pool.outstanding ≤ s.pool.outstanding
unfolding slot_moves
slot_moves-le o [] s = omega arith
slot_moves-le o (m ∷ ms) s = omega (arith, slot_move-le o m s, slot_moves-le o ms (slot_move o m s))

put_batch-IsBounded :
    (c : Settings) (clock : ℕ) (batch : List Job) (before p : Pool)
    → IsBounded c before
    → IsBounded c p
    → p.outstanding ≤ before.outstanding
    → length batch ≤ max_outstanding c - before.outstanding
    → IsBounded c (put_batch clock batch p)
put_batch-IsBounded c clock batch before p b h le n = record {
  counted = omega (arith, h.counted, length-append p.ready batch);
  within = omega (arith, b.within, le, n);
  slots = h.slots;
}

lose-IsSteady :
    (o : Options) (left : JobTable) (s : Working) → IsSteady o s → IsSteady o (lose left s).worker
unfolding lose retry_delay
lose-IsSteady o left s h = record {
  bounded = h.bounded;
  tidy = close-IsTidy s.claim_conn h.tidy;
  paced = (suc h.paced.0, rw h.paced.1);
}

let_go-IsSteady :
    (o : Options) (long : Bool) (s : Working) → IsSteady o s → IsSteady o (let_go long s)
unfolding let_go
let_go-IsSteady o true s h = record {
  bounded = h.bounded;
  tidy = close-IsTidy s.claim_conn h.tidy;
  paced = h.paced;
}
let_go-IsSteady o false s h = h

claimed_few :
    (o : Options) (x : Outside) (s : Working) (batch : List Job)
    → Distinct (ids x.claim.found.rows)
    → batch ≡ (batch_of o x s).1
    → length batch ≤ max_outstanding o.settings - s.pool.outstanding
claimed_few o x s batch d e =
    subst (λ (l : List Job). length l ≤ max_outstanding o.settings - s.pool.outstanding) (sym e)
      (omega (arith, batch_le o.settings x.claim.now x.locked_due x.claim.found _ d))

pub pass-IsSteady :
    (o : Options) (x : Outside) (s : Working)
    → Distinct (ids x.claim.found.rows)
    → IsSteady o s
    → IsSteady o (pass o x s).worker
pass-IsSteady o x s d h =
    pass-Kept o x (IsSteady o) (λ r. IsSteady o r.worker) s
      record {
        kept_get = λ reach r i. record {
          bounded = i.bounded;
          tidy = get-IsTidy reach r.claim_conn i.tidy;
          paced = i.paced;
        };
        kept_write = λ t t' r m i. record { bounded = i.bounded; tidy = i.tidy; paced = i.paced };
        kept_slots = λ ms r i. slot_moves-IsSteady o ms r i;
        kept_reap = λ at r i. record { bounded = i.bounded; tidy = i.tidy; paced = i.paced };
        kept_delay = λ r i. record {
          bounded = i.bounded;
          tidy = i.tidy;
          paced = (0, unfold retry_delay in refl);
        };
        when_lost = λ left r i. lose-IsSteady o left r i;
        when_turned = λ left r turn e i. i;
        when_claimed = λ left r batch i e.
            let i' = slot_moves-IsSteady o x.meanwhile r i in
            record {
              bounded =
                  put_batch-IsBounded o.settings x.held_at batch r.pool
                    (slot_moves o x.meanwhile r).pool i.bounded i'.bounded
                    (slot_moves-le o x.meanwhile r) (claimed_few o x r batch d e);
              tidy = i'.tidy;
              paced = (0, unfold retry_delay in refl);
            };
        when_idle = λ r e i.
            unfold rest_until in
            let_go-IsSteady o _ _ (record { bounded = i.bounded; tidy = i.tidy; paced = i.paced });
      }
      h
