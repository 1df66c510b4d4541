-- ===== src/Worker/Pool.antt =====
-- worker.py: run_worker's claiming loop and its slots, up to the hand-back at shutdown.
pub mod Bounds
pub mod HandBack
use durable_queue.Prelude.{
  ℕ, zero, suc, ◌+◌, ◌-◌, ◌*◌, ◌≤◌, ◌<◌, ◌≡◌, refl, sym, ap, subst, ◌∙◌, max, min, String, Bool,
  true, false, ◌&&◌, List, [], ◌∷◌, ◌++◌, map, none, some, inl, inr, arith, Bool-cases, All,
  Distinct, length, length-append, contains, leb, ◌==◌, if◌then◌else◌,
}
use durable_queue.Jobs.{Job, JobTable}
use durable_queue.Jobs.Rows.{ids}
use durable_queue.Jobs.Claim.{claim_jobs}
use durable_queue.Jobs.Claim.Order.{claim_batch}
use durable_queue.Jobs.Leases.{release_jobs}
use durable_queue.Worker.Heartbeat.{Deadlines, hold, release}

-- What run_worker is given.
pub record Settings : Type 0 where
  pub worker : String
  pub lease : ℕ
  pub batch_size : ℕ
  pub concurrency : ℕ

-- batch_size = max(batch_size, concurrency); max_outstanding = max(batch_size, concurrency * 2)
abbrev pub claim_size : Settings → ℕ
claim_size c = max c.batch_size c.concurrency

abbrev pub max_outstanding : Settings → ℕ
max_outstanding c = max (claim_size c) (c.concurrency * 2)

-- The queue between the loop and the slots, the jobs that slots are running, the count, and the heartbeat.
pub record Pool : Type 0 where
  pub ready : List Job
  pub running : List Job
  pub outstanding : ℕ
  pub deadlines : Deadlines

abbrev pub empty_pool : Pool
empty_pool = record { ready = []; running = []; outstanding = 0; deadlines = [] }

-- What it asks the claim for: min(room, batch_size), nothing while it waits for room.
abbrev pub asks : Settings → Pool → ℕ
asks c p = min (max_outstanding c - p.outstanding) (claim_size c)

-- One pass of the loop over the table as it finds it: it waits, or claims and puts what it claimed.
unfoldable pub claim_pass :
    Settings → (now clock : ℕ) → (ℕ → Bool) → JobTable → Pool → JobTable × Pool
unfolding claim_jobs hold
claim_pass c now clock locked t p =
    let (t', batch) = claim_jobs now locked c.worker c.lease (asks c p) t in
    if leb (max_outstanding c) p.outstanding then (t, p) else (
      t',
      record p {
        ready = p.ready ++ batch;
        outstanding = p.outstanding + length batch;
        deadlines = hold clock (ids batch) none p.deadlines;
      },
    )

-- A free slot takes the first job, if there is one: ready.get().
unfoldable pub take_job : Settings → Pool → Pool
take_job c p = elim p.ready [
  | [] ↦ p
  | job ∷ rest ↦
      if leb c.concurrency (length p.running)
      then p
      else record p { ready = rest; running = job ∷ p.running }
]

unfoldable pub without_one : ℕ → List Job → List Job
without_one i [] = []
without_one i (x ∷ xs) = let rest = without_one i xs in if x.id == i then xs else x ∷ rest

-- run_job of this job returns or raises; run_job and the slot each have a `finally` block.
unfoldable pub finish_job : ℕ → Pool → Pool
unfolding without_one release
finish_job i p =
    if contains (ids p.running) i
    then record p {
      running = without_one i p.running;
      outstanding = p.outstanding - 1;
      deadlines = release (i ∷ []) p.deadlines;
    }
    else p

-- After the loop: the jobs that were not started go back.
unfoldable pub hand_back : Settings → JobTable → Pool → JobTable × Pool
unfolding release_jobs release
hand_back c t p = (
  (release_jobs (ids p.ready) c.worker t).0,
  record p { ready = []; deadlines = release (ids p.ready) p.deadlines },
)

-- What happens in the process, in any order.
pub data Move : Type 0 where
  claims : (now clock : ℕ) → (ℕ → Bool) → JobTable → Move
  takes : Move
  finishes : ℕ → Move

unfoldable pub move : Settings → Move → Pool → Pool
move c (claims now clock locked t) p = (claim_pass c now clock locked t p).1
move c takes p = take_job c p
move c (finishes i) p = finish_job i p

unfoldable pub moves : Settings → List Move → Pool → Pool
unfolding move
moves c [] p = p
moves c (m ∷ ms) p = moves c ms (move c m p)
