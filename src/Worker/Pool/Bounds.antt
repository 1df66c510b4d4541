-- ===== src/Worker/Pool/Bounds.antt =====
-- How many jobs a worker has claimed and how many it runs.
use durable_queue.Prelude.{
  ℕ, suc, ◌+◌, ◌≤◌, ◌≡◌, Bool, true, List, [], ◌∷◌, inl, inr, arith, Bool-cases, All, Distinct,
  length, length-append, contains, leb,
}
use durable_queue.Jobs.{Job, JobTable}
use durable_queue.Jobs.Rows.{ids}
use durable_queue.Jobs.Claim.{claim_jobs}
use durable_queue.Jobs.Claim.Order.{claim_batch}
use durable_queue.Worker.Pool.{
  Settings, max_outstanding, Pool, empty_pool, asks, claim_pass, take_job, without_one, finish_job,
  Move, claims, takes, finishes, move, moves,
}

pub record IsBounded (c : Settings) (p : Pool) : Type 0 where
  pub counted : p.outstanding ≡ length p.ready + length p.running
  pub within : p.outstanding ≤ max_outstanding c
  pub slots : length p.running ≤ c.concurrency

pub batch_le :
    (c : Settings) (now : ℕ) (locked : ℕ → Bool) (t : JobTable) (n : ℕ)
    → Distinct (ids t.rows)
    → length (claim_jobs now locked c.worker c.lease n t).1 ≤ n
batch_le c now locked t n d = omega (arith, (claim_batch now locked c.worker c.lease n t d).1)

claim_pass-IsBounded :
    (c : Settings) (now clock : ℕ) (locked : ℕ → Bool) (t : JobTable) (p : Pool)
    → Distinct (ids t.rows)
    → IsBounded c p
    → IsBounded c (claim_pass c now clock locked t p).1
unfolding claim_pass
claim_pass-IsBounded c now clock locked t p d b =
    elim (Bool-cases (leb (max_outstanding c) p.outstanding)) [
      | inl full ↦ rw full b
      | inr room ↦ rw room (record {
        counted = omega (
          arith,
          b.counted,
          length-append p.ready (claim_jobs now locked c.worker c.lease (asks c p) t).1,
        );
        within = omega (arith, b.within, batch_le c now locked t (asks c p) d);
        slots = b.slots;
      })
    ]

take_first :
    (c : Settings) (p : Pool) (ready : List Job)
    → IsBounded c (record p { ready = ready })
    → IsBounded c (take_job c (record p { ready = ready }))
unfolding take_job
take_first c p [] b = b
take_first c p (x ∷ xs) b = elim (Bool-cases (leb c.concurrency (length p.running))) [
  | inl full ↦ rw full b
  | inr room ↦ rw room (record {
    counted = omega (arith, b.counted);
    within = b.within;
    slots = ground (arith, room);
  })
]

pub take_job-IsBounded : (c : Settings) (p : Pool) → IsBounded c p → IsBounded c (take_job c p)
take_job-IsBounded c p b = take_first c p p.ready b

without_one-length :
    (i : ℕ) (xs : List Job)
    → contains (ids xs) i ≡ true
    → suc (length (without_one i xs)) ≡ length xs
unfolding without_one
without_one-length i [] h = cc
without_one-length i (x ∷ xs) h = ground (arith, without_one-length i xs)

pub finish_job-IsBounded :
    (c : Settings) (i : ℕ) (p : Pool) → IsBounded c p → IsBounded c (finish_job i p)
unfolding finish_job
finish_job-IsBounded c i p b = elim (Bool-cases (contains (ids p.running) i)) [
  | inl e ↦
      let l = without_one-length i p.running e in
      rw e (record {
        counted = omega (arith, b.counted, l);
        within = omega (arith, b.within);
        slots = omega (arith, b.slots, l);
      })
  | inr e ↦ rw e b
]

-- A claim finds a table whose ids are distinct.
abbrev pub IsSound : Move → Type 0
IsSound (claims now clock locked t) = Distinct (ids t.rows)
IsSound takes = Unit
IsSound (finishes i) = Unit

move-IsBounded :
    (c : Settings) (m : Move) (p : Pool) → IsSound m → IsBounded c p → IsBounded c (move c m p)
unfolding move
move-IsBounded c (claims now clock locked t) p d b = claim_pass-IsBounded c now clock locked t p d b
move-IsBounded c takes p d b = take_job-IsBounded c p b
move-IsBounded c (finishes i) p d b = finish_job-IsBounded c i p b

moves-IsBounded :
    (c : Settings) (ms : List Move) (p : Pool)
    → All IsSound ms
    → IsBounded c p
    → IsBounded c (moves c ms p)
unfolding moves
moves-IsBounded c [] p h b = b
moves-IsBounded c (m ∷ ms) p h b =
    moves-IsBounded c ms (move c m p) h.1 (move-IsBounded c m p h.0 b)

-- In any order of claims, starts and ends, over tables with distinct ids, the worker's count is
-- that of its queued and running jobs, stays within max_outstanding, and no more jobs run than it
-- has slots.
pub moves_lem :
    (c : Settings) (ms : List Move)
    → All IsSound ms
    → ((moves c ms empty_pool).outstanding
        ≡ length (moves c ms empty_pool).ready + length (moves c ms empty_pool).running)
      × ((moves c ms empty_pool).outstanding ≤ max_outstanding c)
      × (length (moves c ms empty_pool).running ≤ c.concurrency)
moves_lem c ms h =
    let b =
      moves-IsBounded c ms empty_pool h
        (record { counted = omega arith; within = omega arith; slots = omega arith }) in
    (b.counted, b.within, b.slots)
