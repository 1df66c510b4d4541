-- ===== src/Worker/Loop/Made.antt =====
-- What the statements of run_worker may make of the table that they find.
use durable_queue.Prelude.{ℕ, ◌≤◌, ◌≡◌, refl, Bool, List, Option, none, some}
use durable_queue.Jobs.{JobTable, default_reap_batch}
use durable_queue.Jobs.Claim.{claim_jobs}
use durable_queue.Jobs.Leases.{release_jobs}
use durable_queue.Jobs.Reap.{bury_expired, recover_expired}
use durable_queue.Database.{Link, answered, broken, unheard, failed, transact}
use durable_queue.Worker.Pool.{Settings, claim_size}

-- Nothing, one of the two UPDATEs of the reaper, a claim of at most a batch, or a hand-back.
pub data Made (c : Settings) (t t' : JobTable) : Type 0 where
  nothing : t' ≡ t → Made c t t'
  burial :
      (now : ℕ) (locked : ℕ → Bool)
      → t' ≡ (bury_expired now locked default_reap_batch t).0
      → Made c t t'
  recovery :
      (now : ℕ) (locked : ℕ → Bool)
      → t' ≡ (recover_expired now locked default_reap_batch t).0
      → Made c t t'
  claim :
      (now : ℕ) (locked : ℕ → Bool) (n : ℕ)
      → n ≤ claim_size c
      → t' ≡ (claim_jobs now locked c.worker c.lease n t).0
      → Made c t t'
  return : (job_ids : List ℕ) → t' ≡ (release_jobs job_ids c.worker t).0 → Made c t t'

-- A transaction leaves the table as it found it, or as its statement makes it.
pub transact-Made :
    {A : Type 0} (c : Settings) (link : Link) (got : Option ℕ) (t : JobTable) (made : JobTable × A)
    → Made c t made.0
    → Made c t (transact link got t made).0
unfolding transact
transact-Made c link none t made m = nothing refl
transact-Made c answered (some i) t made m = m
transact-Made c broken (some i) t made m = nothing refl
transact-Made c unheard (some i) t made m = m
transact-Made c failed (some i) t made m = nothing refl
