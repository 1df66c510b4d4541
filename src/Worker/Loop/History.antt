-- ===== src/Worker/Loop/History.antt =====
-- run_worker beside the other processes: what it does to the table is a history of jobs.py's calls.
use durable_queue.Prelude.{
  ℕ, ◌≤◌, ◌≡◌, refl, ap, sym, ◌∙◌, false, List, [], ◌∷◌, ◌++◌, All, All-append, All-imp,
}
use durable_queue.Jobs.{JobTable, default_reap_batch}
use durable_queue.Jobs.Claim.{claim_jobs}
use durable_queue.Jobs.Leases.{release_jobs}
use durable_queue.Jobs.Reap.{bury_expired, recover_expired}
use durable_queue.Database.{Reach}
use durable_queue.Queue.{Call, claims, hands_back, buries, recovers, Event, perform, step, history}
use durable_queue.Worker.Pool.{Settings, claim_size}
use durable_queue.Worker.Run.{World}
use durable_queue.Worker.Loop.{Options, Write}
use durable_queue.Worker.Loop.Made.{Made, nothing, burial, recovery, claim, return}
use durable_queue.Worker.Loop.Shutdown.{Closing, Step, run_worker}
use durable_queue.Worker.Loop.Writes.{run_worker-AllMade}

-- The calls of run_worker itself: the reaper's two UPDATEs, claims of at most a batch, and hand-backs.
abbrev pub OwnCall : Settings → Call → Type 0
OwnCall c (claims lease n) = (lease ≡ c.lease) × (n ≤ claim_size c)
OwnCall c (hands_back job_ids) = Unit
OwnCall c (buries n) = n ≡ default_reap_batch
OwnCall c (recovers n) = n ≡ default_reap_batch
OwnCall c _ = ⊥

abbrev pub IsOwn : Settings → Event → Type 0
IsOwn c e = (e.worker ≡ c.worker) × OwnCall c e.call

-- Each transaction finds the table as the events of the others make it of what the one before it left.
abbrev pub Interleaved : List (List Event) → List Write → World → Type 0
Interleaved [] [] w = Unit
Interleaved (es ∷ others) (q ∷ writes) w =
    (q.found ≡ (history es w).jobs)
    × Interleaved others writes (record (history es w) { jobs = q.left })
Interleaved _ _ w = ⊥

-- What the world has come to after the last of them.
abbrev pub ended_in : List (List Event) → List Write → World → World
ended_in (es ∷ others) (q ∷ writes) w =
    ended_in others writes (record (history es w) { jobs = q.left })
ended_in _ _ w = w

history-append : (es fs : List Event) (w : World) → history (es ++ fs) w ≡ history fs (history es w)
unfolding history
history-append [] fs w = refl
history-append (e ∷ es) fs w = history-append es fs (step e w)

module _ (c : Settings) where
  own :
      (t t' : JobTable) (w : World)
      → t ≡ w.jobs
      → Made c t t'
      → (es : List Event) × (history es w ≡ record w { jobs = t' }) × All (IsOwn c) es
  unfolding history step perform
  own t t' w found (nothing e) = ([], with_jobs w (sym (e ∙ found)), tt)
    where
      with_jobs : (v : World) {u : JobTable} → v.jobs ≡ u → v ≡ record v { jobs = u }
      with_jobs v q = ap (λ (u : JobTable). record v { jobs = u }) q
  own t t' w found (burial now locked e) = (
    record { now = now; worker = c.worker; locked = locked; call = buries default_reap_batch } ∷ [],
    ap (λ (u : JobTable). record w { jobs = u })
        (ap (λ (u : JobTable). (bury_expired now locked default_reap_batch u).0) (sym found)
          ∙ sym e),
    ((refl, refl), tt),
  )
  own t t' w found (recovery now locked e) = (
    record { now = now; worker = c.worker; locked = locked; call = recovers default_reap_batch }
        ∷ [],
    ap (λ (u : JobTable). record w { jobs = u })
        (ap (λ (u : JobTable). (recover_expired now locked default_reap_batch u).0) (sym found)
          ∙ sym e),
    ((refl, refl), tt),
  )
  own t t' w found (claim now locked n le e) = (
    record { now = now; worker = c.worker; locked = locked; call = claims c.lease n } ∷ [],
    ap (λ (u : JobTable). record w { jobs = u })
        (ap (λ (u : JobTable). (claim_jobs now locked c.worker c.lease n u).0) (sym found) ∙ sym e),
    ((refl, (refl, le)), tt),
  )
  own t t' w found (return job_ids e) = (
    record { now = 0; worker = c.worker; locked = λ i. false; call = hands_back job_ids } ∷ [],
    ap (λ (u : JobTable). record w { jobs = u })
        (ap (λ (u : JobTable). (release_jobs job_ids c.worker u).0) (sym found) ∙ sym e),
    ((refl, tt), tt),
  )

  interleaved :
      (P : Event → Type 0) (others : List (List Event)) (writes : List Write) (w : World)
      → Interleaved others writes w
      → All (λ q. Made c q.found q.left) writes
      → All (All P) others
      → ((e : Event) → IsOwn c e → P e)
      → (es : List Event) × (history es w ≡ ended_in others writes w) × All P es
  unfolding history
  interleaved P [] [] w i m p own_P = ([], refl, tt)
  interleaved P [] (q ∷ writes) w i m p own_P = absurd i
  interleaved P (es ∷ others) [] w i m p own_P = absurd i
  interleaved P (es ∷ others) (q ∷ writes) w i m p own_P =
      let (fs, e, o) = own q.found q.left (history es w) i.0 m.0 in
      let (gs, e', p') =
        interleaved P others writes (record (history es w) { jobs = q.left }) i.1 m.1 p.1 own_P in
      (
        es ++ (fs ++ gs),
        history-append es (fs ++ gs) w
            ∙ history-append fs gs (history es w)
            ∙ ap (history gs) e
            ∙ e',
        All-append P es (fs ++ gs) p.0 (All-append P fs gs (All-imp (IsOwn c) P own_P fs o) p'),
      )

-- Where each transaction of a run of run_worker finds the table as other processes' events make it
-- of what the transaction before it left: what the world has come to after the last is what some
-- history makes of it, and what holds of the others' events and of the worker's own sweeps, hand-
-- backs and claims of at most a batch holds of every event in it.
pub run_worker-history :
    (o : Options) (x : Closing) (reach : Reach) (generation : ℕ) (qs : List Step)
    (P : Event → Type 0) (others : List (List Event)) (w : World)
    → let f = run_worker o reach generation qs x in
      Interleaved others f.worker.writes w
      → All (All P) others
      → ((e : Event) → IsOwn o.settings e → P e)
      → (es : List Event) × (history es w ≡ ended_in others f.worker.writes w) × All P es
run_worker-history o x reach generation qs P others w i p own_P =
    interleaved o.settings P others (run_worker o reach generation qs x).worker.writes w i
      (run_worker-AllMade o x reach generation qs) p own_P
