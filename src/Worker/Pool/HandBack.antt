-- ===== src/Worker/Pool/HandBack.antt =====
-- A worker that stops gives back what it has not started.
use durable_queue.Prelude.{
  ℕ, ◌≡◌, refl, String, true, false, List, [], ◌∷◌, arith, All, All-every, Each, Each-refl,
  contains,
}
use durable_queue.Sql.Laws.{All-update_where, Each-update_where}
use durable_queue.Jobs.{Job, JobTable, owned_by}
use durable_queue.Jobs.Rows.{ids}
use durable_queue.Jobs.Leases.{holds_any, set_released, release_jobs}
use durable_queue.Worker.Pool.{Settings, Pool, hand_back}

-- Handing a job back spends neither an attempt nor a recovery, and does not touch a job that is not listed.
abbrev pub Spared : List ℕ → Job → Job → Type 0
Spared listed x y =
    (y.id ≡ x.id)
    × (y.attempts ≡ x.attempts)
    × (y.recoveries ≡ x.recoveries)
    × (y.run_at ≡ x.run_at)
    × (contains listed x.id ≡ false → y ≡ x)

Spared-refl : (listed : List ℕ) (x : Job) → Spared listed x x
Spared-refl listed x = (refl, refl, refl, refl, (λ _. refl))

abbrev LetGo : List ℕ → String → Job → Type 0
LetGo listed worker j = contains listed j.id ≡ true → owned_by worker j ≡ false

release_jobs-LetGo :
    (listed : List ℕ) (worker : String) (t : JobTable)
    → All (LetGo listed worker) (release_jobs listed worker t).0.rows
      × Each (Spared listed) t.rows (release_jobs listed worker t).0.rows
unfolding release_jobs
release_jobs-LetGo [] worker t =
    (All-every _ (λ j c. cc) t.rows, Each-refl _ (Spared-refl []) t.rows)
release_jobs-LetGo (i ∷ is) worker t = (
  All-update_where (holds_any (i ∷ is) worker) (λ j. j ≡ j) (LetGo (i ∷ is) worker) set_released
      (λ x h u c. refl) (λ x h u c. ground (arith, h, c)) t.rows (All-every _ (λ j. refl) t.rows),
  Each-update_where (holds_any (i ∷ is) worker) (Spared (i ∷ is)) set_released
      (Spared-refl (i ∷ is)) t.rows
      (All-every _ (λ x h. (refl, refl, refl, refl, (λ n. absurd (listed x h n)))) t.rows),
)
  where
    listed : (x : Job) → holds_any (i ∷ is) worker x ≡ true → contains (i ∷ is) x.id ≡ false → ⊥
    listed x h n = ground (arith, h, n)

-- After the hand-back at shutdown the worker holds no job that it had claimed and not started; no
-- job has lost an attempt, a recovery or its time by it, and a job that was not in the worker's
-- queue is as it was.
pub hand_back_lem :
    (c : Settings) (t : JobTable) (p : Pool)
    → All
        (λ j. contains (ids p.ready) j.id ≡ true → owned_by c.worker j ≡ false)
        (hand_back c t p).0.rows
      × Each (Spared (ids p.ready)) t.rows (hand_back c t p).0.rows
unfolding hand_back
hand_back_lem c t p = release_jobs-LetGo (ids p.ready) c.worker t
