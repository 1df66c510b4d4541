-- ===== src/Queue/Life/Moves.antt =====
-- The guards and the setters of jobs.py come to the steps that a call may take.
use durable_queue.Prelude.{
  ℕ, ◌+◌, ◌≤◌, ◌<◌, ◌≡◌, refl, ap, String, Bool, true, false, ◌||◌, Option, none, some, inl, inr,
  ◌⊎◌, arith, &&_split, eq_iff, leb,
}
use durable_queue.Jobs.{
  Job, Status, pending, running, succeeded, dead, is_pending, is_running, is_dead, is_finished,
  is_text, owned_by,
}
use durable_queue.Jobs.Reap.{is_before, expired}
use durable_queue.Jobs.Finish.{coalesce}
use durable_queue.Jobs.Lifecycle
use durable_queue.Jobs.Lifecycle.{Move, Moves}
use durable_queue.Queue.Life.{
  Owns, Lapsed, LifeStep, claimed, extended, released, completed, retried, failed, recovered,
  buried, reset, Steps, stays, goes,
}

pending_lem : (s : Status) → is_pending s ≡ true → s ≡ pending
pending_lem pending e = refl
pending_lem running e = cc
pending_lem succeeded e = cc
pending_lem dead e = cc

running_lem : (s : Status) → is_running s ≡ true → s ≡ running
running_lem pending e = cc
running_lem running e = refl
running_lem succeeded e = cc
running_lem dead e = cc

dead_lem : (s : Status) → is_dead s ≡ true → s ≡ dead
dead_lem pending e = cc
dead_lem running e = cc
dead_lem succeeded e = cc
dead_lem dead e = refl

pub finished_lem : (s : Status) → is_finished s ≡ true → (s ≡ succeeded) ⊎ (s ≡ dead)
finished_lem pending e = cc
finished_lem running e = cc
finished_lem succeeded e = inl refl
finished_lem dead e = inr refl

text_lem : (o : Option String) (w : String) → is_text o w ≡ true → o ≡ some w
text_lem none w e = cc
text_lem (some v) w e = ap some ((eq_iff v w).0 e)

owned-Owns : (worker : String) (j : Job) → owned_by worker j ≡ true → Owns worker j
owned-Owns worker j o =
    let (by, runs) = &&_split (is_text j.locked_by worker) _ o in
    (running_lem j.status runs, text_lem j.locked_by worker by)

before_lem :
    (o : Option ℕ) (now : ℕ)
    → is_before o now ≡ true
    → (until : ℕ) × (o ≡ some until) × (until < now)
before_lem none now e = cc
before_lem (some at) now e = (at, refl, ground (arith, e))

expired-Lapsed : (now : ℕ) (j : Job) → expired now j ≡ true → Lapsed now j
expired-Lapsed now j x =
    let (runs, late) = &&_split (is_running j.status) _ x in
    (running_lem j.status runs, before_lem j.locked_until now late)

permanent_lem : (p : Bool) (n m : ℕ) → (p || leb n m) ≡ true → p ≡ false → n ≤ m
permanent_lem true n m e f = cc
permanent_lem false n m e f = ground (arith, e)

more_lem : (p : Bool) (n m : ℕ) → (p || leb n m) ≡ false → m < n
more_lem true n m e = cc
more_lem false n m e = ground (arith, e)

Move-LifeStep :
    {now : ℕ} {worker : String} (j k : Job) → Move now worker j k → LifeStep now worker j k
Move-LifeStep {now} j k (Lifecycle.claimed lease d e) =
    let (waits, comes) = &&_split (is_pending j.status) _ d in
    claimed lease (pending_lem j.status waits) (ground (arith, comes)) e
Move-LifeStep {now} {worker} j k (Lifecycle.extended lease o e) =
    extended lease (owned-Owns worker j o) e
Move-LifeStep {now} {worker} j k (Lifecycle.released o e) = released (owned-Owns worker j o) e
Move-LifeStep {now} {worker} j k (Lifecycle.completed o e) = completed (owned-Owns worker j o) e
Move-LifeStep {now} {worker} j k (Lifecycle.retried f delay o n e) =
    retried (coalesce f.max_attempts j.max_attempts) delay f.error (owned-Owns worker j o)
      (more_lem f.permanent (coalesce f.max_attempts j.max_attempts) (j.attempts + 1) n) e
Move-LifeStep {now} {worker} j k (Lifecycle.buried f o n e) =
    failed (coalesce f.max_attempts j.max_attempts) f.permanent f.error (owned-Owns worker j o)
      (permanent_lem f.permanent (coalesce f.max_attempts j.max_attempts) (j.attempts + 1) n) e
Move-LifeStep {now} j k (Lifecycle.recovered x e) = recovered (expired-Lapsed now j x) e
Move-LifeStep {now} j k (Lifecycle.poisoned_out x e) =
    let (lapses, used) = &&_split (expired now j) _ x in
    buried (expired-Lapsed now j lapses) (ground (arith, used)) e
Move-LifeStep j k (Lifecycle.reset d e) = reset (dead_lem j.status d) e

pub Moves-Steps :
    {now : ℕ} {worker : String} {j k : Job} → Moves now worker j k → Steps now worker j k
Moves-Steps Lifecycle.stays = stays
Moves-Steps (Lifecycle.goes {m} {k} s m1) = goes (Moves-Steps s) (Move-LifeStep m k m1)
