-- ===== src/Jobs/Lifecycle/Invariants.antt =====
-- What every change of a row keeps.
use durable_queue.Prelude.{
  ℕ, ◌<◌, ◌+◌, String, true, false, ◌≡◌, Option, none, some, arith, refl, subst, sym, ◌∙◌,
}
use durable_queue.Prelude.{&&_split, ap, max}
use durable_queue.Jobs.Claim.{due}
use durable_queue.Jobs.Reap.{expired}
use durable_queue.Jobs.{
  is_text, is_finished, Job, Status, pending, running, succeeded, dead, owned_by, is_pending,
  is_running, is_dead,
}
use durable_queue.Jobs.Lifecycle.{
  Move, Moves, claimed, extended, released, completed, retried, buried, recovered, poisoned_out,
  reset, stays, goes,
}

module _ {now : ℕ} {worker : String} (P : Job → Type 0)
    (step : (j k : Job) → Move now worker j k → P j → P k) where
  pub Moves-induction : {j k : Job} → Moves now worker j k → P j → P k
  Moves-induction stays h = h
  Moves-induction (goes {m} {k} s m1) h = step m k m1 (Moves-induction s h)

-- The columns that the status decides. A completed row keeps the worker that completed it.
abbrev pub IsNull {ℓ} : {A : Type ℓ} → Option A → Type 0
IsNull none = Unit
IsNull (some a) = ⊥

abbrev pub IsFilled {ℓ} : {A : Type ℓ} → Option A → Type 0
IsFilled none = ⊥
IsFilled (some a) = Unit

abbrev pub Shape : Status → Option String → Option ℕ → Option ℕ → Type 0
Shape pending by until finished = IsNull by × IsNull until × IsNull finished
Shape running by until finished = IsFilled by × IsFilled until × IsNull finished
Shape succeeded by until finished = IsFilled by × IsFilled until × IsFilled finished
Shape dead by until finished = IsNull by × IsNull until × IsFilled finished

abbrev pub IsShaped : Job → Type 0
IsShaped j = Shape j.status j.locked_by j.locked_until j.finished_at

module _ (by : Option String) (until finished : Option ℕ) where
  pending-Shape :
      (s : Status)
      → is_pending s ≡ true
      → Shape s by until finished
      → Shape pending by until finished
  pending-Shape pending e h = h
  pending-Shape running e h = cc
  pending-Shape succeeded e h = cc
  pending-Shape dead e h = cc

  running-Shape :
      (s : Status)
      → is_running s ≡ true
      → Shape s by until finished
      → Shape running by until finished
  running-Shape pending e h = cc
  running-Shape running e h = h
  running-Shape succeeded e h = cc
  running-Shape dead e h = cc

  Shape-running :
      (s : Status)
      → is_running s ≡ true
      → Shape running by until finished
      → Shape s by until finished
  Shape-running pending e h = cc
  Shape-running running e h = h
  Shape-running succeeded e h = cc
  Shape-running dead e h = cc

  dead-Shape :
      (s : Status) → is_dead s ≡ true → Shape s by until finished → Shape dead by until finished
  dead-Shape pending e h = cc
  dead-Shape running e h = cc
  dead-Shape succeeded e h = cc
  dead-Shape dead e h = h

-- The shape of a row whose status a guard has tested.
module _ (j : Job) (h : IsShaped j) where
  due-Shape : (now : ℕ) → due now j ≡ true → IsNull j.finished_at
  due-Shape now d =
      (pending-Shape j.locked_by j.locked_until j.finished_at j.status
        (&&_split (is_pending j.status) _ d).0 h).2

  owned-Shape :
      (worker : String)
      → owned_by worker j ≡ true
      → Shape running j.locked_by j.locked_until j.finished_at
  owned-Shape worker o =
      running-Shape j.locked_by j.locked_until j.finished_at j.status
        (&&_split (is_text j.locked_by worker) _ o).1 h

  expired-Shape :
      (now : ℕ) → expired now j ≡ true → Shape running j.locked_by j.locked_until j.finished_at
  expired-Shape now x =
      running-Shape j.locked_by j.locked_until j.finished_at j.status
        (&&_split (is_running j.status) _ x).0 h

-- Every change keeps the columns that belong to a status.
pub IsShaped-Move :
    {now : ℕ} {worker : String} (j k : Job) → Move now worker j k → IsShaped j → IsShaped k
IsShaped-Move j k (claimed lease d e) h = subst IsShaped (sym e) (tt, tt, due-Shape j h _ d)
IsShaped-Move {now} {worker} j k (extended lease o e) h =
    let s = owned-Shape j h _ o in
    subst IsShaped (sym e) (
      Shape-running j.locked_by (some (now + lease)) j.finished_at j.status
        (&&_split (is_text j.locked_by worker) _ o).1 (s.0, tt, s.2))
IsShaped-Move j k (released o e) h = subst IsShaped (sym e) (tt, tt, (owned-Shape j h _ o).2)
IsShaped-Move j k (completed o e) h =
    let s = owned-Shape j h _ o in subst IsShaped (sym e) (s.0, s.1, tt)
IsShaped-Move j k (retried f delay o n e) h =
    subst IsShaped (sym e) (tt, tt, (owned-Shape j h _ o).2)
IsShaped-Move j k (buried f o n e) h = subst IsShaped (sym e) (tt, tt, tt)
IsShaped-Move j k (recovered x e) h = subst IsShaped (sym e) (tt, tt, (expired-Shape j h _ x).2)
IsShaped-Move j k (poisoned_out x e) h = subst IsShaped (sym e) (tt, tt, tt)
IsShaped-Move j k (reset d e) h =
    let s = dead-Shape j.locked_by j.locked_until j.finished_at j.status d h in
    subst IsShaped (sym e) (s.0, s.1, tt)

-- A job that may still run has attempts left, or has never failed.
abbrev pub IsTriable : Job → Type 0
IsTriable j = is_finished j.status ≡ false → j.attempts < max 1 j.max_attempts

pub IsTriable-Move :
    {now : ℕ} {worker : String} (j k : Job) → Move now worker j k → IsTriable j → IsTriable k
IsTriable-Move j k (claimed lease d e) h = ground arith
IsTriable-Move j k (extended lease o e) h = ground arith
IsTriable-Move j k (released o e) h = ground arith
IsTriable-Move j k (completed o e) h = ground arith
IsTriable-Move j k (retried f delay o n e) h = ground arith
IsTriable-Move j k (buried f o n e) h = ground arith
IsTriable-Move j k (recovered x e) h = ground arith
IsTriable-Move j k (poisoned_out x e) h = ground arith
IsTriable-Move j k (reset d e) h = ground arith

-- The columns that no statement but the INSERT writes.
pub record SameJob (j k : Job) : Type 0 where
  pub id : k.id ≡ j.id
  pub task : k.task ≡ j.task
  pub args : k.args ≡ j.args
  pub idempotency_key : k.idempotency_key ≡ j.idempotency_key
  pub created_at : k.created_at ≡ j.created_at
  pub max_recoveries : k.max_recoveries ≡ j.max_recoveries

pub Move-SameJob : {now : ℕ} {worker : String} (j k : Job) → Move now worker j k → SameJob j k
Move-SameJob j k (claimed lease d e) = ground arith
Move-SameJob j k (extended lease o e) = ground arith
Move-SameJob j k (released o e) = ground arith
Move-SameJob j k (completed o e) = ground arith
Move-SameJob j k (retried f delay o n e) = ground arith
Move-SameJob j k (buried f o n e) = ground arith
Move-SameJob j k (recovered x e) = ground arith
Move-SameJob j k (poisoned_out x e) = ground arith
Move-SameJob j k (reset d e) = ground arith

-- Nothing happens to a job that has succeeded.
pub succeeded-not-Move :
    {now : ℕ} {worker : String} (j k : Job) → Move now worker j k → j.status ≡ succeeded → ⊥
succeeded-not-Move j k (claimed lease d e) s = ground arith
succeeded-not-Move j k (extended lease o e) s = ground arith
succeeded-not-Move j k (released o e) s = ground arith
succeeded-not-Move j k (completed o e) s = ground arith
succeeded-not-Move j k (retried f delay o n e) s = ground arith
succeeded-not-Move j k (buried f o n e) s = ground arith
succeeded-not-Move j k (recovered x e) s = ground arith
succeeded-not-Move j k (poisoned_out x e) s = ground arith
succeeded-not-Move j k (reset d e) s = ground arith

pub succeeded-Moves :
    {now : ℕ} {worker : String} {j k : Job} → Moves now worker j k → j.status ≡ succeeded → k ≡ j
succeeded-Moves stays s = refl
succeeded-Moves (goes {m} {k} r m1) s =
    let e = succeeded-Moves r s in
    absurd (succeeded-not-Move m k m1 (ap (λ (x : Job). x.status) e ∙ s))
