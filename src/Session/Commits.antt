-- ===== src/Session/Commits.antt =====
-- What the end of a session's transaction shows, and whom it wakes.
use durable_queue.Prelude.{◌≡◌, refl, Bool, true, false, if◌then◌else◌}
use durable_queue.Jobs.Enqueue
use durable_queue.Wakeup.{wake}
use durable_queue.Session.{Session, commit, rollback}

if_true {ℓ} : {A : Type ℓ} (b : Bool) (x y : A) → b ≡ true → (if b then x else y) ≡ x
if_true true x y e = refl
if_true false x y e = cc

-- Of a session in a transaction, next to what it was before.
record IsWithin (before s : Session) (told : Bool) : Type 0 where
  quiet : s.generation ≡ before.generation
  unseen : s.committed ≡ before.committed
  flagged : s.enqueued ≡ told
  heard : s.enqueued ≡ true → s.listening ≡ true

-- A statement that is not refused.
record Goes (before s : Session) (told : Bool) : Type 0 where
  within : IsWithin before s told
  alive : s.aborted ≡ false

-- What a commit and a rollback come to, where no statement was refused and where one was.
abbrev pub Ends : (before s : Session) (told refused : Bool) → Type 0
Ends before s told refused =
    ((commit s).committed ≡ (if refused then before.committed else s.jobs))
    × ((commit s).jobs.rows ≡ (commit s).committed.rows)
    × ((commit s).generation ≡ (if told then wake before.generation else before.generation))
    × ((commit s).enqueued ≡ false)
    × ((commit s).aborted ≡ false)
    × ((rollback s).committed ≡ before.committed)
    × ((rollback s).jobs.rows ≡ before.committed.rows)
    × ((rollback s).generation ≡ before.generation)
    × ((rollback s).enqueued ≡ false)
    × ((rollback s).aborted ≡ false)
