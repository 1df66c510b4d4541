-- ===== src/Queue/Invariant.antt =====
-- The invariant of the `jobs` table, along any history.
use durable_queue.Prelude.{ℕ, sym, subst, String, Bool, List, [], ◌∷◌}
use durable_queue.Jobs.{JobTable, no_jobs}
use durable_queue.Jobs.Wellformed.{IsWell}
use durable_queue.Jobs.Wellformed.Changes.{Lives-IsWell, delete_completed_jobs-IsWell}
use durable_queue.Jobs.Wellformed.Inserts.{enqueue-IsWell, enqueue_many-IsWell}
use durable_queue.Worker.Run.{World}
use durable_queue.Queue.{Call, Event, perform, step, history}
use durable_queue.Queue.Steps.{Change, lives, inserts, inserts_many, purged, perform-Change}

pub Change-IsWell :
    {now : ℕ} {worker : String} (t t' : JobTable) → Change now worker t t' → IsWell t → IsWell t'
Change-IsWell {now} {worker} t t' (lives rows next) v = Lives-IsWell now worker t t' rows next v
Change-IsWell {now} t t' (inserts task args key e) v =
    subst IsWell (sym e) (enqueue-IsWell now task args key t v)
Change-IsWell {now} t t' (inserts_many task args_list keys found e) v =
    enqueue_many-IsWell now task args_list keys t t' found e v
Change-IsWell {now} t t' (purged locked older_than batch e) v =
    subst IsWell (sym e) (delete_completed_jobs-IsWell now locked older_than batch t v)

pub perform-IsWell :
    (now : ℕ) (worker : String) (locked : ℕ → Bool) (c : Call) (w : World)
    → IsWell w.jobs
    → IsWell (perform now worker locked c w).jobs
perform-IsWell now worker locked c w v =
    Change-IsWell w.jobs _ (perform-Change now worker locked c w v.distinct) v

-- From a well-formed table any history ends in a well-formed table: distinct ids below the
-- sequence, no idempotency key twice, lease columns and finished_at those of the status, and
-- attempts left where a job may still run.
pub history-IsWell : (es : List Event) (w : World) → IsWell w.jobs → IsWell (history es w).jobs
unfolding history step
history-IsWell [] w v = v
history-IsWell (e ∷ es) w v =
    history-IsWell es _ (perform-IsWell e.now e.worker e.locked e.call w v)

-- An empty table satisfies it.
pub no_jobs-IsWell : IsWell no_jobs
no_jobs-IsWell = record { distinct = tt; below = tt; distinct_keys = tt; shaped = tt; triable = tt }
