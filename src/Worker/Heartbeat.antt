-- ===== src/Worker/Heartbeat.antt =====
-- worker.py: _Heartbeat. Times here are the process's monotonic clock, in microseconds.
pub mod Deadline
use durable_queue.Prelude.{
  ℕ, ◌+◌, String, Bool, true, List, [], ◌∷◌, map, Option, none, some, ltb, ◌==◌, if◌then◌else◌,
}
use durable_queue.Sql.{select_where}
use durable_queue.Jobs.{JobTable}
use durable_queue.Jobs.Leases.{extend_leases}

-- _deadlines: dict[int, float | None], in insertion order.
abbrev pub Deadlines : Type 0
Deadlines = List (ℕ × Option ℕ)

-- self._deadlines[job_id] = deadline
unfoldable pub put : ℕ → Option ℕ → Deadlines → Deadlines
put job_id deadline [] = (job_id, deadline) ∷ []
put job_id deadline ((i, d) ∷ rest) =
    if i == job_id then (i, deadline) ∷ rest else (i, d) ∷ put job_id deadline rest

-- self._deadlines.pop(job_id, None)
unfoldable pub pop : ℕ → Deadlines → Deadlines
pop job_id [] = []
pop job_id ((i, d) ∷ rest) = if i == job_id then rest else (i, d) ∷ pop job_id rest

abbrev pub deadline_of : ℕ → Option ℕ → Option ℕ
deadline_of now none = none
deadline_of now (some max_execution) = some (now + max_execution)

put_all : List ℕ → Option ℕ → Deadlines → Deadlines
unfolding put
put_all [] deadline ds = ds
put_all (i ∷ is) deadline ds = put_all is deadline (put i deadline ds)

unfoldable pub hold : ℕ → List ℕ → Option ℕ → Deadlines → Deadlines
unfolding put_all
hold now job_ids max_execution ds = put_all job_ids (deadline_of now max_execution) ds

unfoldable pub release : List ℕ → Deadlines → Deadlines
unfolding pop
release [] ds = ds
release (i ∷ is) ds = release is (pop i ds)

-- deadline is None or now < deadline
abbrev pub is_live : ℕ → Option ℕ → Bool
is_live now none = true
is_live now (some deadline) = ltb now deadline

unfoldable pub live : ℕ → Deadlines → List ℕ
unfolding select_where
live now ds = map (λ d. d.0) (select_where (λ d. is_live now d.1) ds)

-- What a beat does to its own connection: nothing, extends leases over it, or closes it.
pub data Beat : Type 0 where
  idles closes : Beat
  extends : List ℕ → Beat

-- One round of the loop, when `_stop` is not set. `reachable` tells whether extend_leases succeeds.
unfoldable pub beat :
    ℕ → ℕ → String → ℕ → (close_when_idle reachable : Bool) → Deadlines → JobTable → JobTable × Beat
unfolding live extend_leases
beat mono now worker lease close_when_idle reachable ds t = elim (live mono ds) [
  | [] ↦ (t, if close_when_idle then closes else idles)
  | i ∷ is ↦
      if reachable
      then (extend_leases now (i ∷ is) worker lease t, extends (i ∷ is))
      else (t, closes)
]
