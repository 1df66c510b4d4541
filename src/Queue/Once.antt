-- ===== src/Queue/Once.antt =====
-- A task that takes a `conn` has its writes committed once at most for each job.
use durable_queue.Prelude.{
  ℕ, ◌<◌, ◌≡◌, refl, sym, subst, String, Bool, true, false, List, [], ◌∷◌, map, Option, none, some,
  inl, inr, arith, Bool-cases, Distinct, contains, All, All-imp, ◌==◌,
}
use durable_queue.Sql.{select_where, fetch_one}
use durable_queue.Sql.Laws.{All-fetch_one, All-update_where, fetch_one-some}
use durable_queue.Jobs.{Job, JobTable, succeeded, holds}
use durable_queue.Jobs.Rows.{holds-has_id}
use durable_queue.Jobs.Finish.{has_id, set_succeeded, is_found, mark_succeeded_in_transaction}
use durable_queue.Jobs.Wellformed.{IsWell}
use durable_queue.Worker.Run.{
  World, Written, TaskRun, Fault, fine, lost_before, lost_after, commit, run_transactional,
  run_plain,
}
use durable_queue.Queue.{
  Call, runs_transactional, runs_plain, Event, perform, step, history, new_world,
}
use durable_queue.Queue.Steps.{Change, perform-Change, Ending-cases}
use durable_queue.Queue.Invariant.{perform-IsWell, no_jobs-IsWell}
use durable_queue.Queue.Over.{Done, Change-Done}

abbrev pub job_ids : List Written → List ℕ
job_ids ws = map (λ c. c.job_id) ws

pub record IsOnce (w : World) : Type 0 where
  pub well : IsWell w.jobs
  pub once : Distinct (job_ids w.committed)
  pub over : All (λ c. Done c.job_id w.jobs) w.committed

-- What a call adds to the committed writes: nothing, or those of a job that its worker then held.
data Commits (now : ℕ) (worker : String) (w w' : World) : Type 0 where
  commits_nothing : w'.committed ≡ w.committed → Commits now worker w w'
  commits_one :
      (c : Written) (row : Job)
      → fetch_one (select_where (holds c.job_id worker) w.jobs.rows) ≡ some row
      → w'.committed ≡ c ∷ w.committed
      → w'.jobs ≡ (mark_succeeded_in_transaction now c.job_id worker w.jobs).0
      → Commits now worker w w'

module _ (now : ℕ) (worker : String) where
  is_found-some : (o : Option Job) → is_found o ≡ true → (row : Job) × (o ≡ some row)
  is_found-some none h = cc
  is_found-some (some row) h = (row, refl)

  commit-Commits :
      (fault : Fault) (max_attempts : Option ℕ) (w w' : World)
      → Commits now worker w w'
      → Commits now worker w (commit fault max_attempts w w').0
  commit-Commits fine max_attempts w w' c = c
  commit-Commits (lost_before e) max_attempts w w' c = commits_nothing refl
  commit-Commits (lost_after e) max_attempts w w' c = c

  -- A plain task's completion commits no writes of its own.
  commit-same :
      (fault : Fault) (max_attempts : Option ℕ) (w u v : World)
      → u.committed ≡ w.committed
      → v.committed ≡ w.committed
      → Commits now worker w (commit fault max_attempts u v).0
  commit-same fine max_attempts w u v a b = commits_nothing b
  commit-same (lost_before e) max_attempts w u v a b = commits_nothing a
  commit-same (lost_after e) max_attempts w u v a b = commits_nothing b

  run_transactional-Commits :
      (job : Job) (max_attempts : Option ℕ) (fault : Fault) (run : TaskRun) (w : World)
      → Commits now worker w (run_transactional now job worker max_attempts fault run w).0
  unfolding run_transactional mark_succeeded_in_transaction
  run_transactional-Commits job max_attempts fault run w = elim (Ending-cases run.ending) [
    | inl e ↦
        elim (Bool-cases (is_found (fetch_one (select_where (holds job.id worker) w.jobs.rows)))) [
          | inl held ↦
              let (row, found) = is_found-some _ held in
              rw (e, held, run_transactional)
                (commit-Commits fault max_attempts w _ (
                  commits_one (record { job_id = job.id; writes = run.writes }) row found refl
                    refl))
          | inr gone ↦ rw (e, gone, run_transactional) (commits_nothing refl)
        ]
    | inr (error, permanent, e) ↦ rw (e, run_transactional) (commits_nothing refl)
  ]

  run_plain-Commits :
      (job : Job) (max_attempts : Option ℕ) (fault : Fault) (run : TaskRun) (w : World)
      → Commits now worker w (run_plain now job worker max_attempts fault run w).0
  unfolding run_plain
  run_plain-Commits job max_attempts fault run w = elim (Ending-cases run.ending) [
    | inl e ↦ rw (e, run_plain) (commit-same fault max_attempts w _ _ refl refl)
    | inr (error, permanent, e) ↦ rw (e, run_plain) (commits_nothing refl)
  ]

  perform-Commits :
      (locked : ℕ → Bool) (c : Call) (w : World)
      → Commits now worker w (perform now worker locked c w)
  unfolding perform
  perform-Commits locked (runs_transactional job max_attempts fault run) w =
      run_transactional-Commits job max_attempts fault run w
  perform-Commits locked (runs_plain job max_attempts fault run) w =
      run_plain-Commits job max_attempts fault run w
  perform-Commits locked _ w = commits_nothing refl

  -- Completing a job that is held finishes it,
  completed-Done :
      (i : ℕ) (row : Job) (t : JobTable)
      → IsWell t
      → fetch_one (select_where (holds i worker) t.rows) ≡ some row
      → Done i (mark_succeeded_in_transaction now i worker t).0
  unfolding mark_succeeded_in_transaction
  completed-Done i row t v found = (
    ground (
      arith,
      All-fetch_one (holds i worker) (λ j. j.id < t.next_id) t.rows row v.below found,
      fetch_one-some (holds i worker) t.rows row found,
    ),
    All-update_where (holds i worker) (λ j. holds i worker j ≡ has_id i j) _ (set_succeeded now)
        (λ j h same e. refl) (λ j h same e. absurd (unheld j h same e)) t.rows
        (holds-has_id i worker row t.rows v.distinct found),
  )
    where
      unheld : (j : Job) → holds i worker j ≡ false → holds i worker j ≡ has_id i j → j.id ≡ i → ⊥
      unheld j h same e = ground arith

  -- which a job that is over cannot be.
  held-not-Done :
      (i : ℕ) (row : Job) (t : JobTable)
      → fetch_one (select_where (holds i worker) t.rows) ≡ some row
      → Done i t
      → ⊥
  held-not-Done i row t found d = ground (
    arith,
    All-fetch_one (holds i worker) (λ j. j.id ≡ i → j.status ≡ succeeded) t.rows row d.1 found,
    fetch_one-some (holds i worker) t.rows row found,
  )

  absent-Done :
      (i : ℕ) (row : Job) (t : JobTable) (ws : List Written)
      → fetch_one (select_where (holds i worker) t.rows) ≡ some row
      → All (λ c. Done c.job_id t) ws
      → contains (job_ids ws) i ≡ false
  absent-Done i row t [] found h = refl
  absent-Done i row t (c ∷ ws) found h = elim (Bool-cases (c.job_id == i)) [
    | inl e ↦
        let same : i ≡ c.job_id = ground arith in
        absurd (held-not-Done i row t found (subst (λ n. Done n t) (sym same) h.0))
    | inr e ↦ rw (e, absent-Done i row t ws found h.1)
  ]

  still_over :
      (w w' : World)
      → Change now worker w.jobs w'.jobs
      → (ws : List Written) → All (λ c. Done c.job_id w.jobs) ws
      → All (λ c. Done c.job_id w'.jobs) ws
  still_over w w' ch = All-imp _ _ (λ c. Change-Done c.job_id w.jobs w'.jobs ch)

  perform-IsOnce :
      (locked : ℕ → Bool) (c : Call) (w : World) → IsOnce w → IsOnce (perform now worker locked c w)
  perform-IsOnce locked c w v =
      by_commit _ (perform-Commits locked c w)
        (perform-Change now worker locked c w v.well.distinct)
        (perform-IsWell now worker locked c w v.well)
    where
      by_commit :
          (w' : World)
          → Commits now worker w w'
          → Change now worker w.jobs w'.jobs
          → IsWell w'.jobs
          → IsOnce w'
      by_commit w' (commits_nothing e) ch well = record {
        well = well;
        once = rw e v.once;
        over = rw e (still_over w w' ch w.committed v.over);
      }
      by_commit w' (commits_one c row found e e') ch well = record {
        well = well;
        once = rw e (absent-Done c.job_id row w.jobs w.committed found v.over, v.once);
        over = rw e (
          subst (Done c.job_id) (sym e') (completed-Done c.job_id row w.jobs v.well found),
          still_over w w' ch w.committed v.over,
        );
      }

pub history-IsOnce : (es : List Event) (w : World) → IsOnce w → IsOnce (history es w)
unfolding history step
history-IsOnce [] w v = v
history-IsOnce (e ∷ es) w v =
    history-IsOnce es _ (perform-IsOnce e.now e.worker e.locked e.call w v)

-- From an empty world, over any history of the modelled calls by any processes, with connections
-- lost before or after a commit: no job's id occurs twice among the transactional tasks whose
-- writes are committed, and the row of each job among them, as long as it is kept, has succeeded.
pub exactly_once :
    (es : List Event)
    → Distinct (job_ids (history es new_world).committed)
      × All (λ c. Done c.job_id (history es new_world).jobs) (history es new_world).committed
exactly_once es =
    let v = history-IsOnce es new_world (record { well = no_jobs-IsWell; once = tt; over = tt }) in
    (v.once, v.over)
