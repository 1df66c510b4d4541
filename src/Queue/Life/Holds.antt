-- ===== src/Queue/Life/Holds.antt =====
-- Every call of a history does to the table what it may.
use mathlib.Core.List.{append-nil, append_assoc}
use durable_queue.Prelude.{
  ℕ, ◌+◌, ◌<◌, ◌≡◌, refl, sym, ap, subst, ◌∙◌, String, Bool, true, List, [], ◌∷◌, ◌++◌, Option,
  none, some, inl, inr, arith, Bool-cases, Option-cases, &&_split, All, All-imp, All-append, Each,
  Distinct, contains,
}
use durable_queue.Sql.{delete_where}
use durable_queue.Jobs.{Job, JobTable, is_finished}
use durable_queue.Jobs.Rows.{ids}
use durable_queue.Jobs.Enqueue.{
  conflicting, new_row, upsert, enqueue, insert_rows, unnest, no_keys, enqueue_many, Outcome, ok,
  err,
}
use durable_queue.Jobs.Enqueue.Upsert.{upsert_new, upsert_old, insert_rows_ok}
use durable_queue.Jobs.Retention.{finished_before, outdated, outdated_ids, delete_completed_jobs}
use durable_queue.Jobs.Lifecycle.Refines.{
  Lives, claim_jobs-Lives, extend_leases-Lives, release_jobs-Lives, retry_job-Lives,
  reap_expired_jobs-Lives, bury_expired-Lives, recover_expired-Lives,
}
use durable_queue.Worker.Run.{World}
use durable_queue.Queue.{
  Call, enqueues, enqueues_many, claims, extends, hands_back, runs_transactional, runs_plain, fails,
  reaps, buries, recovers, purges, retries, accepted, perform,
}
use durable_queue.Queue.Steps.{
  Lived, recorded-Lived, run_transactional-Lived, run_plain-Lived, next_id-extend_leases,
  next_id-release_jobs,
}
use durable_queue.Queue.Reads.{purged_finished}
use durable_queue.Queue.Life.{Steps, IsFresh, Grows, IsOld, Thinned, nothing, keeps, drops, Allowed}
use durable_queue.Queue.Life.Moves.{finished_lem, Moves-Steps}

Grows-refl : (now : ℕ) (t : JobTable) → Grows now t t
Grows-refl now t = record {
  added = [];
  rows_added = sym (append-nil t.rows);
  fresh = tt;
  new_ids = tt;
  ids_go_on = omega arith;
}

Grows-trans : (now : ℕ) (t t' t'' : JobTable) → Grows now t t' → Grows now t' t'' → Grows now t t''
Grows-trans now t t' t'' a b = record {
  added = a.added ++ b.added;
  rows_added =
      b.rows_added
      ∙ ap (λ (l : List Job). l ++ b.added) a.rows_added
      ∙ append_assoc t.rows a.added b.added;
  fresh = All-append (IsFresh now) a.added b.added a.fresh b.fresh;
  new_ids =
      All-append _ a.added b.added
        (All-imp _ _ (λ j h. (h.0, omega (arith, h.1, b.ids_go_on))) a.added a.new_ids)
        (All-imp _ _ (λ j h. (omega (arith, h.0, a.ids_go_on), h.1)) b.added b.new_ids);
  ids_go_on = omega (arith, a.ids_go_on, b.ids_go_on);
}

upsert-Grows :
    (now : ℕ) (task args : String) (key : Option String) (t : JobTable)
    → Grows now t (upsert now task args key t).0
upsert-Grows now task args key t = elim (Option-cases (conflicting key t.rows)) [
  | inl e ↦
      subst (λ (r : JobTable × ℕ). Grows now t r.0) (sym (upsert_new now task args key t e))
        (record {
          added = new_row now t.next_id task args key ∷ [];
          rows_added = refl;
          fresh = ((refl, refl, refl, refl, refl, refl, refl, refl, refl), tt);
          new_ids = ((omega arith, omega arith), tt);
          ids_go_on = omega arith;
        })
  | inr (old, e) ↦
      subst (λ (r : JobTable × ℕ). Grows now t r.0) (sym (upsert_old now task args key t old e))
        (record {
          added = [];
          rows_added = sym (append-nil t.rows);
          fresh = tt;
          new_ids = tt;
          ids_go_on = omega arith;
        })
]

insert_rows-Grows :
    (now : ℕ) (task : String) (given : List (Option String × Option String)) (touched : List ℕ)
    (t t' : JobTable) (found : List ℕ)
    → insert_rows now task given touched t ≡ ok (t', found)
    → Grows now t t'
unfolding insert_rows
insert_rows-Grows now task [] touched t t' found e =
    subst (Grows now t) (ground arith) (Grows-refl now t)
insert_rows-Grows now task ((none, key) ∷ rest) touched t t' found e = cc
insert_rows-Grows now task ((some args, key) ∷ rest) touched t t' found e =
    let (found', _, _, e') = insert_rows_ok now task args key rest touched t t' found e in
    Grows-trans now t (upsert now task args key t).0 t' (upsert-Grows now task args key t)
      (insert_rows-Grows now task rest _ _ t' found' e')

enqueue_many-Grows :
    (now : ℕ) (task : String) (args_list : List String) (keys : Option (List (Option String)))
    (t t' : JobTable) (found : List ℕ)
    → enqueue_many now task args_list keys t ≡ ok (t', found)
    → Grows now t t'
unfolding enqueue_many
enqueue_many-Grows now task [] keys t t' found e =
    subst (Grows now t) (ground arith) (Grows-refl now t)
enqueue_many-Grows now task (a ∷ args) none t t' found e =
    insert_rows-Grows now task (unnest (a ∷ args) (no_keys (a ∷ args))) [] t t' found e
enqueue_many-Grows now task (a ∷ args) (some given) t t' found e =
    insert_rows-Grows now task (unnest (a ∷ args) given) [] t t' found e

accepted-Grows :
    (now : ℕ) (task : String) (args_list : List String) (keys : Option (List (Option String)))
    (t : JobTable) (o : Outcome (JobTable × List ℕ))
    → enqueue_many now task args_list keys t ≡ o
    → Grows now t (accepted t o)
accepted-Grows now task args_list keys t (ok (t', found)) e =
    enqueue_many-Grows now task args_list keys t t' found e
accepted-Grows now task args_list keys t (err x) e = Grows-refl now t

finished_at_lem :
    (o : Option ℕ) (now older_than : ℕ)
    → finished_before now older_than o ≡ true
    → (at : ℕ) × (o ≡ some at) × (at + older_than < now)
finished_at_lem none now older_than e = cc
finished_at_lem (some at) now older_than e = (at, refl, ground (arith, e))

outdated-IsOld :
    (now older_than : ℕ) (j : Job) → outdated now older_than j ≡ true → IsOld now older_than j
outdated-IsOld now older_than j e =
    let (over, late) = &&_split (is_finished j.status) _ e in
    (finished_lem j.status over, finished_at_lem j.finished_at now older_than late)

delete_where-Thinned {ℓ} :
    {A : Type ℓ} (P : A → Type 0) (p : A → Bool) (xs : List A)
    → All (λ x. p x ≡ true → P x) xs
    → Thinned P xs (delete_where p xs)
unfolding delete_where
delete_where-Thinned P p [] h = nothing
delete_where-Thinned P p (x ∷ xs) h = elim (Bool-cases (p x)) [
  | inl e ↦ rw e (drops x (h.0 e) (delete_where-Thinned P p xs h.1))
  | inr e ↦ rw e (keeps x (delete_where-Thinned P p xs h.1))
]

module _ (now : ℕ) (worker : String) where
  Lives-Steps : (xs ys : List Job) → Lives now worker xs ys → Each (Steps now worker) xs ys
  Lives-Steps [] [] h = tt
  Lives-Steps (x ∷ xs) (y ∷ ys) h = (Moves-Steps h.0, Lives-Steps xs ys h.1)
  Lives-Steps [] (y ∷ ys) h = absurd h
  Lives-Steps (x ∷ xs) [] h = absurd h

  stepped :
      (t t' : JobTable)
      → Lived now worker t t'
      → Each (Steps now worker) t.rows t'.rows × (t'.next_id ≡ t.next_id)
  stepped t t' l = (Lives-Steps t.rows t'.rows l.0, l.1)

  -- On a table with distinct ids, each call of a history, a whole run of a task included, does to
  -- the table what a specification by columns allows: enqueueing adds fresh pending jobs with new
  -- ids behind the rows, a purge removes only jobs that finished longer ago than it says, and any
  -- other call takes each row, in its place, through steps of a job's life: each step has the
  -- status, owner, lease or time that it needs, and changes the columns that it names.
  pub perform-Allowed :
      (locked : ℕ → Bool) (c : Call) (w : World)
      → Distinct (ids w.jobs.rows)
      → Allowed now worker c w.jobs (perform now worker locked c w).jobs
  unfolding perform enqueue delete_completed_jobs
  perform-Allowed locked (enqueues task args key) w d = upsert-Grows now task args key w.jobs
  perform-Allowed locked (enqueues_many task args_list keys) w d =
      accepted-Grows now task args_list keys w.jobs _ refl
  perform-Allowed locked (claims lease n) w d =
      stepped w.jobs _ (claim_jobs-Lives now worker locked lease n w.jobs d, refl)
  perform-Allowed locked (extends job_ids lease) w d = stepped w.jobs _ (
    extend_leases-Lives now worker job_ids lease w.jobs,
    next_id-extend_leases now job_ids worker lease w.jobs,
  )
  perform-Allowed locked (hands_back job_ids) w d =
      stepped w.jobs _
        (release_jobs-Lives now worker job_ids w.jobs, next_id-release_jobs job_ids worker w.jobs)
  perform-Allowed locked (runs_transactional job max_attempts fault run) w d =
      stepped w.jobs _ (run_transactional-Lived now worker job max_attempts fault run w)
  perform-Allowed locked (runs_plain job max_attempts fault run) w d =
      stepped w.jobs _ (run_plain-Lived now worker job max_attempts fault run w)
  perform-Allowed locked (fails job_id draw f) w d =
      stepped w.jobs _ (recorded-Lived now worker draw job_id f w.jobs _ d refl)
  perform-Allowed locked (reaps locked' n) w d =
      stepped w.jobs _ (reap_expired_jobs-Lives now worker locked locked' n w.jobs d, refl)
  perform-Allowed locked (buries n) w d =
      stepped w.jobs _ (bury_expired-Lives now worker locked n w.jobs d, refl)
  perform-Allowed locked (recovers n) w d =
      stepped w.jobs _ (recover_expired-Lives now worker locked n w.jobs d, refl)
  perform-Allowed locked (purges older_than n) w d = (
    delete_where-Thinned (IsOld now older_than)
        (λ j. contains (outdated_ids now locked older_than n w.jobs.rows) j.id) w.jobs.rows
        (All-imp _ _ (λ j old chosen. outdated-IsOld now older_than j (old chosen)) w.jobs.rows
          (purged_finished now locked older_than n w.jobs.rows d)),
    refl,
  )
  perform-Allowed locked (retries job_id) w d =
      stepped w.jobs _ (retry_job-Lives now worker job_id w.jobs, refl)
