-- ===== src/Queue/Over.antt =====
-- A job that has succeeded stays so, as long as its row is kept.
use durable_queue.Prelude.{
  ℕ, ◌<◌, ◌≡◌, sym, ap, ◌∙◌, subst, String, List, [], ◌∷◌, Option, none, some, inl, inr, arith,
  Option-cases, All, All-append, All-Each,
}
use durable_queue.Sql.Laws.{All-delete_where}
use durable_queue.Jobs.{Job, JobTable, succeeded}
use durable_queue.Jobs.Enqueue.{
  enqueue, upsert, conflicting, enqueue_many, insert_rows, unnest, no_keys, ok,
}
use durable_queue.Jobs.Enqueue.Upsert.{upsert_new, upsert_old, insert_rows_ok}
use durable_queue.Jobs.Retention.{delete_completed_jobs}
use durable_queue.Jobs.Lifecycle.{Moves}
use durable_queue.Jobs.Lifecycle.Invariants.{succeeded-Moves}
use durable_queue.Jobs.Lifecycle.Refines.{Moves-id}
use durable_queue.Queue.Steps.{Change, lives, inserts, inserts_many, purged}

-- The job is over: its id is given out, and its row, as long as it is kept, has succeeded.
abbrev pub Done : ℕ → JobTable → Type 0
Done i t = (i < t.next_id) × All (λ j. j.id ≡ i → j.status ≡ succeeded) t.rows

still_done :
    {now : ℕ} {worker : String} (i : ℕ) (j k : Job)
    → Moves now worker j k
    → (j.id ≡ i → j.status ≡ succeeded)
    → k.id ≡ i
    → k.status ≡ succeeded
still_done i j k m h e =
    let s = h (sym (Moves-id m) ∙ e) in ap (λ (x : Job). x.status) (succeeded-Moves m s) ∙ s

upsert-Done :
    (now : ℕ) (task args : String) (key : Option String) (i : ℕ) (t : JobTable)
    → Done i t
    → Done i (upsert now task args key t).0
upsert-Done now task args key i t d = elim (Option-cases (conflicting key t.rows)) [
  | inl e ↦
      rw (upsert_new now task args key t e)
        (omega arith, All-append _ t.rows _ d.1 ((λ e'. absurd (omega arith)), tt))
  | inr (old, e) ↦ rw (upsert_old now task args key t old e) (omega arith, d.1)
]

insert_rows-Done :
    (now : ℕ) (task : String) (given : List (Option String × Option String)) (touched : List ℕ)
    (t t' : JobTable) (found : List ℕ) (i : ℕ)
    → insert_rows now task given touched t ≡ ok (t', found)
    → Done i t
    → Done i t'
unfolding insert_rows
insert_rows-Done now task [] touched t t' found i e d = subst (Done i) (ground arith) d
insert_rows-Done now task ((none, key) ∷ rest) touched t t' found i e d = cc
insert_rows-Done now task ((some args, key) ∷ rest) touched t t' found i e d =
    let (found', _, _, e') = insert_rows_ok now task args key rest touched t t' found e in
    insert_rows-Done now task rest _ _ t' found' i e' (upsert-Done now task args key i t d)

enqueue_many-Done :
    (now : ℕ) (task : String) (args_list : List String) (given : Option (List (Option String)))
    (t t' : JobTable) (found : List ℕ) (i : ℕ)
    → enqueue_many now task args_list given t ≡ ok (t', found)
    → Done i t
    → Done i t'
unfolding enqueue_many
enqueue_many-Done now task [] given t t' found i e d = subst (Done i) (ground arith) d
enqueue_many-Done now task (a ∷ args) none t t' found i e d =
    insert_rows-Done now task (unnest (a ∷ args) (no_keys (a ∷ args))) [] t t' found i e d
enqueue_many-Done now task (a ∷ args) (some given) t t' found i e d =
    insert_rows-Done now task (unnest (a ∷ args) given) [] t t' found i e d

-- A job that is over stays so.
pub Change-Done :
    {now : ℕ} {worker : String} (i : ℕ) (t t' : JobTable)
    → Change now worker t t'
    → Done i t
    → Done i t'
unfolding enqueue delete_completed_jobs
Change-Done {now} {worker} i t t' (lives rows next) d = (
  omega (arith, next),
  All-Each (Moves now worker) (λ j. j.id ≡ i → j.status ≡ succeeded) (still_done i) t.rows t'.rows
      rows d.1,
)
Change-Done {now} i t t' (inserts task args key e) d =
    subst (Done i) (sym e) (upsert-Done now task args key i t d)
Change-Done {now} i t t' (inserts_many task args_list keys found e) d =
    enqueue_many-Done now task args_list keys t t' found i e d
Change-Done {now} i t t' (purged locked older_than batch e) d =
    subst (Done i) (sym e) (d.0, All-delete_where _ _ t.rows d.1)
