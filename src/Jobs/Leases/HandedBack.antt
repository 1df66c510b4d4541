-- ===== src/Jobs/Leases/HandedBack.antt =====
-- Claiming jobs and handing them back unrun restores the table.
use durable_queue.Prelude.{
  ℕ, ◌≡◌, refl, subst, sym, ap, ◌∙◌, Bool, true, false, ◌&&◌, not, List, [], ◌∷◌, map, Option, none,
  some, inl, inr, arith, String, Bool-cases, eq_refl, All, All-imp, All-zip, contains, &&_split,
}
use durable_queue.Sql.{select_where, update_where}
use durable_queue.Sql.Laws.{update_where_none}
use durable_queue.Sql.Sorting.{found-order_by, found-take}
use durable_queue.Jobs.{
  Job, JobTable, Status, pending, running, succeeded, dead, owned_by, is_pending,
}
use durable_queue.Jobs.Rows.{ids, in-select_where}
use durable_queue.Jobs.Claim.{due, before, claimable, claim_ids, set_claimed, claim_jobs}
use durable_queue.Jobs.Leases.{holds_any, set_released, release_jobs}
use durable_queue.Jobs.Lifecycle.Invariants.{Shape, IsShaped}
use durable_queue.Jobs.Wellformed.{IsWell}

-- An UPDATE that undoes another.
update_where_undone :
    (p q : Job → Bool) (f g : Job → Job) (rows : List Job)
    → All (λ x. (p x ≡ true → (q (f x) ≡ true) × (g (f x) ≡ x)) × (p x ≡ false → q x ≡ false)) rows
    → update_where q g (update_where p f rows) ≡ rows
unfolding update_where
update_where_undone p q f g [] h = refl
update_where_undone p q f g (x ∷ xs) h = elim (Bool-cases (p x)) [
  | inl e ↦ let (picked, back) = h.0.0 e in rw (e, picked, back, update_where_undone p q f g xs h.1)
  | inr e ↦ rw (e, h.0.1 e, update_where_undone p q f g xs h.1)
]

abbrev Columns : Type 0
Columns = Status × Option String × Option ℕ

abbrev columns : Status → Option String → Option ℕ → Columns
columns s by until = (s, by, until)

no_lease :
    (s : Status) (by : Option String) (until finished : Option ℕ)
    → Shape s by until finished
    → is_pending s ≡ true
    → columns pending none none ≡ columns s by until
no_lease pending none none finished h e = refl
no_lease pending (some w) until finished h e = absurd h.0
no_lease pending none (some u) finished h e = absurd h.1
no_lease running by until finished h e = cc
no_lease succeeded by until finished h e = cc
no_lease dead by until finished h e = cc

-- A pending row has no lease, so releasing its claim gives it back.
set_released-set_claimed :
    (now : ℕ) (worker : String) (lease : ℕ) (j : Job)
    → IsShaped j
    → is_pending j.status ≡ true
    → set_released (set_claimed now worker lease j) ≡ j
set_released-set_claimed now worker lease j s e =
    ap (λ (c : Columns). record j { status = c.0; locked_by = c.1; locked_until = c.2 })
      (no_lease j.status j.locked_by j.locked_until j.finished_at s e)

-- A pending row is nobody's.
pending-owned : (worker : String) (j : Job) → is_pending j.status ≡ true → owned_by worker j ≡ false
pending-owned worker j e = ground (arith, e)

module _ (now : ℕ) (locked : ℕ → Bool) (worker : String) (lease n : ℕ) (t : JobTable) where
  abbrev chosen : List ℕ
  chosen = claim_ids now locked n t.rows

  -- A row that the claim has chosen was due.
  chosen_due :
      (j : Job)
      → contains (ids (select_where (λ r. due now r && not (locked r.id)) t.rows)) j.id
        ≡ (due now j && not (locked j.id))
      → contains chosen j.id ≡ true
      → due now j ≡ true
  unfolding claim_ids claimable
  chosen_due j same c =
      (&&_split (due now j) _ (
        sym same
        ∙ sym (
            found-order_by before (λ r. r.id) j.id
              (select_where (λ r. due now r && not (locked r.id)) t.rows))
        ∙ found-take before (λ r. r.id) j.id n _ c)).0

  -- `listed` are the ids of the batch.
  undone :
      (listed : List ℕ) (j : Job)
      → contains listed j.id ≡ contains chosen j.id
      → (contains chosen j.id ≡ true → is_pending j.status ≡ true)
      → IsShaped j
      → (contains chosen j.id ≡ true
          → (holds_any listed worker (set_claimed now worker lease j) ≡ true)
            × (set_released (set_claimed now worker lease j) ≡ j))
        × (contains chosen j.id ≡ false → holds_any listed worker j ≡ false)
  undone listed j same waits shaped = (
    λ c. (
      rw (same, c, eq_refl worker) refl,
      set_released-set_claimed now worker lease j shaped (waits c),
    ),
    λ c. rw (same, c) refl,
  )

  ids-claimed : (rows : List Job) → ids (map (set_claimed now worker lease) rows) ≡ ids rows
  ids-claimed [] = refl
  ids-claimed (x ∷ xs) = ap (◌∷◌ x.id) (ids-claimed xs)

  abbrev Undone : List ℕ → Job → Type 0
  Undone listed j =
      (contains chosen j.id ≡ true
        → (holds_any listed worker (set_claimed now worker lease j) ≡ true)
          × (set_released (set_claimed now worker lease j) ≡ j))
      × (contains chosen j.id ≡ false → holds_any listed worker j ≡ false)

  abbrev claimed : JobTable
  claimed = record t {
    rows = update_where (λ j. contains chosen j.id) (set_claimed now worker lease) t.rows;
  }

  given_back :
      (listed : List ℕ)
      → All (Undone listed) t.rows
      → All (λ j. contains listed j.id ≡ contains chosen j.id) t.rows
      → (release_jobs listed worker claimed).0 ≡ t
  unfolding release_jobs
  given_back [] h same =
      ap (λ (rows : List Job). record t { rows = rows })
        (update_where_none (λ j. contains chosen j.id) (set_claimed now worker lease) t.rows
          (All-imp _ _ (λ j e. sym e) t.rows same))
  given_back (i ∷ is) h same =
      ap (λ (rows : List Job). record t { rows = rows })
        (update_where_undone (λ j. contains chosen j.id) (holds_any (i ∷ is) worker)
          (set_claimed now worker lease) set_released t.rows h)

  -- On a well-formed table, handing back all the jobs of a claim before any of them has run leaves
  -- the table as it was before the claim.
  pub claim_jobs-release_jobs :
      IsWell t
      → let (claimed, batch) = claim_jobs now locked worker lease n t in
        (release_jobs (ids batch) worker claimed).0 ≡ t
  unfolding claim_jobs
  claim_jobs-release_jobs v =
      subst (λ (listed : List ℕ). (release_jobs listed worker claimed).0 ≡ t)
        (sym (ids-claimed (select_where (λ j. contains chosen j.id) t.rows)))
        (given_back listed
          (All-zip _ _ (Undone listed) (λ j same f. f same) t.rows same
            (All-zip _ IsShaped (λ j. contains listed j.id ≡ contains chosen j.id → Undone listed j)
              (λ j f shaped same. undone listed j same (waits j f) shaped) t.rows
              (in-select_where (λ r. due now r && not (locked r.id)) t.rows v.distinct) v.shaped))
          same)
    where
      waits :
          (j : Job)
          → contains (ids (select_where (λ r. due now r && not (locked r.id)) t.rows)) j.id
            ≡ (due now j && not (locked j.id))
          → contains chosen j.id ≡ true
          → is_pending j.status ≡ true
      waits j f c = (&&_split (is_pending j.status) _ (chosen_due j f c)).0

      listed : List ℕ
      listed = ids (select_where (λ j. contains chosen j.id) t.rows)

      same : All (λ j. contains listed j.id ≡ contains chosen j.id) t.rows
      same = in-select_where (λ j. contains chosen j.id) t.rows v.distinct
