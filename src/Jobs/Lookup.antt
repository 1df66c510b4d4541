-- ===== src/Jobs/Lookup.antt =====
-- get_job after a statement.
use mathlib.Core.Option
use durable_queue.Prelude.{
  ℕ, ◌≡◌, refl, sym, ap, ◌∙◌, Bool, true, false, List, [], ◌∷◌, some, inl, inr, arith, Bool-cases,
  All, All-zip, Distinct, ◌==◌, ==_refl, if◌then◌else◌,
}
use durable_queue.Sql.{select_where, update_where}
use durable_queue.Jobs.{Job, get_job}
use durable_queue.Jobs.Rows.{ids, absent}

pub get_job_head :
    (i : ℕ) (x : Job) (xs : List Job) → (x.id == i) ≡ true → get_job i (x ∷ xs) ≡ some x
unfolding get_job select_where
get_job_head i x xs h = rw h

pub get_job_tail :
    (i : ℕ) (x : Job) (xs : List Job) → (x.id == i) ≡ false → get_job i (x ∷ xs) ≡ get_job i xs
unfolding get_job select_where
get_job_tail i x xs h = rw h

-- An UPDATE that leaves ids alone changes the row that is read as it changes any row.
module _ (p : Job → Bool) (f : Job → Job) (i : ℕ) (keeps : (j : Job) → (f j).id ≡ j.id) where
  abbrev updated : Job → Job
  updated j = if p j then f j else j

  id-updated : (j : Job) (b : Bool) → (if b then f j else j).id ≡ j.id
  id-updated j true = keeps j
  id-updated j false = refl

  pub get_job-update_where :
      (rows : List Job)
      → get_job i (update_where p f rows)
        ≡ Option.map (λ j. if p j then f j else j) (get_job i rows)
  unfolding update_where
  get_job-update_where [] = unfold get_job select_where in refl
  get_job-update_where (x ∷ xs) = elim (Bool-cases (x.id == i)) [
    | inl h ↦
        get_job_head i (updated x) (update_where p f xs) (ap (λ n. n == i) (id-updated x (p x)) ∙ h)
        ∙ sym (ap (Option.map updated) (get_job_head i x xs h))
    | inr h ↦
        get_job_tail i (updated x) (update_where p f xs) (ap (λ n. n == i) (id-updated x (p x)) ∙ h)
        ∙ get_job-update_where xs
        ∙ sym (ap (Option.map updated) (get_job_tail i x xs h))
  ]

-- Every row is read by its id.
pub get_job-All :
    (rows : List Job) → Distinct (ids rows) → All (λ j. get_job j.id rows ≡ some j) rows
get_job-All [] d = tt
get_job-All (x ∷ xs) d = (
  get_job_head x.id x xs (==_refl x.id),
  All-zip _ _ _ (λ j n e. get_job_tail j.id x xs (other j.id x.id n) ∙ e) xs (absent x.id xs d.0)
      (get_job-All xs d.1),
)
  where
    other : (a b : ℕ) → (a == b) ≡ false → (b == a) ≡ false
    other a b n = ground arith
