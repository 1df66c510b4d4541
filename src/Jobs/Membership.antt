-- ===== src/Jobs/Membership.antt =====
-- Which rows a list of ids names, and how many.
use durable_queue.Prelude.{
  ℕ, zero, suc, ◌+◌, ◌≡◌, refl, Bool, true, false, ◌||◌, List, [], ◌∷◌, inl, inr, arith, Bool-cases,
  All, All-imp, Distinct, contains, ◌⊎◌, ◌==◌, ==_iff, length, take,
}
use durable_queue.Sql.{select_where, count_where}
use durable_queue.Sql.Sorting.{found-take}
use durable_queue.Jobs.{Job}
use durable_queue.Jobs.Rows.{ids, absent, select_where-ids}

-- The row is the only one of the table with its id.
abbrev pub Only : List Job → Job → Type 0
Only rows x = All (λ y. y.id ≡ x.id → y ≡ x) rows

pub Distinct-Only : (rows : List Job) → Distinct (ids rows) → All (Only rows) rows
Distinct-Only [] d = tt
Distinct-Only (x ∷ xs) d = (
  ((λ _. refl), All-imp _ _ (λ y n e. absurd (ground (arith, n, e))) xs (absent x.id xs d.0)),
  add xs (absent x.id xs d.0) (Distinct-Only xs d.1),
)
  where
    add :
        (ys : List Job)
        → All (λ y. (y.id == x.id) ≡ false) ys
        → All (Only xs) ys
        → All (Only (x ∷ xs)) ys
    add [] n h = tt
    add (y ∷ ys) n h = (((λ e. absurd (ground (arith, n.0, e))), h.0), add ys n.1 h.1)

-- A row with a listed id is there to reason by.
pub ids-elim {ℓ} :
    {R : Type ℓ} (i : ℕ) (xs : List Job)
    → contains (ids xs) i ≡ true
    → All (λ x. x.id ≡ i → R) xs
    → R
ids-elim i [] c h = absurd (nothing c)
  where
    nothing : false ≡ true → ⊥
    nothing e = cc
ids-elim i (x ∷ xs) c h = elim (Bool-cases (x.id == i)) [
  | inl e ↦ h.0 ((==_iff x.id i).0 e)
  | inr e ↦ ids-elim i xs (rw e at c) h.1
]

module _ (a : ℕ) (s : List ℕ) where
  -- One id more names one row more.
  count_more :
      (rows : List Job)
      → contains s a ≡ false
      → count_where (λ j. a == j.id || contains s j.id) rows
        ≡ count_where (λ j. a == j.id) rows + count_where (λ j. contains s j.id) rows
  unfolding count_where
  count_more [] n = omega arith
  count_more (x ∷ xs) n = elim (Bool-cases (a == x.id)) [
    | inl e ↦
        let same : x.id ≡ a = ground arith in
        let out : contains s x.id ≡ false = rw same n in
        rw (e, out) (omega (arith, count_more xs n))
    | inr e ↦ rw e (elim (Bool-cases (contains s x.id)) [
      | inl c ↦ rw c (omega (arith, count_more xs n))
      | inr c ↦ rw c (count_more xs n)
    ])
  ]

count_none :
    (a : ℕ) (rows : List Job)
    → contains (ids rows) a ≡ false
    → count_where (λ j. a == j.id) rows ≡ 0
unfolding count_where
count_none a [] n = refl
count_none a (x ∷ xs) n = ground (arith, count_none a xs)

count_one :
    (a : ℕ) (rows : List Job)
    → Distinct (ids rows)
    → contains (ids rows) a ≡ true
    → count_where (λ j. a == j.id) rows ≡ 1
unfolding count_where
count_one a [] d c = cc
count_one a (x ∷ xs) d c = elim (Bool-cases (x.id == a)) [
  | inl e ↦ let same : a ≡ x.id = ground arith in ground (arith, count_none a xs (rw same d.0))
  | inr e ↦ ground (arith, count_one a xs d.1 (rw e at c))
]

count_nothing : (rows : List Job) → count_where (λ j. false) rows ≡ 0
unfolding count_where
count_nothing [] = refl
count_nothing (x ∷ xs) = count_nothing xs

-- The rows with a listed id are as many as the ids.
pub count_where-ids :
    (s : List ℕ) (rows : List Job)
    → Distinct (ids rows)
    → Distinct s
    → All (λ a. contains (ids rows) a ≡ true) s
    → count_where (λ j. contains s j.id) rows ≡ length s
count_where-ids [] rows d ds h = count_nothing rows
count_where-ids (a ∷ s) rows d ds h =
    omega
      (arith, count_more a s rows ds.0, count_one a rows d h.0, count_where-ids s rows d ds.1 h.1)

-- Statements keep ids distinct.
pub select_where-Distinct :
    (p : Job → Bool) (rows : List Job) → Distinct (ids rows) → Distinct (ids (select_where p rows))
unfolding select_where
select_where-Distinct p [] d = tt
select_where-Distinct p (x ∷ xs) d = elim (Bool-cases (p x)) [
  | inl e ↦ rw e (select_where-ids p x.id xs d.0, select_where-Distinct p xs d.1)
  | inr e ↦ rw e (select_where-Distinct p xs d.1)
]

pub take-Distinct : (n : ℕ) (rows : List Job) → Distinct (ids rows) → Distinct (ids (take n rows))
take-Distinct zero rows d = tt
take-Distinct (suc n) [] d = tt
take-Distinct (suc n) (x ∷ xs) d =
    (not_taken (Bool-cases (contains (ids (take n xs)) x.id)), take-Distinct n xs d.1)
  where
    not_taken :
        (contains (ids (take n xs)) x.id ≡ true) ⊎ (contains (ids (take n xs)) x.id ≡ false)
        → contains (ids (take n xs)) x.id ≡ false
    not_taken (inl c) = cc (found-take (λ a b. true) (λ r. r.id) x.id n xs c, d.0)
    not_taken (inr c) = c

pub All-ids : (rows : List Job) → All (λ j. contains (ids rows) j.id ≡ true) rows
All-ids [] = tt
All-ids (x ∷ xs) = (ground arith, All-imp _ _ (λ j c. ground (arith, c)) xs (All-ids xs))
