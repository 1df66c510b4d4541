-- ===== src/Sql/Laws.antt =====
-- What WHERE, UPDATE and DELETE do to a table's rows.
use mathlib.Core.Path.{ap₂}
use durable_queue.Prelude.{
  ℕ, ◌≤◌, ◌≡◌, refl, ap, subst, Bool, true, false, List, [], ◌∷◌, map, Option, none, some, inl, inr,
  arith, Bool-cases, Option-cases, if◌then◌else◌, All, Each, length, min,
}
use mathlib.Core.Option
use durable_queue.Sql.{fetch_one, select_where, update_where, delete_where, count_where, minimum}

module _ {ℓ} {A : Type ℓ} (p : A → Bool) where
  -- Only rows that the test holds of are found.
  pub select_where-All : (xs : List A) → All (λ x. p x ≡ true) (select_where p xs)
  unfolding select_where
  select_where-All [] = tt
  select_where-All (x ∷ xs) = elim (Bool-cases (p x)) [
    | inl e ↦ rw e (e, select_where-All xs)
    | inr e ↦ rw e (select_where-All xs)
  ]

  pub All-select_where {κ} : (P : A → Type κ) (xs : List A) → All P xs → All P (select_where p xs)
  unfolding select_where
  All-select_where P [] h = tt
  All-select_where P (x ∷ xs) h = elim (Bool-cases (p x)) [
    | inl e ↦ rw e (h.0, All-select_where P xs h.1)
    | inr e ↦ rw e (All-select_where P xs h.1)
  ]

  pub All-delete_where {κ} : (P : A → Type κ) (xs : List A) → All P xs → All P (delete_where p xs)
  unfolding delete_where
  All-delete_where P [] h = tt
  All-delete_where P (x ∷ xs) h = elim (Bool-cases (p x)) [
    | inl e ↦ rw e (All-delete_where P xs h.1)
    | inr e ↦ rw e (h.0, All-delete_where P xs h.1)
  ]

  pub length-select_where : (xs : List A) → length (select_where p xs) ≡ count_where p xs
  unfolding select_where count_where
  length-select_where [] = refl
  length-select_where (x ∷ xs) = ground (arith, length-select_where xs)

  -- An UPDATE whose rows each change as the relation allows.
  pub Each-update_where :
      (R : A → A → Type 0) (f : A → A)
      → ((x : A) → R x x)
      → (xs : List A) → All (λ x. p x ≡ true → R x (f x)) xs
      → Each R xs (update_where p f xs)
  unfolding update_where
  Each-update_where R f r [] h = tt
  Each-update_where R f r (x ∷ xs) h = elim (Bool-cases (p x)) [
    | inl e ↦ rw e (h.0 e, Each-update_where R f r xs h.1)
    | inr e ↦ rw e (r x, Each-update_where R f r xs h.1)
  ]

  -- An UPDATE of no row.
  pub update_where_none :
      (f : A → A) (xs : List A) → All (λ x. p x ≡ false) xs → update_where p f xs ≡ xs
  unfolding update_where
  update_where_none f [] h = refl
  update_where_none f (x ∷ xs) h = rw h.0 (ap (◌∷◌ x) (update_where_none f xs h.1))

-- Tests that agree on the rows make the same statement.
module _ {ℓ} {A : Type ℓ} (p q : A → Bool) where
  pub update_where_cong :
      (f : A → A) (xs : List A)
      → All (λ x. p x ≡ q x) xs
      → update_where p f xs ≡ update_where q f xs
  unfolding update_where
  update_where_cong f [] h = refl
  update_where_cong f (x ∷ xs) h =
      rw h.0 (ap (◌∷◌ (if q x then f x else x)) (update_where_cong f xs h.1))

  pub count_where_cong :
      (xs : List A) → All (λ x. p x ≡ q x) xs → count_where p xs ≡ count_where q xs
  unfolding count_where
  count_where_cong [] h = refl
  count_where_cong (x ∷ xs) h = rw (h.0, count_where_cong xs h.1)

  -- An UPDATE of the rows that another has just found is one UPDATE.
  pub update_where_twice :
      (f g h : A → A) (xs : List A)
      → ((x : A) → q (f x) ≡ q x)
      → All (λ x. p x ≡ q x) xs
      → All (λ x. p x ≡ true → g (f x) ≡ h x) xs
      → update_where q g (update_where p f xs) ≡ update_where p h xs
  unfolding update_where
  update_where_twice f g h [] k same e = refl
  update_where_twice f g h (x ∷ xs) k same e =
      ap₂ ◌∷◌ (one (p x) refl) (update_where_twice f g h xs k same.1 e.1)
    where
      one :
          (b : Bool)
          → p x ≡ b
          → (if q (if b then f x else x) then g (if b then f x else x) else (if b then f x else x))
            ≡ (if b then h x else x)
      one true t = rw (k x, ← same.0, t) (e.0 t)
      one false t = rw (← same.0, t)

-- The first row found.
module _ {ℓ} {A : Type ℓ} (p : A → Bool) where
  pub fetch_one-none :
      (xs : List A) → fetch_one (select_where p xs) ≡ none → All (λ x. p x ≡ false) xs
  unfolding select_where
  fetch_one-none [] h = tt
  fetch_one-none (x ∷ xs) h = elim (Bool-cases (p x)) [
    | inl e ↦ cc
    | inr e ↦ (e, fetch_one-none xs (rw (e, select_where) at h))
  ]

  pub fetch_one-some : (xs : List A) (a : A) → fetch_one (select_where p xs) ≡ some a → p a ≡ true
  unfolding select_where
  fetch_one-some [] a h = cc
  fetch_one-some (x ∷ xs) a h = ground (arith, fetch_one-some xs a)

  -- What holds of every row holds of the row found.
  pub All-fetch_one {κ} :
      (P : A → Type κ) (xs : List A) (a : A)
      → All P xs
      → fetch_one (select_where p xs) ≡ some a
      → P a
  unfolding select_where
  All-fetch_one P [] a h e = cc
  All-fetch_one P (x ∷ xs) a h e = elim (Bool-cases (p x)) [
    | inl t ↦ let same : x ≡ a = found (rw (t, select_where) at e) in subst P same h.0
    | inr f ↦ All-fetch_one P xs a h.1 (rw (f, select_where) at e)
  ]
    where
      found : some x ≡ some a → x ≡ a
      found e' = cc

  pub All-update_where {κ μ} :
      (P : A → Type κ) (Q : A → Type μ) (f : A → A)
      → ((x : A) → p x ≡ true → P x → Q (f x))
      → ((x : A) → p x ≡ false → P x → Q x)
      → (xs : List A) → All P xs
      → All Q (update_where p f xs)
  unfolding update_where
  All-update_where P Q f t u [] h = tt
  All-update_where P Q f t u (x ∷ xs) h = elim (Bool-cases (p x)) [
    | inl e ↦ rw e (t x e h.0, All-update_where P Q f t u xs h.1)
    | inr e ↦ rw e (u x e h.0, All-update_where P Q f t u xs h.1)
  ]

pub fetch_one-map {ℓ κ} :
    {A : Type ℓ} {B : Type κ} (f : A → B) (xs : List A)
    → fetch_one (map f xs) ≡ Option.map f (fetch_one xs)
fetch_one-map f [] = refl
fetch_one-map f (x ∷ xs) = refl

-- The minimum is below each value.
abbrev pub Above : ℕ → Option ℕ → Type 0
Above m none = Unit
Above m (some a) = m ≤ a

pub minimum-All : (m : ℕ) (xs : List (Option ℕ)) → Above m (minimum xs) → All (Above m) xs
unfolding minimum
minimum-All m [] h = tt
minimum-All m (none ∷ xs) h = (tt, minimum-All m xs h)
minimum-All m (some a ∷ xs) h = elim (Option-cases (minimum xs)) [
  | inl e ↦ ((rw e at h), minimum-All m xs (rw e tt))
  | inr (b, e) ↦
      let below : m ≤ min a b = rw e at h in (omega arith, minimum-All m xs (rw e (omega arith)))
]

-- What holds of the rows that a WHERE selects, from the side of all rows.
pub All-selected {ℓ κ} :
    {A : Type ℓ} (p : A → Bool) (P : A → Type κ) (rows : List A)
    → All P (select_where p rows)
    → All (λ x. p x ≡ true → P x) rows
unfolding select_where
All-selected p P [] h = tt
All-selected p P (x ∷ xs) h = elim (Bool-cases (p x)) [
  | inl e ↦ let (here, there) = rw e at h in ((λ _. here), All-selected p P xs there)
  | inr e ↦ ((λ t. cc), All-selected p P xs (rw e at h))
]

pub select_where_none {ℓ} :
    {A : Type ℓ} (p : A → Bool) (rows : List A)
    → All (λ x. p x ≡ false) rows
    → select_where p rows ≡ []
unfolding select_where
select_where_none p [] h = refl
select_where_none p (x ∷ xs) h = rw (h.0) (select_where_none p xs h.1)

-- An UPDATE that would write what is there changes nothing.
pub update_where_same {ℓ} :
    {A : Type ℓ} (p : A → Bool) (g : A → A) (rows : List A)
    → All (λ x. p x ≡ true → g x ≡ x) rows
    → update_where p g rows ≡ rows
unfolding update_where
update_where_same p g [] h = refl
update_where_same p g (x ∷ xs) h = elim (Bool-cases (p x)) [
  | inl e ↦ rw e (ap₂ ◌∷◌ (h.0 e) (update_where_same p g xs h.1))
  | inr e ↦ rw e (ap (◌∷◌ x) (update_where_same p g xs h.1))
]
