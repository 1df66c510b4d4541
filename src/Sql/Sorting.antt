-- ===== src/Sql/Sorting.antt =====
-- ORDER BY: the result is ordered, and holds the same rows.
use durable_queue.Prelude.{
  ℕ, zero, suc, ◌≡◌, refl, Bool, true, false, ◌||◌, List, [], ◌∷◌, map, inl, inr, arith, Bool-cases,
  All, All-imp, All-drop, contains, ◌==◌, length, take, drop, Distinct, ◌∙◌,
}
use durable_queue.Sql.{insert_by, order_by, count_where}

module _ {ℓ} {A : Type ℓ} (le : A → A → Bool) where
  abbrev pub Ordered : List A → Type ℓ
  Ordered [] = Unit
  Ordered (x ∷ xs) = All (λ y. le x y ≡ true) xs × Ordered xs

  insert_by-All {κ} :
      (P : A → Type κ) (x : A) (xs : List A) → P x → All P xs → All P (insert_by le x xs)
  unfolding insert_by
  insert_by-All P x [] hx h = (hx, tt)
  insert_by-All P x (y ∷ ys) hx h = elim (Bool-cases (le x y)) [
    | inl e ↦ rw e (hx, h)
    | inr e ↦ rw e (h.0, insert_by-All P x ys hx h.1)
  ]

  pub All-order_by {κ} : (P : A → Type κ) (xs : List A) → All P xs → All P (order_by le xs)
  unfolding order_by
  All-order_by P [] h = tt
  All-order_by P (x ∷ xs) h = insert_by-All P x (order_by le xs) h.0 (All-order_by P xs h.1)

  split_insert_by {κ} :
      (P : A → Type κ) (x : A) (xs : List A) → All P (insert_by le x xs) → P x × All P xs
  unfolding insert_by
  split_insert_by P x [] h = h
  split_insert_by P x (y ∷ ys) h = elim (Bool-cases (le x y)) [
    | inl e ↦ rw (e, insert_by) at h
    | inr e ↦
        let (here, there) = split (rw (e, insert_by) at h) in
        let (first, rest) = split_insert_by P x ys there in (first, (here, rest))
  ]
    where
      split : P y × All P (insert_by le x ys) → P y × All P (insert_by le x ys)
      split q = q

  -- … and the other way round.
  pub order_by-All {κ} : (P : A → Type κ) (xs : List A) → All P (order_by le xs) → All P xs
  unfolding order_by
  order_by-All P [] h = tt
  order_by-All P (x ∷ xs) h =
      let (first, rest) = split_insert_by P x (order_by le xs) h in (first, order_by-All P xs rest)

  length-insert_by : (x : A) (xs : List A) → length (insert_by le x xs) ≡ suc (length xs)
  unfolding insert_by
  length-insert_by x [] = refl
  length-insert_by x (y ∷ ys) = ground (arith, length-insert_by x ys)

  pub length-order_by : (xs : List A) → length (order_by le xs) ≡ length xs
  unfolding order_by
  length-order_by [] = refl
  length-order_by (x ∷ xs) = omega (arith, length-insert_by x (order_by le xs), length-order_by xs)

  count-insert_by :
      (p : A → Bool) (x : A) (xs : List A)
      → count_where p (insert_by le x xs) ≡ count_where p (x ∷ xs)
  unfolding insert_by count_where
  count-insert_by p x [] = refl
  count-insert_by p x (y ∷ ys) = ground (arith, count-insert_by p x ys)

  pub count-order_by :
      (p : A → Bool) (xs : List A) → count_where p (order_by le xs) ≡ count_where p xs
  unfolding order_by count_where
  count-order_by p [] = refl
  count-order_by p (x ∷ xs) =
      ground (arith, count-insert_by p x (order_by le xs), count-order_by p xs)

  module _ (total : (x y : A) → le x y ≡ false → le y x ≡ true)
      (trans : (x y z : A) → le x y ≡ true → le y z ≡ true → le x z ≡ true) where
    insert_by-Ordered : (x : A) (xs : List A) → Ordered xs → Ordered (insert_by le x xs)
    unfolding insert_by
    insert_by-Ordered x [] h = (tt, tt)
    insert_by-Ordered x (y ∷ ys) h = elim (Bool-cases (le x y)) [
      | inl e ↦ rw e ((e, All-imp _ _ (λ z. trans x y z e) ys h.0), h)
      | inr e ↦
          rw e
            (insert_by-All (λ z. le y z ≡ true) x ys (total x y e) h.0, insert_by-Ordered x ys h.1)
    ]

    pub order_by-Ordered : (xs : List A) → Ordered (order_by le xs)
    unfolding order_by
    order_by-Ordered [] = tt
    order_by-Ordered (x ∷ xs) = insert_by-Ordered x (order_by le xs) (order_by-Ordered xs)

  -- What LIMIT keeps stands before what it leaves out.
  pub Ordered-take-drop :
      (n : ℕ) (xs : List A)
      → Ordered xs
      → All (λ x. All (λ y. le x y ≡ true) (drop n xs)) (take n xs)
  Ordered-take-drop zero xs h = tt
  Ordered-take-drop (suc n) [] h = tt
  Ordered-take-drop (suc n) (x ∷ xs) h = (All-drop _ n xs h.0, Ordered-take-drop n xs h.1)

-- A column's values, as a set, are those of the rows in any order.
module _ {ℓ} {A : Type ℓ} (le : A → A → Bool) (key : A → ℕ) (k : ℕ) where
  abbrev found : List A → Bool
  found xs = contains (map key xs) k

  found-insert_by : (x : A) (xs : List A) → found (insert_by le x xs) ≡ (key x == k || found xs)
  unfolding insert_by
  found-insert_by x [] = refl
  found-insert_by x (y ∷ ys) = ground (arith, found-insert_by x ys)

  pub found-order_by : (xs : List A) → found (order_by le xs) ≡ found xs
  unfolding order_by
  found-order_by [] = refl
  found-order_by (x ∷ xs) = ground (arith, found-insert_by x (order_by le xs), found-order_by xs)

  pub found-take : (n : ℕ) (xs : List A) → found (take n xs) ≡ true → found xs ≡ true
  found-take zero xs h = cc
  found-take (suc n) [] h = h
  found-take (suc n) (x ∷ xs) h = ground (arith, found-take n xs)

-- Nor does ORDER BY repeat a value.
module _ {ℓ} {A : Type ℓ} (le : A → A → Bool) (key : A → ℕ) where
  insert_by-Distinct :
      (x : A) (xs : List A)
      → contains (map key xs) (key x) ≡ false
      → Distinct (map key xs)
      → Distinct (map key (insert_by le x xs))
  unfolding insert_by
  insert_by-Distinct x [] c d = (refl, tt)
  insert_by-Distinct x (y ∷ ys) c d = elim (Bool-cases (le x y)) [
    | inl e ↦ rw e (c, d)
    | inr e ↦
        rw e
          (found-insert_by le key (key y) x ys ∙ apart, insert_by-Distinct x ys (ground arith) d.1)
  ]
    where
      apart : (key x == key y || contains (map key ys) (key y)) ≡ false
      apart = ground (arith, c, d.0)

  pub order_by-Distinct :
      (xs : List A) → Distinct (map key xs) → Distinct (map key (order_by le xs))
  unfolding order_by
  order_by-Distinct [] d = tt
  order_by-Distinct (x ∷ xs) d =
      insert_by-Distinct x (order_by le xs) (found-order_by le key (key x) xs ∙ d.0)
        (order_by-Distinct xs d.1)
