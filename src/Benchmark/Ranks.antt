-- ===== src/Benchmark/Ranks.antt =====
-- What a percentile of the measured latencies is.
use durable_queue.Prelude.{
  ℕ, zero, suc, ◌+◌, ◌≤◌, ◌<◌, ◌≡◌, refl, subst, true, false, List, [], ◌∷◌, some, arith, All,
  length, leb,
}
use durable_queue.Sql.{count_where, order_by}
use durable_queue.Sql.Sorting.{Ordered, order_by-Ordered, length-order_by, count-order_by}
use durable_queue.Benchmark.{rank, entry_at, percentile}

abbrev no_more : ℕ → List ℕ → ℕ
no_more v xs = count_where (λ x. leb x v) xs

abbrev no_less : ℕ → List ℕ → ℕ
no_less v xs = count_where (λ x. leb v x) xs

counts_all : (x : ℕ) (xs : List ℕ) → All (λ y. leb x y ≡ true) xs → no_less x xs ≡ length xs
unfolding count_where
counts_all x [] h = refl
counts_all x (y ∷ ys) h = ground (arith, h.0, counts_all x ys h.1)

-- An entry of an ordered list, and how many are on either side of it.
entry_at_lem :
    (xs : List ℕ) (i : ℕ)
    → Ordered leb xs
    → i < length xs
    → (v : ℕ) × (entry_at xs i ≡ some v)
      × (i < no_more v xs)
      × (length xs ≤ i + no_less v xs)
      × ((P : ℕ → Type 0) → All P xs → P v)
unfolding count_where
entry_at_lem [] i o h = absurd (omega (arith, h))
entry_at_lem (x ∷ xs) zero o h =
    (x, refl, ground arith, ground (arith, counts_all x xs o.0), λ P p. p.0)
entry_at_lem (x ∷ xs) (suc i) o h =
    let (v, e, more, less, among) = entry_at_lem xs i o.1 (omega (arith, h)) in
    (
      v,
      e,
      ground (arith, more, among (λ y. leb x y ≡ true) o.0),
      ground (arith, less),
      λ P p. among P p.1,
    )

total : (x y : ℕ) → leb x y ≡ false → leb y x ≡ true
total x y h = ground arith

trans : (x y z : ℕ) → leb x y ≡ true → leb y z ≡ true → leb x z ≡ true
trans x y z h k = ground arith

-- Of one value or more, a percentile up to the hundredth is a value: for the index n * share / 100, or the last, more
-- values than that are no greater, and all but that many are no less.
pub percentile_lem :
    (values : List ℕ) (hundredths : ℕ)
    → 0 < length values
    → let i = rank hundredths (length values) in
      (v : ℕ) × (percentile values hundredths ≡ some v)
      × (i < count_where (λ x. leb x v) values)
      × (length values ≤ i + count_where (λ x. leb v x) values)
unfolding percentile
percentile_lem values h some_value =
    let (v, e, more, less, among) =
      entry_at_lem sorted (rank h (length sorted)) (order_by-Ordered leb total trans values)
        (within (length sorted) (omega (arith, n, some_value))) in
    (
      v,
      e,
      subst (λ m. rank h m < no_more v values) n
          (omega (arith, more, count-order_by leb (λ x. leb x v) values)),
      subst (λ m. m ≤ rank h m + no_less v values) n
          (omega (arith, less, count-order_by leb (λ x. leb v x) values)),
    )
  where
    sorted : List ℕ
    sorted = order_by leb values

    n : length sorted ≡ length values
    n = length-order_by leb values

    within : (m : ℕ) → 0 < m → rank h m < m
    within m positive = omega (arith, positive)
