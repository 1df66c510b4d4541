-- ===== src/Sql.antt =====
-- The SQL that the statements of the program use: WHERE, ORDER BY, LIMIT, RETURNING, aggregates.
-- A table is the list of its rows, in the order in which the database happens to visit them.
pub mod Laws
pub mod Sorting
use durable_queue.Prelude.{
  ℕ, zero, suc, Bool, List, [], ◌∷◌, map, Option, none, some, if◌then◌else◌, min,
}

module _ {ℓ} {A : Type ℓ} where
  -- SELECT * FROM rows WHERE p
  unfoldable pub select_where : (A → Bool) → List A → List A
  select_where p [] = []
  select_where p (x ∷ xs) = let rest = select_where p xs in if p x then x ∷ rest else rest

  -- UPDATE rows SET f WHERE p
  unfoldable pub update_where : (A → Bool) → (A → A) → List A → List A
  update_where p f [] = []
  update_where p f (x ∷ xs) = (if p x then f x else x) ∷ update_where p f xs

  -- DELETE FROM rows WHERE p
  unfoldable pub delete_where : (A → Bool) → List A → List A
  delete_where p [] = []
  delete_where p (x ∷ xs) = let rest = delete_where p xs in if p x then rest else x ∷ rest

  -- The number of rows that a WHERE matches, which a cursor reports as `rowcount`.
  unfoldable pub count_where : (A → Bool) → List A → ℕ
  count_where p [] = 0
  count_where p (x ∷ xs) = let rest = count_where p xs in if p x then suc rest else rest

  -- The rows that a cursor's `fetchone()` finds.
  abbrev pub fetch_one : List A → Option A
  fetch_one [] = none
  fetch_one (x ∷ xs) = some x

  insert_by : (A → A → Bool) → A → List A → List A
  insert_by le x [] = x ∷ []
  insert_by le x (y ∷ ys) = let rest = insert_by le x ys in if le x y then x ∷ y ∷ ys else y ∷ rest

  -- ORDER BY, for a test that tells whether one row may stand before another.
  unfoldable pub order_by : (A → A → Bool) → List A → List A
  unfolding insert_by
  order_by le [] = []
  order_by le (x ∷ xs) = insert_by le x (order_by le xs)

-- least(a, b), which ignores NULL.
abbrev pub least : Option ℕ → Option ℕ → Option ℕ
least none b = b
least (some a) none = some a
least (some a) (some b) = some (min a b)

-- SELECT min(column), for the rows' values of the column: NULL if all are, or if there is no row.
unfoldable pub minimum : List (Option ℕ) → Option ℕ
minimum [] = none
minimum (x ∷ xs) = least x (minimum xs)
