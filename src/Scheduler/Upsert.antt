-- ===== src/Scheduler/Upsert.antt =====
-- A schedule that is registered over itself.
use durable_queue.Prelude.{
  ℕ, ◌≡◌, refl, sym, ap, ◌∙◌, String, Bool, true, false, List, [], ◌∷◌, ◌++◌, Option, some, none,
  inl, inr, All, All-imp, All-append, Bool-cases, Option-cases, eq_refl, ==_refl, if◌then◌else◌,
}
use durable_queue.Sql.{select_where, update_where, fetch_one}
use durable_queue.Sql.Laws.{fetch_one-none, update_where_same, select_where_none}
use durable_queue.Scheduler.{
  Every, hour, day, Schedule, named, same_every, same_number, same_text, same_clock, set_registered,
  upsert_schedule,
}

same_every_refl : (e : Option Every) → same_every e e ≡ true
same_every_refl none = refl
same_every_refl (some hour) = refl
same_every_refl (some day) = refl

same_number_refl : (n : Option ℕ) → same_number n n ≡ true
same_number_refl none = refl
same_number_refl (some n) = ==_refl n

same_text_refl : (s : Option String) → same_text s s ≡ true
same_text_refl none = refl
same_text_refl (some s) = eq_refl s

same_clock_refl : (r : Schedule) → same_clock r r ≡ true
same_clock_refl r =
    rw (same_every_refl r.every, same_number_refl r.at_time, same_text_refl r.time_zone)

module _ (row : Schedule) (next : ℕ) where
  abbrev pub again : Schedule
  again = record row { next_run_at = next }

  -- A row that has been written with a registration is not changed by it again.
  kept_new : set_registered again row ≡ row
  kept_new =
      ap (λ b. record row { next_run_at = if b then row.next_run_at else next })
        (same_clock_refl row)

  kept_old : (r : Schedule) → set_registered again (set_registered row r) ≡ set_registered row r
  kept_old r =
      ap
        (λ b. record (set_registered row r) {
          next_run_at = if b then (set_registered row r).next_run_at else next;
        })
        (same_clock_refl row)

  abbrev Kept : Schedule → Type 0
  Kept x = named row.name x ≡ true → set_registered again x ≡ x

  updated-Kept :
      (rows : List Schedule) → All Kept (update_where (named row.name) (set_registered row) rows)
  unfolding update_where
  updated-Kept [] = tt
  updated-Kept (x ∷ xs) = elim (Bool-cases (named row.name x)) [
    | inl e ↦ rw e ((λ _. kept_old x), updated-Kept xs)
    | inr e ↦ rw e ((λ t. cc), updated-Kept xs)
  ]

  updated_names :
      (rows : List Schedule)
      → All
          (λ x. named row.name x ≡ false)
          (update_where (named row.name) (set_registered row) rows)
      → All (λ x. named row.name x ≡ false) rows
  unfolding update_where
  updated_names [] h = tt
  updated_names (x ∷ xs) h = elim (Bool-cases (named row.name x)) [
    | inl e ↦ absurd (true_false (sym e ∙ (rw e at h).0))
    | inr e ↦ (e, updated_names xs h.1)
  ]
    where
      true_false : true ≡ false → ⊥
      true_false e = cc

  appended_name :
      (rows : List Schedule)
      → All (λ x. named row.name x ≡ false) (rows ++ row ∷ [])
      → named row.name row ≡ false
  appended_name [] h = h.0
  appended_name (x ∷ xs) h = appended_name xs h.1

  upserted :
      (rows : List Schedule)
      → All Kept (upsert_schedule row rows)
        × (All (λ x. named row.name x ≡ false) (upsert_schedule row rows) → ⊥)
  unfolding upsert_schedule
  upserted rows = elim (Option-cases (fetch_one (select_where (named row.name) rows))) [
    | inl e ↦
        rw (e, upsert_schedule)
          (
            All-append _ rows _
                (All-imp _ _ (λ x n t. absurd (different n t)) rows
                  (fetch_one-none (named row.name) rows e))
                ((λ _. kept_new), tt),
            (λ h. different (appended_name rows h) (eq_refl row.name)),
          )
    | inr (old, e) ↦
        rw (e, upsert_schedule)
          (
            updated-Kept rows,
            (λ h. some_none old (
                sym e
                ∙ ap fetch_one (select_where_none (named row.name) rows (updated_names rows h)))),
          )
  ]
    where
      different : {b : Bool} → b ≡ false → b ≡ true → ⊥
      different n t = cc

      some_none : (r : Schedule) → some r ≡ none → ⊥
      some_none r e = cc

  upsert_there :
      (there : List Schedule)
      → All Kept there
      → (All (λ x. named row.name x ≡ false) there → ⊥)
      → upsert_schedule again there ≡ there
  unfolding upsert_schedule
  upsert_there there kept present =
      elim (Option-cases (fetch_one (select_where (named row.name) there))) [
        | inl e ↦ absurd (present (fetch_one-none (named row.name) there e))
        | inr (old, e) ↦
            rw (e, upsert_schedule)
              (update_where_same (named row.name) (set_registered again) there kept)
      ]

  pub upsert_again :
      (rows : List Schedule)
      → upsert_schedule again (upsert_schedule row rows) ≡ upsert_schedule row rows
  upsert_again rows = upsert_there (upsert_schedule row rows) (upserted rows).0 (upserted rows).1
