-- ===== src/Scheduler/Pass.antt =====
-- A pass of run_due_schedules leaves nothing due.
use durable_queue.Prelude.{
  ℕ, ◌+◌, ◌*◌, ◌≤◌, ◌<◌, ◌≡◌, refl, sym, ap, ◌∙◌, subst, ◌⊎◌, inl, inr, String, Bool, true, false,
  List, [], ◌∷◌, some, arith, Bool-cases, All, All-zip, All-imp, Each, Each-refl, Each-trans,
  All-Each, str_eq, eq_iff, leb→le, &&_split,
}
use durable_queue.Sql.{select_where, update_where}
use durable_queue.Sql.Laws.{All-select_where, select_where-All, All-selected, select_where_none}
use durable_queue.Scheduler.{Schedule, Tables, IsTimed, named, one_day}
use durable_queue.Scheduler.Clock.{IsZone, IsForward}
use durable_queue.Scheduler.Due.{
  is_due, set_next, slot_to_run, slot_after, fire_slot, fire, fire_all, run_due_schedules,
}
use durable_queue.Scheduler.Slots.{slot_to_run_lem}

-- A row is left alone, or its next run is moved past `now`.
abbrev Later : ℕ → Schedule → Schedule → Type 0
Later now x y = (y.name ≡ x.name) × ((y ≡ x) ⊎ (now < y.next_run_at))

-- A row of that name runs next after `now`.
abbrev Moved : ℕ → String → Schedule → Type 0
Moved now name y = str_eq y.name name ≡ true → now < y.next_run_at

Later-Moved :
    (now : ℕ) (name : String) (x y : Schedule) → Later now x y → Moved now name x → Moved now name y
Later-Moved now name x y (n, inl e) m h =
    subst (λ (r : Schedule). now < r.next_run_at) (sym e)
      (m (subst (λ (r : Schedule). str_eq r.name name ≡ true) e h))
Later-Moved now name x y (n, inr l) m h = l

Later-refl : (now : ℕ) (x : Schedule) → Later now x x
Later-refl now x = (refl, inl refl)

Later-trans : (now : ℕ) (x y z : Schedule) → Later now x y → Later now y z → Later now x z
Later-trans now x y z (n, l) (m, inr k) = (m ∙ n, inr k)
Later-trans now x y z (n, inl e) (m, inl d) = (m ∙ n, inl (d ∙ e))
Later-trans now x y z (n, inr l) (m, inl d) =
    (m ∙ n, inr (subst (λ (r : Schedule). now < r.next_run_at) (sym d) l))

update_where-Later :
    (now next : ℕ) (name : String)
    → now < next
    → (rows : List Schedule)
    → Each (Later now) rows (update_where (named name) (set_next next) rows)
      × All (Moved now name) (update_where (named name) (set_next next) rows)
unfolding update_where
update_where-Later now next name h [] = (tt, tt)
update_where-Later now next name h (x ∷ xs) =
    let (later, moved) = update_where-Later now next name h xs in
    elim (Bool-cases (named name x)) [
      | inl e ↦ rw e (((refl, inr h), later), ((λ _. h), moved))
      | inr e ↦ rw e (((refl, inl refl), later), ((λ t. cc), moved))
    ]

module _ (on : String → ℕ → ℕ → ℕ) (local_date : String → ℕ → ℕ) (isoformat : ℕ → String)
    (z : IsZone on local_date) (f : IsForward on local_date) (now : ℕ) (k : 5 * one_day ≤ now) where
  fire_found :
      (row : Schedule) (s : Tables) (slot next : ℕ)
      → slot_to_run on local_date now row ≡ some slot
      → slot_after on local_date row slot ≡ some next
      → fire on local_date isoformat now row s
        ≡ some (
          record {
            schedules = update_where (named row.name) (set_next next) s.schedules;
            jobs = (fire_slot isoformat now row slot s.jobs).0;
          },
          (fire_slot isoformat now row slot s.jobs).1,
        )
  unfolding fire
  fire_found row s slot next e e' = rw (e, e', fire)

  fire_all_found :
      (d : Schedule) (ds : List Schedule) (s : Tables) (r r' : Tables × ℕ)
      → fire on local_date isoformat now d s ≡ some r
      → fire_all on local_date isoformat now ds r.0 ≡ some r'
      → fire_all on local_date isoformat now (d ∷ ds) s ≡ some (r'.0, r.1 + r'.1)
  unfolding fire_all
  fire_all_found d ds s r r' e e' = rw (e, e', fire_all)

  fired :
      (row : Schedule) (s : Tables)
      → IsTimed row
      → row.next_run_at ≤ now
      → (next : ℕ) × (r : Tables × ℕ) × (fire on local_date isoformat now row s ≡ some r)
        × (r.0.schedules ≡ update_where (named row.name) (set_next next) s.schedules)
        × (now < next)
  unfolding fire
  fired row s t due =
      let (slot, next, e, e', _, later) = slot_to_run_lem on local_date z f row now t due k in
      (
        next,
        (
          record {
            schedules = update_where (named row.name) (set_next next) s.schedules;
            jobs = (fire_slot isoformat now row slot s.jobs).0;
          },
          (fire_slot isoformat now row slot s.jobs).1,
        ),
        fire_found row s slot next e e',
        refl,
        later,
      )

  abbrev Passed : List Schedule → List Schedule → Tables → Type 0
  Passed ds rows s =
      Each (Later now) rows s.schedules × All (λ d. All (Moved now d.name) s.schedules) ds

  fire_all-Passed :
      (ds : List Schedule) (s : Tables)
      → All (λ d. IsTimed d × (d.next_run_at ≤ now)) ds
      → (r : Tables × ℕ) × (fire_all on local_date isoformat now ds s ≡ some r)
        × Passed ds s.schedules r.0
  unfolding fire_all
  fire_all-Passed [] s h = ((s, 0), refl, (Each-refl _ (Later-refl now) s.schedules, tt))
  fire_all-Passed (d ∷ ds) s h =
      let (next, r, e, eq, later) = fired d s h.0.0 h.0.1 in
      let (r', e', (each, all)) = fire_all-Passed ds r.0 h.1 in
      let (first, moved) =
        subst
          (λ (rows : List Schedule).
            Each (Later now) s.schedules rows × All (Moved now d.name) rows)
          (sym eq) (update_where-Later now next d.name later s.schedules) in
      (
        (r'.0, r.1 + r'.1),
        fire_all_found d ds s r r' e e',
        (
          Each-trans _ (Later-trans now) _ _ _ first each,
          (All-Each _ _ (Later-Moved now d.name) _ _ each moved, all),
        ),
      )

  not_due :
      (locked : String → Bool) (xs ys : List Schedule)
      → Each (Later now) xs ys
      → All (λ x. is_due now locked x ≡ true → All (Moved now x.name) ys) xs
      → All (λ y. is_due now locked y ≡ false) ys
  not_due locked [] [] e h = tt
  not_due locked (x ∷ xs) (y ∷ ys) e h = (
    by_due (Bool-cases (is_due now locked y)) e.0,
    not_due locked xs ys e.1 (All-imp _ _ (λ x m d. (m d).1) xs h.1),
  )
    where
      past : y.next_run_at ≤ now → now < y.next_run_at → ⊥
      past a b = omega (arith, a, b)

      by_due :
          (is_due now locked y ≡ true) ⊎ (is_due now locked y ≡ false)
          → Later now x y
          → is_due now locked y ≡ false
      by_due (inr idle) l = idle
      by_due (inl d) (n, inl eq) = absurd (
          past (leb→le y.next_run_at now (&&_split _ _ d).0) (
            (h.0 (subst (λ (r : Schedule). is_due now locked r ≡ true) eq d)).0
              ((eq_iff y.name x.name).1 n)))
      by_due (inl d) (n, inr l) = absurd (past (leb→le y.next_run_at now (&&_split _ _ d).0) l)
  not_due locked [] (y ∷ ys) e h = absurd e
  not_due locked (x ∷ xs) [] e h = absurd e

  -- From five days after the epoch, with timed schedules and zones whose clocks stay within a day
  -- of UTC and do not go back over midnight, a pass succeeds; then no schedule is due but those
  -- another scheduler holds, and a second pass at that time fires nothing and changes nothing.
  pub run_due_schedules_lem :
      (locked : String → Bool) (s : Tables)
      → All IsTimed s.schedules
      → (r : Tables × ℕ) × (run_due_schedules on local_date isoformat now locked s ≡ some r)
        × All (λ y. is_due now locked y ≡ false) r.0.schedules
        × (run_due_schedules on local_date isoformat now locked r.0 ≡ some (r.0, 0))
  unfolding run_due_schedules
  run_due_schedules_lem locked s t =
      let (r, e, (each, all)) = fire_all-Passed (select_where (is_due now locked) s.schedules) s (
        All-zip _ _ _ (λ d td dd. (td, leb→le d.next_run_at now (&&_split _ _ dd).0)) _
          (All-select_where (is_due now locked) IsTimed s.schedules t)
          (select_where-All (is_due now locked) s.schedules)) in
      let over =
        not_due locked s.schedules r.0.schedules each
          (All-selected (is_due now locked) _ s.schedules all) in
      (
        r,
        e,
        over,
        ap (λ (due : List Schedule). fire_all on local_date isoformat now due r.0)
            (select_where_none (is_due now locked) r.0.schedules over),
      )
