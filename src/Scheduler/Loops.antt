-- ===== src/Scheduler/Loops.antt =====
-- The loops of _clock_at_or_before and _clock_after end.
use durable_queue.Prelude.{
  ◌*◌, String, ℕ, zero, suc, ◌+◌, ◌-◌, ◌≤◌, ◌<◌, ◌≡◌, refl, subst, ◌∙◌, ◌⊎◌, inl, inr, some, arith,
  Bool-cases, leb, leb→le,
}
use durable_queue.Scheduler.{one_day}
use durable_queue.Scheduler.Clock.{last_day, first_day, IsZone}

dec_le : (a b : ℕ) → (a ≤ b) ⊎ (b < a)
dec_le a b = elim (Bool-cases (leb a b)) [ inl e ↦ inl (leb→le a b e) | inr e ↦ inr (ground arith) ]

module _ (on : ℕ → ℕ) (i : ℕ) where
  -- The day before one whose time is yet to come, for a loop that stops there.
  day_before : (d e : ℕ) → i < on d → on e ≤ i → e ≡ d - 1 → (e ≡ d) ⊎ (i < on (e + 1))
  day_before zero e later passed eq = inl (omega arith)
  day_before (suc d) e later passed eq = inr (subst (λ x. i < on x) (omega arith) later)

  last_day_stops : (n d : ℕ) → on d ≤ i → last_day on i (suc n) d ≡ some d
  unfolding last_day
  last_day_stops n d b = ground arith

  last_day_goes : (n d : ℕ) → i < on d → last_day on i (suc n) d ≡ last_day on i n (d - 1)
  unfolding last_day
  last_day_goes n d b = ground arith

  -- The backward loop ends within its fuel where it comes to a day whose time has come.
  pub last_day_found :
      (n k d : ℕ)
      → k < n
      → on (d - k) ≤ i
      → (e : ℕ) × (last_day on i n d ≡ some e) × (on e ≤ i) × ((e ≡ d) ⊎ (i < on (e + 1)))
  last_day_found zero k d h b = absurd (omega arith)
  last_day_found (suc n) zero d h b =
      let come : on d ≤ i = subst (λ x. on x ≤ i) (omega arith) b in
      (d, last_day_stops n d come, come, inl refl)
  last_day_found (suc n) (suc k) d h b = elim (dec_le (on d) i) [
    | inl come ↦ (d, last_day_stops n d come, come, inl refl)
    | inr later ↦
        let (e, found, passed, next) =
          last_day_found n k (d - 1) (omega arith) (subst (λ x. on x ≤ i) (omega arith) b) in
        (
          e,
          last_day_goes n d later ∙ found,
          passed,
          elim next [ inl eq ↦ day_before d e later passed eq | inr more ↦ inr more ],
        )
  ]

  first_day_stops : (n d : ℕ) → i < on d → first_day on i (suc n) d ≡ some d
  unfolding first_day
  first_day_stops n d b = ground arith

  first_day_goes : (n d : ℕ) → on d ≤ i → first_day on i (suc n) d ≡ first_day on i n (d + 1)
  unfolding first_day
  first_day_goes n d b = ground arith

  -- So does the forward loop, where it comes to a day whose time is yet to come.
  pub first_day_found :
      (n k d : ℕ) → k < n → i < on (d + k) → (e : ℕ) × (first_day on i n d ≡ some e) × (i < on e)
  first_day_found zero k d h b = absurd (omega arith)
  first_day_found (suc n) zero d h b =
      let later : i < on d = subst (λ x. i < on x) (omega arith) b in
      (d, first_day_stops n d later, later)
  first_day_found (suc n) (suc k) d h b = elim (dec_le (on d) i) [
    | inl early ↦
        let (e, found, later) =
          first_day_found n k (d + 1) (omega arith) (subst (λ x. i < on x) (omega arith) b) in
        (e, first_day_goes n d early ∙ found, later)
    | inr later ↦ (d, first_day_stops n d later, later)
  ]

module _ (on : String → ℕ → ℕ → ℕ) (local_date : String → ℕ → ℕ) (z : IsZone on local_date) where
  -- Three days before an instant's date, a time of day has come.
  pub early_enough :
      (zone : String) (at i : ℕ)
      → at < one_day
      → 5 * one_day ≤ i
      → on zone at (local_date zone i - 3) ≤ i
  early_enough zone at i h k =
      omega
        (arith, z.on_early zone at (local_date zone i - 3), z.date_early zone i, z.date_late zone i)

  pub late_enough : (zone : String) (at i : ℕ) → i < on zone at (local_date zone i + 3)
  late_enough zone at i =
      omega (arith, z.on_late zone at (local_date zone i + 3), z.date_late zone i)
