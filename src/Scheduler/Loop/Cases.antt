-- ===== src/Scheduler/Loop/Cases.antt =====
-- What holds of every way that a round can go.
use durable_queue.Prelude.{ℕ, ◌≡◌, refl, String, Bool, true, false, Option, none, some}
use durable_queue.Database.{Reach, get, Link, answered, broken, unheard, failed}
use durable_queue.Worker.Sleep.{reconnect_min_delay}
use durable_queue.Scheduler.{Tables}
use durable_queue.Scheduler.Due.{seconds_until_next_schedule}
use durable_queue.Scheduler.Loop.{
  Round, Looping, Turned, pauses, sleeps, raises, lose, rest_until, look_ahead, after_pass, wake_if,
  pass_over, run_pass, round,
}

-- A property P of rounds, where the loop's state has I throughout and the tables are left with L.
pub record Kept {ℓ κ μ} (idle : Bool) (poll : ℕ) (r : Round) (I : Looping → Type ℓ)
    (L : Tables → Type κ) (P : Turned → Type μ) : Type (ℓ ⊔ κ ⊔ μ) where
  pub kept_get : (reach : Reach) (s : Looping) → I s → I (record s { conn = (get reach s.conn).0 })
  pub kept_wake : (fired : ℕ) (s : Looping) → I s → I (wake_if fired s)
  pub when_lost : (left : Tables) (s : Looping) → L left → I s → P (lose left s)
  pub when_raised :
      (left : Tables) (s : Looping)
      → L left
      → I s
      → P (record { loop = s; left = left; turn = raises })
  pub when_polling :
      idle ≡ false
      → (left : Tables) (s : Looping) → L left
      → I s
      → P (record {
        loop = record s { retry_delay = reconnect_min_delay };
        left = left;
        turn = sleeps (pauses poll);
      })
  pub when_idle :
      idle ≡ true
      → (left : Tables) (s : Looping) → L left
      → I s
      → P (rest_until (seconds_until_next_schedule r.later left) left s)

module _ {ℓ κ μ} (idle : Bool) (poll : ℕ) (r : Round) (I : Looping → Type ℓ) (L : Tables → Type κ)
    (P : Turned → Type μ) (k : Kept idle poll r I L P) where
  look_ahead-Kept :
      (left : Tables) (s : Looping) (got : Option ℕ)
      → idle ≡ true
      → L left
      → I s
      → P (look_ahead r left s got)
  unfolding look_ahead
  look_ahead-Kept left s none e l i = k.when_lost left s l i
  look_ahead-Kept left s (some c) e l i = by_link r.query
    where
      by_link :
          (link : Link)
          → P (elim link [
            | answered ↦ rest_until (seconds_until_next_schedule r.later left) left s
            | broken ↦ lose left s
            | unheard ↦ lose left s
            | failed ↦ record { loop = s; left = left; turn = raises }
          ])
      by_link answered = k.when_idle e left s l i
      by_link broken = k.when_lost left s l i
      by_link unheard = k.when_lost left s l i
      by_link failed = k.when_raised left s l i

  after_pass-Kept :
      (b : Bool)
      → idle ≡ b
      → (left : Tables) (s : Looping) → L left
      → I s
      → P (after_pass b poll r left s)
  unfolding after_pass
  after_pass-Kept true e left s l i =
      look_ahead-Kept left (record s { conn = (get r.second s.conn).0 }) (get r.second s.conn).1 e l
        (k.kept_get r.second s i)
  after_pass-Kept false e left s l i = k.when_polling e left s l i

  module _ (on : String → ℕ → ℕ → ℕ) (local_date : String → ℕ → ℕ) (isoformat : ℕ → String)
      (found : L r.found)
      (passed : (left : Tables) (fired : ℕ)
        → pass_over on local_date isoformat r ≡ some (left, fired)
        → L left) where
    run_pass-Kept :
        (s : Looping) (got : Option ℕ)
        → I s
        → P (run_pass on local_date isoformat idle poll r s got)
    unfolding run_pass
    run_pass-Kept s none i = k.when_lost r.found s found i
    run_pass-Kept s (some c) i = by_link r.pass (pass_over on local_date isoformat r) passed
      where
        by_link :
            (link : Link) (o : Option (Tables × ℕ))
            → ((left : Tables) (fired : ℕ) → o ≡ some (left, fired) → L left)
            → P (elim link [
              | broken ↦ lose r.found s
              | failed ↦ record { loop = s; left = r.found; turn = raises }
              | answered ↦ elim o [
                | none ↦ record { loop = s; left = r.found; turn = raises }
                | some (left, fired) ↦ after_pass idle poll r left (wake_if fired s)
              ]
              | unheard ↦ elim o [
                | none ↦ record { loop = s; left = r.found; turn = raises }
                | some (left, fired) ↦ lose left s
              ]
            ])
        by_link broken o h = k.when_lost r.found s found i
        by_link failed o h = k.when_raised r.found s found i
        by_link answered none h = k.when_raised r.found s found i
        by_link answered (some (left, fired)) h =
            after_pass-Kept idle refl left (wake_if fired s) (h left fired refl)
              (k.kept_wake fired s i)
        by_link unheard none h = k.when_raised r.found s found i
        by_link unheard (some (left, fired)) h = k.when_lost left s (h left fired refl) i

    pub round-Kept : (s : Looping) → I s → P (round on local_date isoformat idle poll r s)
    unfolding round
    round-Kept s i =
        run_pass-Kept (record s { conn = (get r.first s.conn).0 }) (get r.first s.conn).1
          (k.kept_get r.first s i)
