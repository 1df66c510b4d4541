-- ===== src/Worker/Loop/Slots.antt =====
-- What the slots' moves change of the state that they share with the loop, and what they do not.
use durable_queue.Prelude.{
  ◌≤◌, ◌<◌, ◌≡◌, refl, true, List, [], ◌∷◌, inl, inr, arith, Bool-cases, contains, length, leb,
  ◌==◌, ==_iff,
}
use durable_queue.Jobs.{Job}
use durable_queue.Jobs.Rows.{ids}
use durable_queue.Worker.Pool.{take_job, finish_job}
use durable_queue.Worker.Loop.{Options, Working, SlotMove, takes, ends, slot_move, slot_moves}

-- A slot that finds the buffer empty leaves it empty.
slot_move-empty :
    (o : Options) (m : SlotMove) (s : Working)
    → s.pool.ready ≡ []
    → (slot_move o m s).pool.ready ≡ []
unfolding slot_move take_job finish_job
slot_move-empty o takes s e = rw (e, take_job) e
slot_move-empty o (ends i) s e = elim (Bool-cases (contains (ids s.pool.running) i)) [
  | inl f ↦ rw (f, finish_job) e
  | inr f ↦ rw (f, finish_job) e
]

pub slot_moves-empty :
    (o : Options) (ms : List SlotMove) (s : Working)
    → s.pool.ready ≡ []
    → (slot_moves o ms s).pool.ready ≡ []
unfolding slot_moves
slot_moves-empty o [] s e = e
slot_moves-empty o (m ∷ ms) s e = slot_moves-empty o ms (slot_move o m s) (slot_move-empty o m s e)

-- Slots open and close no claim connection, and do not touch the delay.
pub slot_moves-conn :
    (o : Options) (ms : List SlotMove) (s : Working)
    → ((slot_moves o ms s).claim_conn ≡ s.claim_conn)
      × ((slot_moves o ms s).retry_delay ≡ s.retry_delay)
unfolding slot_moves slot_move
slot_moves-conn o [] s = (refl, refl)
slot_moves-conn o (takes ∷ ms) s = slot_moves-conn o ms (slot_move o takes s)
slot_moves-conn o (ends i ∷ ms) s = slot_moves-conn o ms (slot_move o (ends i) s)

-- They write nothing to the table over the claim connection.
pub slot_moves-writes :
    (o : Options) (ms : List SlotMove) (s : Working) → (slot_moves o ms s).writes ≡ s.writes
unfolding slot_moves slot_move
slot_moves-writes o [] s = refl
slot_moves-writes o (takes ∷ ms) s = slot_moves-writes o ms (slot_move o takes s)
slot_moves-writes o (ends i ∷ ms) s = slot_moves-writes o ms (slot_move o (ends i) s)

-- In an idle worker, ending the last job counts the generation up.
taken :
    (o : Options) (s : Working) (ready : List Job)
    → (take_job o.settings (record s.pool { ready = ready })).outstanding ≡ s.pool.outstanding
unfolding take_job
taken o s [] = refl
taken o s (x ∷ xs) = elim (Bool-cases (leb o.settings.concurrency (length s.pool.running))) [
  | inl e ↦ rw e refl
  | inr e ↦ rw e refl
]

slot_move-generation :
    (o : Options) (m : SlotMove) (s : Working)
    → o.idle ≡ true
    → (s.generation ≤ (slot_move o m s).generation)
      × (0 < s.pool.outstanding
          → (slot_move o m s).pool.outstanding ≡ 0
          → s.generation < (slot_move o m s).generation)
unfolding slot_move
slot_move-generation o takes s i =
    (omega arith, λ h z. absurd (omega (arith, h, z, taken o s s.pool.ready)))
slot_move-generation o (ends k) s i = (ground (arith, i), λ h z. ground (arith, i, h, z))

pub slot_moves-generation :
    (o : Options) (ms : List SlotMove) (s : Working)
    → o.idle ≡ true
    → (s.generation ≤ (slot_moves o ms s).generation)
      × (0 < s.pool.outstanding
          → (slot_moves o ms s).pool.outstanding ≡ 0
          → s.generation < (slot_moves o ms s).generation)
unfolding slot_moves
slot_moves-generation o [] s i = (omega arith, λ h z. absurd (omega (arith, h, z)))
slot_moves-generation o (m ∷ ms) s i =
    let (le, lt) = slot_move-generation o m s i in
    let (les, lts) = slot_moves-generation o ms (slot_move o m s) i in
    (
      omega (arith, le, les),
      λ h z. elim (Bool-cases ((slot_move o m s).pool.outstanding == 0)) [
        | inl e ↦ omega (arith, les, lt h ((==_iff _ 0).0 e))
        | inr e ↦ omega (arith, le, lts (ground (arith, e)) z)
      ],
    )
