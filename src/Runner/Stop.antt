-- ===== src/Runner/Stop.antt =====
-- What stop() does to a worker and a scheduler, wherever they are.
use durable_queue.Prelude.{
  ℕ, ◌+◌, ◌*◌, ◌≤◌, ◌≡◌, refl, max, true, List, [], ◌∷◌, Option, none, some, arith, All, length,
}
use durable_queue.Wakeup.{Moment, Tick, wait, at_once, pause}
use durable_queue.Runner.{Call, finished, keep_running, Signals, signal, join, join_all}

paused : (deadline : ℕ) (ms : List Tick) → pause true deadline true ms ≡ some 0
unfolding pause
paused deadline [] = refl
paused deadline (m ∷ ms) = refl

join_all-le :
    (timeout : ℕ) (ends : List ℕ) (clock : ℕ)
    → join_all (some timeout) ends clock ≤ clock + length ends * timeout
unfolding join_all
join_all-le timeout [] clock = omega arith
join_all-le timeout (e ∷ es) clock =
    let rest = join_all-le timeout es (join (some timeout) e clock) in ground (arith, rest)

join_all-last :
    (last : ℕ) (ends : List ℕ) (clock : ℕ)
    → All (λ e. e ≤ last) ends
    → join_all none ends clock ≤ max clock last
unfolding join_all
join_all-last last [] clock h = omega arith
join_all-last last (e ∷ es) clock h = omega (arith, join_all-last last es (max clock e) h.1, h.0)

-- Once stop() has been called: a pause with this event is over at once, and so is a wait of a loop
-- that had read the counter before; a thread that comes to its test of the event makes no further
-- call; stop() returns within its timeout per thread, and without a timeout once all have ended.
pub stop_lem :
    (s : Signals) (seen : ℕ)
    → seen ≤ s.generation
    → ((deadline : ℕ) (ms : List Tick) → pause true deadline (signal s).stop_set ms ≡ some 0)
      × ((deadline : Option ℕ) (ms : List Moment)
          → wait seen deadline (signal s).generation ms ≡ some 0)
      × ((call : Call) (calls : List Call)
          → call.stopped ≡ (signal s).stop_set
          → keep_running (call ∷ calls) ≡ record { calls = 0; delays = 0; ending = finished })
      × ((timeout clock : ℕ) (ends : List ℕ)
          → join_all (some timeout) ends clock ≤ clock + length ends * timeout)
      × ((last clock : ℕ) (ends : List ℕ)
          → All (λ e. e ≤ last) ends
          → join_all none ends clock ≤ max clock last)
unfolding signal keep_running
stop_lem s seen le = (
  λ deadline ms. paused deadline ms,
  λ deadline ms. at_once seen deadline (s.generation + 1) ms (omega (arith, le)),
  λ call calls e. rw e refl,
  λ timeout clock ends. join_all-le timeout ends clock,
  λ last clock ends h. join_all-last last ends clock h,
)
