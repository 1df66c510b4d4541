-- ===== src/Runner/Restart.antt =====
-- A loop that ends is called again until stop() is called.
use mathlib.Core.List.{append-nil}
use durable_queue.Prelude.{
  ℕ, suc, ◌≡◌, refl, subst, true, false, List, [], ◌∷◌, ◌++◌, ◌⊎◌, inl, inr, All, length,
}
use durable_queue.Runner.{CallEnd, returns, crashes, Call, finished, alive, ThreadEnd, keep_running}

-- A call that is made, since `_stop` is not set, and that comes back, by returning or an Exception.
abbrev pub ComesBack : Call → Type 0
ComesBack c = (c.stopped ≡ false) × ((c.ending ≡ returns) ⊎ (c.ending ≡ crashes))

abbrev add_crash : CallEnd → ℕ → ℕ
add_crash crashes n = suc n
add_crash _ n = n

abbrev pub crashes_in : List Call → ℕ
crashes_in [] = 0
crashes_in (c ∷ cs) = add_crash c.ending (crashes_in cs)

after_calls :
    (before cs : List Call) (e : ThreadEnd)
    → All ComesBack before
    → keep_running cs ≡ record { calls = 0; delays = 0; ending = e }
    → keep_running (before ++ cs)
      ≡ record { calls = length before; delays = crashes_in before; ending = e }
unfolding keep_running
after_calls [] cs e h q = q
after_calls (c ∷ before) cs e ((s, inl r), h) q = rw (s, r, after_calls before cs e h q) refl
after_calls (c ∷ before) cs e ((s, inr r), h) q = rw (s, r, after_calls before cs e h q) refl

-- As long as the calls of a loop come back, the thread calls it again, after a delay if it crashed,
-- and does not end; it ends at the first test of the event that finds it set, and calls no more.
pub keep_running_lem :
    (before : List Call) (last : Call) (rest : List Call)
    → All ComesBack before
    → (keep_running before
        ≡ record { calls = length before; delays = crashes_in before; ending = alive })
      × (last.stopped ≡ true
          → keep_running (before ++ last ∷ rest)
            ≡ record { calls = length before; delays = crashes_in before; ending = finished })
unfolding keep_running
keep_running_lem before last rest h = (
  subst
      (λ (cs : List Call).
        keep_running cs
        ≡ record { calls = length before; delays = crashes_in before; ending = alive })
      (append-nil before) (after_calls before [] alive h refl),
  λ s. after_calls before (last ∷ rest) finished h (rw s refl),
)
