-- ===== src/Wakeup.antt =====
-- src/durable_queue/wakeup.py: the counter that idle loops sleep on.
use mathlib.Core.Option
use durable_queue.Prelude.{
  ℕ, suc, ◌+◌, ◌≤◌, ◌<◌, ◌≡◌, refl, Bool, true, false, List, [], ◌∷◌, Option, none, some, arith,
  ◌==◌, leb, if◌then◌else◌, ◌&&◌, ◌||◌, ==_refl, Bool-cases, inl, inr,
}

-- _generation. It never wraps, as Python's integers do not.
abbrev pub current : ℕ → ℕ
current generation = generation

abbrev pub wake : ℕ → ℕ
wake generation = generation + 1

-- What happens at a moment, as far as a sleeping loop can tell: some thread calls wake(), or not, and
-- then the monotonic clock shows this time.
pub record Moment : Type 0 where
  pub woken : Bool
  pub clock : ℕ

abbrev pub after : Moment → ℕ → ℕ
after m generation = if m.woken then wake generation else generation

-- The generation after a stretch of moments.
unfoldable pub generation_after : List Moment → ℕ → ℕ
generation_after [] generation = generation
generation_after (m ∷ ms) generation = generation_after ms (after m generation)

-- Whether somebody called wake().
abbrev pub has_woken : List Moment → Bool
has_woken [] = false
has_woken (m ∷ ms) = m.woken || has_woken ms

abbrev pub is_past : Option ℕ → ℕ → Bool
is_past none clock = false
is_past (some deadline) clock = leb deadline clock

-- _changed.wait_for(lambda: _generation != seen, timeout): how many moments a loop sleeps through, until
-- the predicate holds, which is tested first, or the deadline has come. `none`: all of them, and on.
unfoldable pub wait : ℕ → Option ℕ → ℕ → List Moment → Option ℕ
wait seen deadline generation [] = if generation == seen then none else some 0
wait seen deadline generation (m ∷ ms) =
    let rest = wait seen deadline (after m generation) ms in
    if generation == seen
    then (if is_past deadline m.clock then some 1 else Option.map suc rest)
    else some 0

-- A moment as a pause sees it: whether some thread sets `stop` then, and the clock.
pub record Tick : Type 0 where
  pub sets : Bool
  pub clock : ℕ

-- pause(seconds, stop): how many moments it lasts, sleep() up to the deadline where there is no `stop`, else
-- stop.wait() up to the deadline or until it is set, as it may be already. `none`: all of them, and on.
unfoldable pub pause : (has_stop : Bool) (deadline : ℕ) (is_set : Bool) → List Tick → Option ℕ
pause has_stop deadline is_set [] = if has_stop && is_set then some 0 else none
pause has_stop deadline is_set (m ∷ ms) =
    let rest = pause has_stop deadline (is_set || m.sets) ms in
    if has_stop && is_set
    then some 0
    else if leb deadline m.clock
    then some 1
    else Option.map suc rest

generation_after-le : (ms : List Moment) (g : ℕ) → g ≤ generation_after ms g
unfolding generation_after
generation_after-le [] g = omega arith
generation_after-le (m ∷ ms) g = ground (arith, generation_after-le ms (after m g))

generation_after-lt : (ms : List Moment) (g : ℕ) → has_woken ms ≡ true → g < generation_after ms g
unfolding generation_after
generation_after-lt [] g h = cc
generation_after-lt (m ∷ ms) g h =
    ground (arith, generation_after-le ms (after m g), generation_after-lt ms (after m g))

generation_after-none :
    (ms : List Moment) (g : ℕ) → has_woken ms ≡ false → generation_after ms g ≡ g
unfolding generation_after
generation_after-none [] g h = refl
generation_after-none (m ∷ ms) g h = ground (arith, generation_after-none ms (after m g))

pub at_once :
    (seen : ℕ) (deadline : Option ℕ) (g : ℕ) (ms : List Moment)
    → seen < g
    → wait seen deadline g ms ≡ some 0
unfolding wait
at_once seen deadline g [] h = ground arith
at_once seen deadline g (m ∷ ms) h = ground arith

-- How many moments go by up to the first that the test holds of.
abbrev pub first : (Moment → Bool) → List Moment → Option ℕ
first p [] = none
first p (m ∷ ms) = if p m then some 1 else Option.map suc (first p ms)

abbrev pub rouses : Option ℕ → Moment → Bool
rouses deadline m = m.woken || is_past deadline m.clock

wait-first :
    (deadline : Option ℕ) (g : ℕ) (ms : List Moment)
    → wait g deadline g ms ≡ first (rouses deadline) ms
unfolding wait
wait-first deadline g [] = rw (==_refl g)
wait-first deadline g (m ∷ ms) = elim (Bool-cases m.woken) [
  | inl e ↦
      rw (==_refl g, e, at_once g deadline (g + 1) ms (omega arith))
        (either (is_past deadline m.clock))
  | inr e ↦ rw (==_refl g, e, wait-first deadline g ms)
]
  where
    one : Option ℕ
    one = some 1

    either : (b : Bool) → (if b then one else one) ≡ one
    either true = refl
    either false = refl

-- A loop that reads the counter, looks for work and waits returns at once if wake() was called in
-- between, and otherwise at the first wake() or its deadline, whichever comes first.
pub wait_lem :
    (deadline : Option ℕ) (generation : ℕ) (before ms : List Moment)
    → wait (current generation) deadline (generation_after before generation) ms
      ≡ (if has_woken before then some 0 else first (rouses deadline) ms)
wait_lem deadline generation before ms = elim (Bool-cases (has_woken before)) [
  | inl e ↦ rw e (
      at_once generation deadline (generation_after before generation) ms
        (generation_after-lt before generation e))
  | inr e ↦ rw (e, generation_after-none before generation e) (wait-first deadline generation ms)
]
