-- ===== src/Benchmark/Drain.antt =====
-- How the drain loop of scripts/benchmark.py ends.
use durable_queue.Prelude.{
  ℕ, suc, ◌+◌, ◌-◌, ◌≤◌, ◌<◌, ◌≡◌, refl, ap, sym, ◌∙◌, true, false, List, [], ◌∷◌, ◌++◌, arith, All,
  Bool-cases, inl, inr, ltb, ltb→lt,
}
use durable_queue.Sql.{count_where}
use durable_queue.Jobs.{Job, is_finished, is_pending, is_running}
use durable_queue.Benchmark.{
  any_unfinished, pending_count, Poll, Drained, drained, not_drained, draining, drain_until, drain,
}

pending_count_sum :
    (rows : List Job)
    → pending_count rows
      ≡ count_where (λ j. is_pending j.status) rows + count_where (λ j. is_running j.status) rows
unfolding pending_count count_where
pending_count_sum [] = refl
pending_count_sum (x ∷ xs) = ground (arith, pending_count_sum xs)

-- The two index scans of the drain loop ask whether the plain count is not zero.
pub any_unfinished_lem : (rows : List Job) → any_unfinished rows ≡ ltb 0 (pending_count rows)
unfolding any_unfinished
any_unfinished_lem rows = ground (arith, pending_count_sum rows)

none_left : (rows : List Job) → pending_count rows ≡ 0 → All (λ j. is_finished j.status ≡ true) rows
unfolding pending_count count_where
none_left [] h = tt
none_left (x ∷ xs) h = elim (Bool-cases (is_finished x.status)) [
  | inl e ↦ (e, none_left xs (rw (e, count_where) at h))
  | inr e ↦ absurd (left_over (rw (e, count_where) at h))
]
  where
    left_over : {n : ℕ} → suc n ≡ 0 → ⊥
    left_over h = cc

finished :
    (rows : List Job) → any_unfinished rows ≡ false → All (λ j. is_finished j.status ≡ true) rows
finished rows e = none_left rows (none (pending_count rows) (sym (any_unfinished_lem rows) ∙ e))
  where
    none : (n : ℕ) → ltb 0 n ≡ false → n ≡ 0
    none n h = ground (arith, h)

-- A look that finds a job that is not finished, while the deadline has not passed.
abbrev pub GoesOn : ℕ → Poll → Type 0
GoesOn deadline q = (any_unfinished q.found ≡ true) × (q.clock ≤ deadline)

-- The look that ends the loop, behind those that it goes on after.
abbrev pub EndsAt : ℕ → List Poll → (Poll → Type 0) → Type 0
EndsAt deadline qs E =
    (before : List Poll) × (q : Poll) × (rest : List Poll) × (qs ≡ before ++ q ∷ rest)
    × All (GoesOn deadline) before
    × E q

abbrev pub HowDrained : (begun deadline : ℕ) → List Poll → Drained → Type 0
HowDrained begun deadline qs (drained elapsed) =
    EndsAt deadline qs
      (λ q. All (λ j. is_finished j.status ≡ true) q.found × (elapsed ≡ q.clock - begun))
HowDrained begun deadline qs (not_drained left) =
    EndsAt deadline qs (λ q.
      (any_unfinished q.found ≡ true) × (deadline < q.clock) × (left ≡ pending_count q.counted))
HowDrained begun deadline qs draining = All (GoesOn deadline) qs

later :
    (begun deadline : ℕ) (q : Poll) (qs : List Poll) (d : Drained)
    → GoesOn deadline q
    → HowDrained begun deadline qs d
    → HowDrained begun deadline (q ∷ qs) d
later begun deadline q qs (drained n) g (before, p, rest, e, all, ends) =
    (q ∷ before, p, rest, ap (λ l. q ∷ l) e, (g, all), ends)
later begun deadline q qs (not_drained n) g (before, p, rest, e, all, ends) =
    (q ∷ before, p, rest, ap (λ l. q ∷ l) e, (g, all), ends)
later begun deadline q qs draining g all = (g, all)

drain_until_lem :
    (begun deadline : ℕ) (qs : List Poll)
    → HowDrained begun deadline qs (drain_until begun deadline qs)
unfolding drain_until
drain_until_lem begun deadline [] = tt
drain_until_lem begun deadline (q ∷ qs) = elim (Bool-cases (any_unfinished q.found)) [
  | inr e ↦ rw (e, drain_until) ([], q, qs, refl, tt, (finished q.found e, refl))
  | inl e ↦ elim (Bool-cases (ltb deadline q.clock)) [
    | inl c ↦ rw (e, c, drain_until) ([], q, qs, refl, tt, (e, ltb→lt deadline q.clock c, refl))
    | inr c ↦
        rw (e, c, drain_until)
          (later begun deadline q qs (drain_until begun deadline qs) (e, within deadline q.clock c)
            (drain_until_lem begun deadline qs))
  ]
]
  where
    within : (n m : ℕ) → ltb n m ≡ false → m ≤ n
    within n m h = ground (arith, h)

-- The drain loop goes on while it finds jobs that are not finished and its deadline has not passed; it
-- returns at the first look that finds only finished jobs, and raises at a look that finds others past
-- the deadline.
pub drain_lem :
    (begun timeout : ℕ) (qs : List Poll)
    → HowDrained begun (begun + timeout) qs (drain begun timeout qs)
unfolding drain
drain_lem begun timeout qs = drain_until_lem begun (begun + timeout) qs
