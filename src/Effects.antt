-- ===== src/Effects.antt =====
-- src/durable_queue/effects.py: the ledger of effects that cannot be undone.
use durable_queue.Prelude.{
  ◌≡◌, refl, subst, sym, String, Bool, true, false, ◌||◌, List, [], ◌∷◌, ◌++◌, inl, inr, arith,
  Bool-cases, All, All-imp, All-append, str_eq, eq_refl, eq_iff, if◌then◌else◌,
}

-- SELECT 1 FROM effects WHERE key = key
unfoldable pub has_effect : String → List String → Bool
has_effect key [] = false
has_effect key (k ∷ ledger) = str_eq k key || has_effect key ledger

-- INSERT … ON CONFLICT (key) DO NOTHING, committed.
unfoldable pub record_effect : String → List String → List String
unfolding has_effect
record_effect key ledger = if has_effect key ledger then ledger else ledger ++ key ∷ []

-- Where a task's process dies: before the effect, after it but before its record, or not at all.
pub data Crash : Type 0 where
  dies_first dies_between lives : Crash

-- The ledger, and the effects in the order in which they happened.
pub record Outside : Type 0 where
  pub ledger : List String
  pub happened : List String

-- A run of a task as record_effect's docstring wants it: check, act, record.
unfoldable pub attempt : String → Crash → Outside → Outside
attempt key crash o = if has_effect key o.ledger then o else elim crash [
  | dies_first ↦ o
  | dies_between ↦ record o { happened = o.happened ++ key ∷ [] }
  | lives ↦ record { ledger = record_effect key o.ledger; happened = o.happened ++ key ∷ [] }
]

unfoldable pub attempts : List (String × Crash) → Outside → Outside
unfolding attempt
attempts [] o = o
attempts ((key, crash) ∷ rest) o = attempts rest (attempt key crash o)

has_effect-append :
    (key added : String) (ledger : List String)
    → has_effect key (ledger ++ added ∷ []) ≡ (has_effect key ledger || str_eq added key)
unfolding has_effect
has_effect-append key added [] = ground arith
has_effect-append key added (k ∷ ledger) = ground (arith, has_effect-append key added ledger)

or_true : (b : Bool) → (b || true) ≡ true
or_true true = refl
or_true false = refl

recorded : (key : String) (ledger : List String) → has_effect key (record_effect key ledger) ≡ true
unfolding record_effect
recorded key ledger = elim (Bool-cases (has_effect key ledger)) [
  | inl e ↦ rw (e, e)
  | inr e ↦ rw (e, has_effect-append key key ledger, eq_refl key) (or_true (has_effect key ledger))
]

kept :
    (key added : String) (ledger : List String)
    → has_effect key ledger ≡ true
    → has_effect key (record_effect added ledger) ≡ true
unfolding record_effect
kept key added ledger h = elim (Bool-cases (has_effect added ledger)) [
  | inl e ↦ rw (e, h)
  | inr e ↦ rw (e, has_effect-append key added ledger, h)
]

happened_kept :
    (key added : String) (happened : List String)
    → has_effect key happened ≡ true
    → has_effect key (happened ++ added ∷ []) ≡ true
happened_kept key added happened h = rw (has_effect-append key added happened, h)

happened_now :
    (key : String) (happened : List String) → has_effect key (happened ++ key ∷ []) ≡ true
happened_now key happened =
    rw (has_effect-append key key happened, eq_refl key) (or_true (has_effect key happened))

-- What is recorded has happened.
abbrev pub IsHonest : Outside → Type 0
IsHonest o = All (λ key. has_effect key o.happened ≡ true) o.ledger

All-recorded :
    (P : String → Type 0) (key : String) (ledger : List String)
    → All P ledger
    → P key
    → All P (record_effect key ledger)
unfolding record_effect
All-recorded P key ledger h k = elim (Bool-cases (has_effect key ledger)) [
  | inl e ↦ rw e h
  | inr e ↦ rw e (All-append P ledger _ h (k, tt))
]

-- An attempt of an effect that is recorded, and of one that is not.
attempt_skips :
    (key : String) (crash : Crash) (o : Outside)
    → has_effect key o.ledger ≡ true
    → attempt key crash o ≡ o
unfolding attempt
attempt_skips key crash o e = rw e

acted-IsHonest :
    (key : String) (crash : Crash) (o : Outside)
    → IsHonest o
    → has_effect key o.ledger ≡ false
    → IsHonest (attempt key crash o)
unfolding attempt
acted-IsHonest key dies_first o h e = rw e h
acted-IsHonest key dies_between o h e =
    rw e (All-imp _ _ (λ k t. happened_kept k key o.happened t) o.ledger h)
acted-IsHonest key lives o h e = rw e (
    All-recorded (λ k. has_effect k (o.happened ++ key ∷ []) ≡ true) key o.ledger
      (All-imp _ _ (λ k t. happened_kept k key o.happened t) o.ledger h)
      (happened_now key o.happened))

attempt-IsHonest :
    (key : String) (crash : Crash) (o : Outside) → IsHonest o → IsHonest (attempt key crash o)
attempt-IsHonest key crash o h = elim (Bool-cases (has_effect key o.ledger)) [
  | inl e ↦ subst IsHonest (sym (attempt_skips key crash o e)) h
  | inr e ↦ acted-IsHonest key crash o h e
]

attempts-IsHonest :
    (tries : List (String × Crash)) (o : Outside) → IsHonest o → IsHonest (attempts tries o)
unfolding attempts
attempts-IsHonest [] o h = h
attempts-IsHonest ((key, crash) ∷ tries) o h =
    attempts-IsHonest tries (attempt key crash o) (attempt-IsHonest key crash o h)

acted_keeps :
    (key other : String) (crash : Crash) (o : Outside)
    → has_effect key o.ledger ≡ true
    → has_effect other o.ledger ≡ false
    → has_effect key (attempt other crash o).ledger ≡ true
unfolding attempt
acted_keeps key other dies_first o h e = rw e h
acted_keeps key other dies_between o h e = rw e h
acted_keeps key other lives o h e = rw e (kept key other o.ledger h)

attempt_keeps :
    (key other : String) (crash : Crash) (o : Outside)
    → has_effect key o.ledger ≡ true
    → has_effect key (attempt other crash o).ledger ≡ true
attempt_keeps key other crash o h = elim (Bool-cases (has_effect other o.ledger)) [
  | inl e ↦
      subst (λ (p : Outside). has_effect key p.ledger ≡ true) (sym (attempt_skips other crash o e))
        h
  | inr e ↦ acted_keeps key other crash o h e
]

attempts_keep :
    (key : String) (tries : List (String × Crash)) (o : Outside)
    → has_effect key o.ledger ≡ true
    → has_effect key (attempts tries o).ledger ≡ true
unfolding attempts
attempts_keep key [] o h = h
attempts_keep key ((other, crash) ∷ tries) o h =
    attempts_keep key tries (attempt other crash o) (attempt_keeps key other crash o h)

attempt_records : (key : String) (o : Outside) → has_effect key (attempt key lives o).ledger ≡ true
unfolding attempt
attempt_records key o = elim (Bool-cases (has_effect key o.ledger)) [
  | inl e ↦ rw (e, e)
  | inr e ↦ rw e (recorded key o.ledger)
]

All-has_effect :
    (P : String → Type 0) (key : String) (ledger : List String)
    → All P ledger
    → has_effect key ledger ≡ true
    → P key
unfolding has_effect
All-has_effect P key [] h e = cc
All-has_effect P key (k ∷ ledger) h e = elim (Bool-cases (str_eq k key)) [
  | inl found ↦ subst P ((eq_iff k key).0 found) h.0
  | inr other ↦ All-has_effect P key ledger h.1 (rw other at e)
]

-- Where nothing is recorded that has not happened and an attempt at an effect lives to its end,
-- then after any further attempts with any crashes what is recorded has happened, this effect has
-- happened, and a further attempt at it does nothing.
pub attempts_lem :
    (key : String) (tries : List (String × Crash)) (crash : Crash) (o : Outside)
    → IsHonest o
    → IsHonest (attempts tries (attempt key lives o))
      × (has_effect key (attempts tries (attempt key lives o)).happened ≡ true)
      × (attempt key crash (attempts tries (attempt key lives o))
          ≡ attempts tries (attempt key lives o))
attempts_lem key tries crash o h =
    let honest = attempts-IsHonest tries (attempt key lives o) (attempt-IsHonest key lives o h) in
    let there = attempts_keep key tries (attempt key lives o) (attempt_records key o) in
    (
      honest,
      All-has_effect (λ k. has_effect k (attempts tries (attempt key lives o)).happened ≡ true) key
          (attempts tries (attempt key lives o)).ledger honest there,
      attempt_skips key crash (attempts tries (attempt key lives o)) there,
    )
