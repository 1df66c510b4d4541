-- ===== src/Database/Reopened.antt =====
-- A connection that is reopened is never one of two.
use mathlib.Core.Path.{ap₂}
use durable_queue.Prelude.{
  ℕ, ◌≤◌, ◌≡◌, refl, subst, sym, ap, ◌∙◌, true, false, List, [], ◌∷◌, Option, none, some, ◌⊎◌, inl,
  inr, arith, Bool-cases, Option-cases, length, ◌==◌, ==_refl,
}
use durable_queue.Database.{
  Reconnecting, unopened, without, is_broken, Reach, unreachable, setup_raises, reached, get, close,
  Use, gets, closes, drops, use_once, use_all,
}

-- At most the connection that it keeps is open.
abbrev pub IsTidy : Reconnecting → Type 0
IsTidy s = (s.opened ≡ []) ⊎ ((i : ℕ) × (s.opened ≡ i ∷ []) × (s.conn ≡ some i))

tidy :
    (conn : Option ℕ) (opened : List ℕ)
    → (opened ≡ []) ⊎ ((i : ℕ) × (opened ≡ i ∷ []) × (conn ≡ some i))
    → is_broken conn opened ≡ true
    → opened ≡ []
tidy conn opened (inl e) b = e
tidy conn opened (inr (i, e, c)) b =
    absurd (not_broken (subst (λ o. is_broken o opened ≡ true) c b))
  where
    not_broken : is_broken (some i) opened ≡ true → ⊥
    not_broken t = ground (arith, subst (λ (l : List ℕ). is_broken (some i) l ≡ true) e t)

tidy_kept :
    (conn : Option ℕ) (opened : List ℕ)
    → (opened ≡ []) ⊎ ((i : ℕ) × (opened ≡ i ∷ []) × (conn ≡ some i))
    → is_broken conn opened ≡ false
    → (i : ℕ) × (opened ≡ i ∷ []) × (conn ≡ some i)
tidy_kept none opened h b = cc
tidy_kept (some i) opened (inl e) b =
    absurd (broken (subst (λ (l : List ℕ). is_broken (some i) l ≡ false) e b))
  where
    broken : is_broken (some i) [] ≡ false → ⊥
    broken t = cc
tidy_kept (some i) opened (inr h) b = h

without-IsTidy :
    (i : ℕ) (s : Reconnecting) → IsTidy s → IsTidy (record s { opened = without i s.opened })
unfolding without
without-IsTidy i s (inl e) = inl (rw e)
without-IsTidy i s (inr (j, e, c)) = elim (Bool-cases (j == i)) [
  | inl t ↦ inl (rw (e, t))
  | inr t ↦ inr (j, rw (e, t), c)
]

without_self : (i : ℕ) → without i (i ∷ []) ≡ []
unfolding without
without_self i = rw (==_refl i)

-- get() of a broken connection, whichever way it goes.
get_broken :
    (reach : Reach) (s : Reconnecting)
    → s.opened ≡ []
    → is_broken s.conn s.opened ≡ true
    → IsTidy (get reach s).0
unfolding get
get_broken unreachable s n b = rw b (inl n)
get_broken setup_raises s n b =
    rw b (inl (ap (λ (l : List ℕ). without s.next (s.next ∷ l)) n ∙ without_self s.next))
get_broken reached s n b = rw b (inr (s.next, ap (◌∷◌ s.next) n, refl))

get_kept :
    (reach : Reach) (s : Reconnecting)
    → is_broken s.conn s.opened ≡ false
    → get reach s ≡ (s, s.conn)
unfolding get
get_kept reach s b = rw b

pub get-IsTidy : (reach : Reach) (s : Reconnecting) → IsTidy s → IsTidy (get reach s).0
get-IsTidy reach s h = elim (Bool-cases (is_broken s.conn s.opened)) [
  | inl b ↦ get_broken reach s (tidy s.conn s.opened h b) b
  | inr b ↦ subst (λ (r : Reconnecting × Option ℕ). IsTidy r.0) (sym (get_kept reach s b)) h
]

pub close-IsTidy : (s : Reconnecting) → IsTidy s → IsTidy (close s)
unfolding close without
close-IsTidy s (inl e) = elim (Option-cases s.conn) [
  | inl c ↦ rw (c, close) (inl e)
  | inr (i, c) ↦ rw (c, close) (inl (ap (without i) e))
]
close-IsTidy s (inr (i, e, c)) = rw c (inl (ap (without i) e ∙ without_self i))

pub close_opened : (s : Reconnecting) → IsTidy s → (close s).opened ≡ []
unfolding close without
close_opened s (inl e) = elim (Option-cases s.conn) [
  | inl c ↦ rw (c, close) e
  | inr (i, c) ↦ rw (c, close) (ap (without i) e)
]
close_opened s (inr (i, e, c)) = rw c (ap (without i) e ∙ without_self i)

use_once-IsTidy : (u : Use) (s : Reconnecting) → IsTidy s → IsTidy (use_once u s)
unfolding use_once
use_once-IsTidy (gets reach) s h = get-IsTidy reach s h
use_once-IsTidy closes s h = close-IsTidy s h
use_once-IsTidy (drops i) s h = without-IsTidy i s h

use_all-IsTidy : (us : List Use) (s : Reconnecting) → IsTidy s → IsTidy (use_all us s)
unfolding use_all
use_all-IsTidy [] s h = h
use_all-IsTidy (u ∷ us) s h = use_all-IsTidy us (use_once u s) (use_once-IsTidy u s h)

pub one_open : (s : Reconnecting) → IsTidy s → length s.opened ≤ 1
one_open s (inl e) = subst (λ (l : List ℕ). length l ≤ 1) (sym e) (omega arith)
one_open s (inr (i, e, c)) = subst (λ (l : List ℕ). length l ≤ 1) (sym e) (omega arith)

-- get() where the server can be reached and setup succeeds.
get_reached :
    (s : Reconnecting)
    → IsTidy s
    → (i : ℕ) × ((get reached s).1 ≡ some i)
      × ((get reached s).0.opened ≡ i ∷ [])
      × ((get reached s).0.conn ≡ some i)
unfolding get
get_reached s h = elim (Bool-cases (is_broken s.conn s.opened)) [
  | inl b ↦ (s.next, rw b, rw b (ap (◌∷◌ s.next) (tidy s.conn s.opened h b)), rw b)
  | inr b ↦
      let (i, e, c) = tidy_kept s.conn s.opened h b in
      subst
        (λ (r : Reconnecting × Option ℕ).
          (x : ℕ) × (r.1 ≡ some x) × (r.0.opened ≡ x ∷ []) × (r.0.conn ≡ some x))
        (sym (get_kept reached s b)) (i, c, e, c)
]

get_again :
    (reach : Reach) (s : Reconnecting) (i : ℕ)
    → s.opened ≡ i ∷ []
    → s.conn ≡ some i
    → get reach s ≡ (s, some i)
get_again reach s i e c =
    get_kept reach s (ap₂ is_broken c e ∙ not_broken) ∙ ap (λ (o : Option ℕ). (s, o)) c
  where
    not_broken : is_broken (some i) (i ∷ []) ≡ false
    not_broken = rw (==_refl i)

-- However a ReconnectingConnection is used, with drops and failures at any time, at most one
-- connection is open; a get() that reaches the server returns the open one, and the next get()
-- returns it again without connecting.
pub get_lem :
    (us : List Use) (again : Reach)
    → (length (use_all us unopened).opened ≤ 1)
      × ((i : ℕ) × ((get reached (use_all us unopened)).1 ≡ some i)
          × ((get reached (use_all us unopened)).0.opened ≡ i ∷ [])
          × (get again (get reached (use_all us unopened)).0
              ≡ ((get reached (use_all us unopened)).0, some i)))
get_lem us again =
    let h = use_all-IsTidy us unopened (inl refl) in
    let (i, e, o, c) = get_reached (use_all us unopened) h in
    (
      one_open (use_all us unopened) h,
      (i, e, o, get_again again (get reached (use_all us unopened)).0 i o c),
    )
