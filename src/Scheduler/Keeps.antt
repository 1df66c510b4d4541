-- ===== src/Scheduler/Keeps.antt =====
-- What a pass of run_due_schedules does to the two tables, however it ends.
use mathlib.Core.List.{append-nil, append_assoc}
use durable_queue.Prelude.{
  ℕ, ◌+◌, ◌≤◌, ◌-◌, ◌≡◌, refl, ap, ◌∙◌, subst, sym, String, Bool, List, [], ◌∷◌, ◌++◌, Option, some,
  inl, inr, arith, Bool-cases, Option-cases, some_of, All, All-append, Each, Each-refl, Each-trans,
  length, length-append,
}
use durable_queue.Sql.{select_where, update_where}
use durable_queue.Jobs.{Job, JobTable, pending}
use durable_queue.Jobs.Enqueue.{conflicting, new_row, enqueue}
use durable_queue.Jobs.Enqueue.Upsert.{upsert_new, upsert_old}
use durable_queue.Jobs.Wellformed.{IsWell}
use durable_queue.Jobs.Wellformed.Inserts.{enqueue-IsWell}
use durable_queue.Scheduler.{Schedule, Tables, named}
use durable_queue.Scheduler.Due.{
  is_due, set_next, too_late, slot_key, slot_to_run, slot_after, fire_slot, fire, fire_all,
  run_due_schedules,
}

-- A job that waits for its first run.
abbrev pub IsNew : Job → Type 0
IsNew j = (j.status ≡ pending) × (j.attempts ≡ 0)

-- Rows of that relation differ in next_run_at alone.
abbrev pub SameSchedule : Schedule → Schedule → Type 0
SameSchedule x y = y ≡ set_next y.next_run_at x

-- A table has new jobs behind the old ones, no more of them than a number.
pub record Adds (t t' : JobTable) (fired : ℕ) : Type 0 where
  pub added : List Job
  pub rows_added : t'.rows ≡ t.rows ++ added
  pub at_most : length added ≤ fired
  pub new : All IsNew added
  pub well : IsWell t → IsWell t'

pub record Follows (s s' : Tables) (fired : ℕ) : Type 0 where
  pub adds : Adds s.jobs s'.jobs fired
  pub same_schedules : Each SameSchedule s.schedules s'.schedules

Adds-none : (t : JobTable) (fired : ℕ) → Adds t t fired
Adds-none t fired = record {
  added = [];
  rows_added = sym (append-nil t.rows);
  at_most = omega arith;
  new = tt;
  well = λ v. v;
}

enqueue-Adds :
    (now : ℕ) (task args : String) (key : Option String) (t : JobTable)
    → Adds t (enqueue now task args key t).0 1
unfolding enqueue
enqueue-Adds now task args key t = elim (Option-cases (conflicting key t.rows)) [
  | inl e ↦
      subst (λ (r : JobTable × ℕ). Adds t r.0 1) (sym (upsert_new now task args key t e))
        (record {
          added = new_row now t.next_id task args key ∷ [];
          rows_added = refl;
          at_most = omega arith;
          new = ((refl, refl), tt);
          well = λ v.
              subst (λ (r : JobTable × ℕ). IsWell r.0) (upsert_new now task args key t e)
                (enqueue-IsWell now task args key t v);
        })
  | inr (old, e) ↦
      subst (λ (r : JobTable × ℕ). Adds t r.0 1) (sym (upsert_old now task args key t old e))
        (record {
          added = [];
          rows_added = sym (append-nil t.rows);
          at_most = omega arith;
          new = tt;
          well = λ v.
              subst (λ (r : JobTable × ℕ). IsWell r.0) (upsert_old now task args key t old e)
                (enqueue-IsWell now task args key t v);
        })
]

Adds-trans : (t t' t'' : JobTable) (m n : ℕ) → Adds t t' m → Adds t' t'' n → Adds t t'' (m + n)
Adds-trans t t' t'' m n a b = record {
  added = a.added ++ b.added;
  rows_added =
      b.rows_added
      ∙ ap (λ (l : List Job). l ++ b.added) a.rows_added
      ∙ append_assoc t.rows a.added b.added;
  at_most = omega (arith, length-append a.added b.added, a.at_most, b.at_most);
  new = All-append IsNew a.added b.added a.new b.new;
  well = λ v. b.well (a.well v);
}

SameSchedule-refl : (x : Schedule) → SameSchedule x x
SameSchedule-refl x = refl

SameSchedule-trans : (x y z : Schedule) → SameSchedule x y → SameSchedule y z → SameSchedule x z
SameSchedule-trans x y z e f = f ∙ ap (set_next z.next_run_at) e

set_next-Each :
    (name : String) (next : ℕ) (rows : List Schedule)
    → Each SameSchedule rows (update_where (named name) (set_next next) rows)
unfolding update_where
set_next-Each name next [] = tt
set_next-Each name next (x ∷ xs) = elim (Bool-cases (named name x)) [
  | inl e ↦ rw e (refl, set_next-Each name next xs)
  | inr e ↦ rw e (refl, set_next-Each name next xs)
]

Follows-trans :
    (s s' s'' : Tables) (m n : ℕ) → Follows s s' m → Follows s' s'' n → Follows s s'' (m + n)
Follows-trans s s' s'' m n f g = record {
  adds = Adds-trans s.jobs s'.jobs s''.jobs m n f.adds g.adds;
  same_schedules =
      Each-trans SameSchedule SameSchedule-trans s.schedules s'.schedules s''.schedules
        f.same_schedules g.same_schedules;
}

pub Follows-refl : (s : Tables) → Follows s s 0
Follows-refl s = record {
  adds = Adds-none s.jobs 0;
  same_schedules = Each-refl SameSchedule SameSchedule-refl s.schedules;
}

fire_slot-Adds :
    (isoformat : ℕ → String) (now : ℕ) (row : Schedule) (slot : ℕ) (t : JobTable)
    → Adds t (fire_slot isoformat now row slot t).0 (fire_slot isoformat now row slot t).1
unfolding fire_slot
fire_slot-Adds isoformat now row slot t =
    elim (Bool-cases (too_late row.max_lateness_seconds (now - slot))) [
      | inl e ↦ rw e (Adds-none t 0)
      | inr e ↦ rw e (enqueue-Adds now row.task row.args (some (slot_key isoformat row slot)) t)
    ]

module _ (on : String → ℕ → ℕ → ℕ) (local_date : String → ℕ → ℕ) (isoformat : ℕ → String)
    (now : ℕ) where
  some_injective : {x r : Tables × ℕ} → some x ≡ some r → x ≡ r
  some_injective e = cc

  fire-Follows :
      (row : Schedule) (s : Tables) (r : Tables × ℕ)
      → fire on local_date isoformat now row s ≡ some r
      → Follows s r.0 r.1
  unfolding fire
  fire-Follows row s r e =
      let (slot, _, e') = some_of (slot_to_run on local_date now row) _ r e in
      let (next, _, e'') = some_of (slot_after on local_date row slot) _ r e' in
      subst (λ (o : Tables × ℕ). Follows s o.0 o.1) (some_injective e'')
        (record {
          adds = fire_slot-Adds isoformat now row slot s.jobs;
          same_schedules = set_next-Each row.name next s.schedules;
        })

  fire_all-Follows :
      (rows : List Schedule) (s : Tables) (r : Tables × ℕ)
      → fire_all on local_date isoformat now rows s ≡ some r
      → Follows s r.0 r.1
  unfolding fire_all
  fire_all-Follows [] s r e =
      subst (λ (o : Tables × ℕ). Follows s o.0 o.1) (some_injective e) (Follows-refl s)
  fire_all-Follows (row ∷ rows) s r e =
      let (first, e1, e') = some_of (fire on local_date isoformat now row s) _ r e in
      let (more, e2, e'') = some_of (fire_all on local_date isoformat now rows first.0) _ r e' in
      subst (λ (o : Tables × ℕ). Follows s o.0 o.1) (some_injective e'')
        (Follows-trans s first.0 more.0 first.1 more.1 (fire-Follows row s first e1)
          (fire_all-Follows rows first.0 more e2))

  pub run_due_schedules-Follows :
      (locked : String → Bool) (s : Tables) (r : Tables × ℕ)
      → run_due_schedules on local_date isoformat now locked s ≡ some r
      → Follows s r.0 r.1
  unfolding run_due_schedules
  run_due_schedules-Follows locked s r e =
      fire_all-Follows (select_where (is_due now locked) s.schedules) s r e
