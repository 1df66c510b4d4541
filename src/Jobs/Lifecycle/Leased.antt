-- ===== src/Jobs/Lifecycle/Leased.antt =====
-- What a lease keeps: nobody but its worker changes the row.
use durable_queue.Prelude.{
  ℕ, ◌≤◌, ◌≡◌, refl, ◌≢◌, subst, sym, ◌∙◌, String, true, Option, none, some, arith, &&_split,
  eq_iff,
}
use durable_queue.Jobs.{Job, is_text, owned_by}
use durable_queue.Jobs.Lifecycle.{
  Move, Moves, claimed, extended, released, completed, retried, buried, recovered, poisoned_out,
  reset, stays, goes,
}

-- One worker owns a running job.
owned_by_one : (v w : String) (j : Job) → owned_by v j ≡ true → owned_by w j ≡ true → v ≡ w
owned_by_one v w j p q =
    by_name j.locked_by (&&_split (is_text j.locked_by v) _ p).0
      (&&_split (is_text j.locked_by w) _ q).0
  where
    by_name : (o : Option String) → is_text o v ≡ true → is_text o w ≡ true → v ≡ w
    by_name none a b = cc
    by_name (some u) a b = sym ((eq_iff u v).0 a) ∙ (eq_iff u w).0 b

-- A worker holds the job, under a lease that has not run out.
pub record Leased (worker : String) (now : ℕ) (j : Job) : Type 0 where
  pub until : ℕ
  pub owned : owned_by worker j ≡ true
  pub lease : j.locked_until ≡ some until
  pub unexpired : now ≤ until

pub Leased-earlier :
    (worker : String) (now later : ℕ) (j : Job)
    → now ≤ later
    → Leased worker later j
    → Leased worker now j
Leased-earlier worker now later j h l = record {
  until = l.until;
  owned = l.owned;
  lease = l.lease;
  unexpired = omega (arith, h, l.unexpired);
}

-- While the lease lasts, nobody but its worker changes the row.
pub Leased-not-Move :
    {now : ℕ} (worker other : String) (j k : Job)
    → Leased worker now j
    → other ≢ worker
    → Move now other j k
    → ⊥
Leased-not-Move worker other j k l n (claimed lease d e) = ground (arith, l.owned)
Leased-not-Move worker other j k l n (extended lease o e) =
    n (owned_by_one other worker j o l.owned)
Leased-not-Move worker other j k l n (released o e) = n (owned_by_one other worker j o l.owned)
Leased-not-Move worker other j k l n (completed o e) = n (owned_by_one other worker j o l.owned)
Leased-not-Move worker other j k l n (retried f delay o m e) =
    n (owned_by_one other worker j o l.owned)
Leased-not-Move worker other j k l n (buried f o m e) = n (owned_by_one other worker j o l.owned)
Leased-not-Move worker other j k l n (recovered x e) = ground (arith, l.owned, l.lease, l.unexpired)
Leased-not-Move worker other j k l n (poisoned_out x e) =
    ground (arith, l.owned, l.lease, l.unexpired)
Leased-not-Move worker other j k l n (reset d e) = ground (arith, l.owned)

pub Leased-Moves :
    {now : ℕ} (worker other : String) {j k : Job}
    → Leased worker now j
    → other ≢ worker
    → Moves now other j k
    → k ≡ j
Leased-Moves worker other l n stays = refl
Leased-Moves {now} worker other l n (goes {m} {k} s m1) =
    let e = Leased-Moves worker other l n s in
    absurd (Leased-not-Move worker other m k (subst (Leased worker now) (sym e) l) n m1)
