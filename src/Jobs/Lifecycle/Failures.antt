-- ===== src/Jobs/Lifecycle/Failures.antt =====
-- mark_failed changes the row only as the lifecycle allows.
use durable_queue.Prelude.{
  ℕ, ◌+◌, ◌≡◌, sym, ap, subst, ◌∙◌, Bool, true, false, List, none, some, inl, inr, Bool-cases,
  Option-cases, Distinct, String, ◌==◌, &&_split,
}
use durable_queue.Jobs.Finish.Guard.{
  settle, set_dead-settle, set_retried-settle, mark_failed_unowned, mark_failed_owned,
  mark_failed_overflow,
}
use durable_queue.Sql.{select_where, update_where, fetch_one}
use durable_queue.Jobs.{Job, JobTable, holds, owned_by}
use durable_queue.Jobs.Rows.{ids}
use durable_queue.Jobs.Finish.{Failure, ends, set_attempted, compute_backoff, mark_failed}
use durable_queue.Jobs.Lifecycle.{Move, retried, buried}
use durable_queue.Jobs.Lifecycle.Refines.{Lives, Lives-refl, moving_each}

module _ (now : ℕ) (worker : String) where
  settled :
      (delay : ℕ) (f : Failure) (j : Job)
      → owned_by worker j ≡ true
      → Move now worker j (settle now delay f j)
  settled delay f j o = elim (Bool-cases (ends f (set_attempted f.max_attempts j))) [
    | inl e ↦ buried f o e (sym (set_dead-settle now delay f j e))
    | inr e ↦ retried f delay o e (sym (set_retried-settle now delay f j e))
  ]

  -- A failure that raises leaves the table as it was: there is no table then to speak of.
  pub mark_failed-Lives :
      (uniform : ℕ → ℕ) (job_id : ℕ) (f : Failure) (t t' : JobTable) (held : Bool)
      → Distinct (ids t.rows)
      → mark_failed uniform now job_id worker f t ≡ some (t', held)
      → Lives now worker t.rows t'.rows × (t'.next_id ≡ t.next_id)
  mark_failed-Lives uniform job_id f t t' held d e =
      elim (Option-cases (fetch_one (select_where (holds job_id worker) t.rows))) [
        | inl absent ↦
            arrived t.rows false (mark_failed_unowned uniform now job_id worker f t absent)
              (Lives-refl now worker t.rows)
        | inr (row, found) ↦ elim (Option-cases (compute_backoff uniform (row.attempts + 1))) [
          | inl too_late ↦ elim (Bool-cases (ends f (set_attempted f.max_attempts row))) [
            | inl last ↦
                arrived (settled_table 0).rows true
                  (mark_failed_overflow uniform now job_id worker f t row d found too_late
                    ∙ rw last)
                  (settled_rows 0)
            | inr more ↦
                let raised : mark_failed uniform now job_id worker f t ≡ none =
                  mark_failed_overflow uniform now job_id worker f t row d found too_late
                  ∙ rw more in
                cc
          ]
          | inr (delay, b) ↦
              arrived (settled_table delay).rows true
                (mark_failed_owned uniform now job_id worker f t delay row d found b)
                (settled_rows delay)
        ]
      ]
    where
      settled_table : ℕ → JobTable
      settled_table delay = record t {
        rows = update_where (holds job_id worker) (settle now delay f) t.rows;
      }

      settled_rows : (delay : ℕ) → Lives now worker t.rows (settled_table delay).rows
      settled_rows delay =
          moving_each now worker _ _ t.rows
            (λ j h. settled delay f j (&&_split (j.id == job_id) _ h).1)

      arrived :
          (rows : List Job) (held' : Bool)
          → mark_failed uniform now job_id worker f t ≡ some (record t { rows = rows }, held')
          → Lives now worker t.rows rows
          → Lives now worker t.rows t'.rows × (t'.next_id ≡ t.next_id)
      arrived rows held' e' lives =
          let same : t' ≡ record t { rows = rows } = cc in
          (
            subst (λ (u : JobTable). Lives now worker t.rows u.rows) (sym same) lives,
            ap (λ (u : JobTable). u.next_id) same,
          )
