-- ===== src/Registry/Names.antt =====
-- A name stands for one task.
use durable_queue.Prelude.{
  ℕ, ◌≡◌, refl, sym, subst, ◌∙◌, String, true, false, ◌∷◌, Option, none, some, inl, inr,
  Option-cases, str_eq, eq_iff,
}
use durable_queue.Registry.{
  Function, RegisteredTask, Registry, already_registered, not_registered, ok, err, lookup, mem,
  task, get_registered_task,
}

-- What the decorator makes of a function.
abbrev pub entry : Function → Option ℕ → Option ℕ → RegisteredTask
entry fn max_attempts max_execution = record {
  fn = fn;
  wants_connection = mem "conn" fn.parameters;
  max_attempts = max_attempts;
  max_execution = max_execution;
}

lookup_same :
    (name other : String) (r : RegisteredTask) (registry : Registry)
    → str_eq other name ≡ true
    → lookup name ((other, r) ∷ registry) ≡ some r
unfolding lookup
lookup_same name other r registry e = rw e

lookup_other :
    (name other : String) (r : RegisteredTask) (registry : Registry)
    → str_eq other name ≡ false
    → lookup name ((other, r) ∷ registry) ≡ lookup name registry
unfolding lookup
lookup_other name other r registry e = rw e

module _ (name : String) (registry : Registry) where
  get-some :
      (r : RegisteredTask)
      → lookup name registry ≡ some r
      → get_registered_task name registry ≡ ok r
  unfolding get_registered_task
  get-some r e = rw (e, get_registered_task)

  get-none :
      lookup name registry ≡ none → get_registered_task name registry ≡ err (not_registered name)
  unfolding get_registered_task
  get-none e = rw (e, get_registered_task)

-- Registries that agree on a name give the same task for it.
get_agrees :
    (name : String) (registry registry' : Registry)
    → lookup name registry ≡ lookup name registry'
    → get_registered_task name registry ≡ get_registered_task name registry'
get_agrees name registry registry' e = elim (Option-cases (lookup name registry')) [
  | inl n ↦ get-none name registry (e ∙ n) ∙ sym (get-none name registry' n)
  | inr (r, n) ↦ get-some name registry r (e ∙ n) ∙ sym (get-some name registry' r n)
]

task-err :
    (fn : Function) (a m : Option ℕ) (registry : Registry) (r : RegisteredTask)
    → lookup fn.name registry ≡ some r
    → task fn a m registry ≡ err (already_registered fn.name)
unfolding task
task-err fn a m registry r e = rw (e, task)

module _ (fn : Function) (max_attempts max_execution : Option ℕ)
    (registry registry' : Registry) where
  task-ok :
      task fn max_attempts max_execution registry ≡ ok registry'
      → registry' ≡ (fn.name, entry fn max_attempts max_execution) ∷ registry
  unfolding task
  task-ok e = elim (Option-cases (lookup fn.name registry)) [
    | inl n ↦ sym (ok_inj _ _ (rw (n, task) at e))
    | inr (r, n) ↦ absurd (clash (rw (n, task) at e))
  ]
    where
      ok_inj : (a b : Registry) → ok a ≡ ok b → a ≡ b
      ok_inj a b h = cc

      clash : err (already_registered fn.name) ≡ ok registry' → ⊥
      clash h = cc

  -- Once a function is registered, its name gives it with its limits, any other name gives what it
  -- gave before, and no function of that name can be registered after it.
  pub task_lem :
      (other : String) (fn' : Function) (a m : Option ℕ)
      → task fn max_attempts max_execution registry ≡ ok registry'
      → str_eq fn.name other ≡ false
      → fn'.name ≡ fn.name
      → (get_registered_task fn.name registry' ≡ ok (entry fn max_attempts max_execution))
        × (get_registered_task other registry' ≡ get_registered_task other registry)
        × (task fn' a m registry' ≡ err (already_registered fn'.name))
  task_lem other fn' a m e n n' =
      subst
        (λ (reg : Registry).
          (get_registered_task fn.name reg ≡ ok (entry fn max_attempts max_execution))
          × (get_registered_task other reg ≡ get_registered_task other registry)
          × (task fn' a m reg ≡ err (already_registered fn'.name)))
        (sym (task-ok e))
        (
          get-some fn.name added (entry fn max_attempts max_execution) (there fn.name refl),
          get_agrees other added registry
              (lookup_other other fn.name (entry fn max_attempts max_execution) registry n),
          task-err fn' a m added (entry fn max_attempts max_execution) (there fn'.name n'),
        )
    where
      added : Registry
      added = (fn.name, entry fn max_attempts max_execution) ∷ registry

      there :
          (name : String)
          → name ≡ fn.name
          → lookup name added ≡ some (entry fn max_attempts max_execution)
      there name e' =
          lookup_same name fn.name (entry fn max_attempts max_execution) registry
            ((eq_iff fn.name name).1 (sym e'))
