-- ===== src/Registry.antt =====
-- src/durable_queue/registry.py. A Python function is its name and its parameters; what a call of it
-- does is the environment's to say (see Worker). The registry is a dictionary, here its entries.
pub mod Names
use durable_queue.Prelude.{
  ℕ, String, Bool, false, ◌||◌, List, [], ◌∷◌, Option, none, some, str_eq, if◌then◌else◌,
}

pub record Function : Type 0 where
  pub name : String
  pub parameters : List String

-- None for a limit means the default: the row's max_attempts, the worker's max_execution_seconds.
pub record RegisteredTask : Type 0 where
  pub fn : Function
  pub wants_connection : Bool
  pub max_attempts : Option ℕ
  pub max_execution : Option ℕ

abbrev pub Registry : Type 0
Registry = List (String × RegisteredTask)

pub data RegistryError : Type 0 where
  already_registered not_registered : String → RegistryError

pub data Registered (A : Type 0) : Type 0 where
  ok : A → Registered A
  err : RegistryError → Registered A

unfoldable pub lookup : String → Registry → Option RegisteredTask
lookup name [] = none
lookup name ((other, r) ∷ rest) = if str_eq other name then some r else lookup name rest

abbrev pub mem : String → List String → Bool
mem name [] = false
mem name (x ∷ xs) = str_eq x name || mem name xs

-- `task(fn, max_attempts=…, max_execution_seconds=…)`. Both spellings of the decorator come to this.
unfoldable pub task : Function → Option ℕ → Option ℕ → Registry → Registered Registry
unfolding lookup
task fn max_attempts max_execution registry = elim (lookup fn.name registry) [
  | some r ↦ err (already_registered fn.name)
  | none ↦ ok (
      (
        fn.name,
        record {
          fn = fn;
          wants_connection = mem "conn" fn.parameters;
          max_attempts = max_attempts;
          max_execution = max_execution;
        },
      )
      ∷ registry)
]

unfoldable pub get_registered_task : String → Registry → Registered RegisteredTask
unfolding lookup
get_registered_task name registry = elim (lookup name registry) [
  | some r ↦ ok r
  | none ↦ err (not_registered name)
]

unfoldable pub get_task : String → Registry → Registered Function
unfolding get_registered_task
get_task name registry = elim (get_registered_task name registry) [ ok r ↦ ok r.fn | err e ↦ err e ]
