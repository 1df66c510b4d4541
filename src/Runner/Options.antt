-- ===== src/Runner/Options.antt =====
-- What a Runner's loops are called with.
use durable_queue.Prelude.{
  ℕ, ◌≡◌, refl, subst, eq_refl, sym, ◌∙◌, true, false, String, [], ◌∷◌, some, inl, inr, Bool-cases,
  str_eq, eq_iff,
}
use durable_queue.Runner.{
  Value, flag, event, Kwargs, set_key, merge, value_of, run_worker, run_scheduler, Thread, init,
  loop_options, start,
}

value_of-set_key :
    (key : String) (value : Value) (options : Kwargs)
    → value_of key (set_key key value options) ≡ some value
unfolding value_of set_key
value_of-set_key key value [] = rw (eq_refl key)
value_of-set_key key value ((k, v) ∷ rest) = elim (Bool-cases (str_eq k key)) [
  | inl e ↦ rw (e, e)
  | inr e ↦ rw (e, e, value_of-set_key key value rest)
]

value_of-set_other :
    (key other : String) (value : Value) (options : Kwargs)
    → str_eq other key ≡ false
    → value_of key (set_key other value options) ≡ value_of key options
unfolding value_of set_key
value_of-set_other key other value [] d = rw d
value_of-set_other key other value ((k, v) ∷ rest) d = elim (Bool-cases (str_eq k other)) [
  | inl e ↦
      let differs : str_eq k key ≡ false =
        subst (λ x. str_eq x key ≡ false) (sym ((eq_iff k other).0 e)) d in
      rw (e, differs)
  | inr e ↦ rw e (elim (Bool-cases (str_eq k key)) [
    | inl f ↦ rw f
    | inr f ↦ rw (f, value_of-set_other key other value rest d)
  ])
]

-- The two keys that start() sets, over any options.
loop_options-keys :
    (stop : ℕ) (options : Kwargs)
    → (value_of "idle" (loop_options stop options) ≡ some (flag true))
      × (value_of "stop" (loop_options stop options) ≡ some (event stop))
      × ((key : String)
          → str_eq "idle" key ≡ false
          → str_eq "stop" key ≡ false
          → value_of key (loop_options stop options) ≡ value_of key options)
unfolding loop_options merge
loop_options-keys stop options = (
  value_of-set_other "idle" "stop" (event stop) (set_key "idle" (flag true) options) refl
      ∙ value_of-set_key "idle" (flag true) options,
  value_of-set_key "stop" (event stop) (set_key "idle" (flag true) options),
  λ key d d'.
      value_of-set_other key "stop" (event stop) (set_key "idle" (flag true) options) d'
      ∙ value_of-set_other key "idle" (flag true) options d,
)

-- What holds of a thread that start() starts: it runs idle, until that event is set, and else with the options
-- given.
abbrev pub IsSetUp : ℕ → Kwargs → Thread → Type 0
IsSetUp stop options t =
    (value_of "idle" t.options ≡ some (flag true))
    × (value_of "stop" t.options ≡ some (event stop))
    × ((key : String)
        → str_eq "idle" key ≡ false
        → str_eq "stop" key ≡ false
        → value_of key t.options ≡ value_of key options)

pub start_lem :
    (stop : ℕ) (concurrency dsn : Value) (given : Kwargs)
    → let r = init stop concurrency dsn given in
      let options = merge (("concurrency", concurrency) ∷ ("dsn", dsn) ∷ []) given in
      (start false r ≡ (r, false))
      × ((worker : Thread) × (scheduler : Thread) × ((start true r).0.threads
            ≡ worker ∷ scheduler ∷ [])
          × ((worker.loop ≡ run_worker) × IsSetUp stop options worker)
          × ((scheduler.loop ≡ run_scheduler) × IsSetUp stop (("dsn", dsn) ∷ []) scheduler))
unfolding start init
start_lem stop concurrency dsn given = (
  refl,
  (
    record {
      name = "durable-queue-worker";
      loop = run_worker;
      options = loop_options stop (merge (("concurrency", concurrency) ∷ ("dsn", dsn) ∷ []) given);
    },
    record {
      name = "durable-queue-scheduler";
      loop = run_scheduler;
      options = loop_options stop (("dsn", dsn) ∷ []);
    },
    refl,
    (refl, loop_options-keys stop (merge (("concurrency", concurrency) ∷ ("dsn", dsn) ∷ []) given)),
    (refl, loop_options-keys stop (("dsn", dsn) ∷ [])),
  ),
)
