-- ===== src/Examples/Outside.antt =====
-- The effect ledger and the reopened connection at concrete inputs.
use durable_queue.Prelude.{ℕ, ◌≤◌, ◌≡◌, String, true, List, [], ◌∷◌, some, length}
use durable_queue.Effects.{
  Crash, dies_first, dies_between, lives, Outside, IsHonest, has_effect, attempt, attempts,
  attempts_lem,
}
use durable_queue.Database.{
  setup_raises, unreachable, reached, Use, gets, closes, drops, unopened, get, use_all,
}
use durable_queue.Database.Reopened.{get_lem}

abbrev nothing : Outside
nothing = record { ledger = []; happened = [] }

abbrev later : List (String × Crash)
later = ("mail:2", dies_between) ∷ ("mail:2", lives) ∷ ("mail:1", dies_first) ∷ []

attempts_lem_example :
    IsHonest (attempts later (attempt "mail:1" lives nothing))
    × (has_effect "mail:1" (attempts later (attempt "mail:1" lives nothing)).happened ≡ true)
    × (attempt "mail:1" dies_between (attempts later (attempt "mail:1" lives nothing))
        ≡ attempts later (attempt "mail:1" lives nothing))
attempts_lem_example = attempts_lem "mail:1" later dies_between nothing tt

abbrev unlucky : List Use
unlucky = gets unreachable ∷ gets reached ∷ drops 0 ∷ gets setup_raises ∷ gets reached ∷ closes ∷ []

get_lem_example :
    (length (use_all unlucky unopened).opened ≤ 1)
    × ((i : ℕ) × ((get reached (use_all unlucky unopened)).1 ≡ some i)
        × ((get reached (use_all unlucky unopened)).0.opened ≡ i ∷ [])
        × (get unreachable (get reached (use_all unlucky unopened)).0
            ≡ ((get reached (use_all unlucky unopened)).0, some i)))
get_lem_example = get_lem unlucky unreachable
