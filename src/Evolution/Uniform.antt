-- ===== src/Evolution/Uniform.antt =====
-- internal/policy/evolution/bandit.go: the bandit that chooses an arm uniformly. A map is ranged over
-- in the order of the table; `intn` is the random source's next choice below a bound.
use pads_v.Common.{ℕ, String, Option, none, some, List, [], ◌∷◌, length, get_elem?}
use pads_v.Common.Float.{Float}
use pads_v.Common.Int.{pos}
use pads_v.Common.Table.{Table, lookup, insert, keys}

-- The arms; the random source is an argument of Select.
abbrev pub Bandit : Type 0 → Type 0
Bandit F = Table F

module _ (fl : Float) where
  open fl use {F}

  abbrev pub new_bandit : Bandit F
  new_bandit = []

  unfoldable pub add_bandit_arm : String → Bandit F → Bandit F
  add_bandit_arm name b = insert name (fl.of_int (pos 1)) b

  -- b.arms[name]
  abbrev reward_of : Option F → F
  reward_of none = fl.zero
  reward_of (some total) = total

  -- An arm that is not there is made by the update.
  unfoldable pub update_bandit : String → F → Bandit F → Bandit F
  update_bandit name reward b = insert name (fl.add (reward_of (lookup name b)) reward) b

abbrev pub list_arms : {F : Type 0} → Bandit F → List String
list_arms b = keys b

abbrev or_empty : Option String → String
or_empty none = ""
or_empty (some name) = name

unfoldable pub select_uniform : {F : Type 0} → (ℕ → ℕ) → Bandit F → String
select_uniform intn [] = ""
select_uniform intn (arm ∷ arms) =
    let names = keys (arm ∷ arms) in or_empty (get_elem? names (intn (length names)))
