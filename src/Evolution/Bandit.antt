-- ===== src/Evolution/Bandit.antt =====
-- internal/policy/evolution/bandit_ucb.go: the selection of an arm by UCB1. `intn` is the random
-- source's next choice below a bound.
pub mod Choice
use pads_v.Common.{
  ℕ, zero, suc, ◌+◌, String, Bool, true, false, Option, none, some, List, [], ◌∷◌, ◌++◌,
  if◌then◌else◌, eqb, length, keep, get_elem?,
}
use pads_v.Common.Float.{Float}
use pads_v.Common.Int.{pos, negsuc}
use pads_v.Common.Table.{Table, lookup, insert}

pub record UcbSelector (F : Type 0) : Type 0 where
  pub arms : Table F
  pub counts : Table ℕ
  pub names : List String

-- u.counts[name]
unfoldable pub count_of : {F : Type 0} → UcbSelector F → String → ℕ
count_of u name = elim (lookup name u.counts) [ none ↦ 0 | some n ↦ n ]

abbrev pub sum_counts : Table ℕ → ℕ
sum_counts [] = 0
sum_counts ((name, n) ∷ counts) = n + sum_counts counts

module _ (fl : Float) where
  open fl use {F}

  unfoldable pub new_ucb_selector : UcbSelector F
  new_ucb_selector = record { arms = []; counts = []; names = [] }

  unfoldable pub add_arm : String → UcbSelector F → UcbSelector F
  add_arm name u = elim (lookup name u.arms) [
    | some _ ↦ u
    | none ↦ record {
      arms = insert name fl.zero u.arms;
      counts = insert name 0 u.counts;
      names = u.names ++ name ∷ [];
    }
  ]

  unfoldable pub update_arm : String → F → UcbSelector F → UcbSelector F
  unfolding count_of
  update_arm name reward u = elim (lookup name u.arms) [
    | none ↦ u
    | some total ↦ record u {
      arms = insert name (fl.add total reward) u.arms;
      counts = insert name (count_of u name + 1) u.counts;
    }
  ]

  unfoldable pub ucb_value : UcbSelector F → String → F
  unfolding count_of
  ucb_value u name =
      let pulls = fl.of_int (pos (count_of u name)) in
      let total = fl.of_int (pos (sum_counts u.counts)) in
      let reward : F = elim (lookup name u.arms) [ none ↦ fl.zero | some r ↦ r ] in
      fl.add (fl.div reward pulls)
        (fl.sqrt (fl.div (fl.mul (fl.of_int (pos 2)) (fl.log total)) pulls))

  -- The loop that keeps the best arm so far.
  unfoldable pub best_from : UcbSelector F → String → F → List String → String
  unfolding ucb_value
  best_from u best value [] = best
  best_from u best value (name ∷ names) =
      let ucb = ucb_value u name in
      let better = best_from u name ucb names in
      let same = best_from u best value names in if fl.lt value ucb then better else same

  abbrev pub unpulled : UcbSelector F → List String
  unpulled u = keep (λ name. eqb (count_of u name) 0) u.names

  -- An index out of range would panic; `intn` gives none.
  abbrev pub pick : List String → ℕ → String
  pick names i = elim (get_elem? names i) [ none ↦ "" | some name ↦ name ]

  abbrev pub explore : (ℕ → ℕ) → UcbSelector F → List String → String
  explore intn u fresh = pick fresh (intn (length fresh))

  abbrev pub exploit : UcbSelector F → List String → String
  exploit u [] = ""
  exploit u (first ∷ names) = best_from u first (fl.of_int (negsuc 0)) (first ∷ names)

  unfoldable pub select : (ℕ → ℕ) → UcbSelector F → String
  unfolding best_from count_of
  select intn u =
      let chosen = explore intn u (unpulled u) in
      let best = exploit u u.names in if eqb (length (unpulled u)) 0 then best else chosen
