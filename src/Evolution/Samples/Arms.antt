-- ===== src/Evolution/Samples/Arms.antt =====
-- A selector with two arms, and a replay of one event.
use pads_v.Common.{ℕ, ◌<◌, ◌≡◌, ◌≢◌, ◌⊎◌, [], ◌∷◌, length, arith}
use pads_v.Common.Int.{ℤ, pos}
use pads_v.Common.Count.{Has}
use pads_v.Evolution.Bandit.{UcbSelector, unpulled, select}
use pads_v.Evolution.Bandit.Choice.{select-Has}
use pads_v.Evolution.Detector.Window.{last_n}
use pads_v.Evolution.Replay.{rebuild}
use pads_v.Evolution.Replay.Rebuilt.{scores, window-rebuild}
use pads_v.Evolution.Samples.{whole, first_event}

abbrev two_arms : UcbSelector ℤ
two_arms = record {
  arms = ("stable", pos 2) ∷ ("bandit", pos 0) ∷ [];
  counts = ("stable", 1) ∷ ("bandit", 0) ∷ [];
  names = "stable" ∷ "bandit" ∷ [];
}

abbrev first_choice : ℕ → ℕ
first_choice n = 0

two_arms_there : two_arms.names ≢ []
two_arms_there = λ e. ground arith

first_choice_below : (n : ℕ) → 0 < n → first_choice n < n
first_choice_below n h = h

select-Has_example :
    Has two_arms.names (select whole first_choice two_arms)
    × ((length (unpulled whole two_arms) ≡ 0)
        ⊎ Has (unpulled whole two_arms) (select whole first_choice two_arms))
select-Has_example = select-Has whole first_choice two_arms two_arms_there first_choice_below

window-rebuild_example :
    (rebuild whole (first_event ∷ [])).detector_window ≡ last_n 5 (scores whole (first_event ∷ []))
window-rebuild_example = window-rebuild whole (first_event ∷ [])
