-- ===== src/Ci/Expansion/Combinations/Samples.antt =====
-- A matrix of two variables.
use pads_v.Common.{◌≡◌, refl, [], ◌∷◌, length}
use pads_v.Ci.Jobs.{Matrix}
use pads_v.Ci.Expansion.{expand}

abbrev two_by_three : Matrix
two_by_three = record {
  vars = ("os", "linux" ∷ "darwin" ∷ []) ∷ ("go", "1.21" ∷ "1.22" ∷ "1.23" ∷ []) ∷ [];
}

six_combinations : length (expand two_by_three) ≡ 6
unfolding expand
six_combinations = refl
