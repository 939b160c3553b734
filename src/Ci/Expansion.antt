-- ===== src/Ci/Expansion.antt =====
-- internal/ci/matrix.go: the combinations of a matrix. The variables are the map in the order in
-- which it is ranged over.
pub mod Combinations
use pads_v.Common.{String, List, [], ◌∷◌, ◌++◌, map}
use pads_v.Common.Table.{Table, insert}
use pads_v.Ci.Jobs.{Matrix}

-- The copies of one combination, with each of the values under the key.
abbrev pub with_each : String → List String → Table String → List (Table String)
with_each key values r = map (λ v. insert key v r) values

-- The two inner loops.
unfoldable pub extend_all : String → List String → List (Table String) → List (Table String)
extend_all key values [] = []
extend_all key values (r ∷ result) = with_each key values r ++ extend_all key values result

unfoldable pub expand_vars : Table (List String) → List (Table String) → List (Table String)
unfolding extend_all
expand_vars [] result = result
expand_vars ((key, values) ∷ vars) result = expand_vars vars (extend_all key values result)

-- Expand; with no variables, the one empty combination.
unfoldable pub expand : Matrix → List (Table String)
unfolding expand_vars
expand m = expand_vars m.vars ([] ∷ [])
