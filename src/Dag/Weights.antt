-- ===== src/Dag/Weights.antt =====
-- Sums over the nodes stored under a key, which meet the node that a look-up finds.
use pads_v.Common.{ℕ, ◌+◌, String, ◌≡◌, refl, List, [], ◌∷◌, arith, ◌==◌, if◌then◌else◌}
use pads_v.Common.Count.{count}
use pads_v.Common.Table.{keys, lookup}
use pads_v.Dag.Nodes.{Nodes, deps_of}

abbrev pub weight : (List String → ℕ) → String → Nodes → ℕ
weight f k [] = 0
weight f k ((j, n) ∷ m) = (if j == k then f n.dependencies else 0) + weight f k m

pub weight-absent :
    (f : List String → ℕ) (k : String) (m : Nodes) → count k (keys m) ≡ 0 → weight f k m ≡ 0
weight-absent f k [] h = refl
weight-absent f k ((j, n) ∷ m) h = ground (arith, weight-absent f k m)

-- A key that is stored once weighs what its node weighs.
pub weight-deps_of :
    (f : List String → ℕ) (k : String) (m : Nodes)
    → count k (keys m) ≡ 1
    → weight f k m ≡ f (deps_of m k)
unfolding deps_of lookup
weight-deps_of f k [] h = absurd (omega arith)
weight-deps_of f k ((j, n) ∷ m) h = ground (arith, weight-absent f k m, weight-deps_of f k m)
