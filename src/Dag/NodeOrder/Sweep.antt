-- ===== src/Dag/NodeOrder/Sweep.antt =====
-- The scan of `ResolveOrder` counts the dependencies of each node, and its sweep over the nodes is
-- a release of the nodes that depend on the finished one.
use pads_v.Common.{
  ℕ, ◌+◌, ◌<◌, ◌==◌, String, ◌≡◌, refl, true, false, List, [], ◌∷◌, ◌++◌, inl, inr, arith, eq_iff,
  if◌then◌else◌, length, ok, err, Bool-cases, >>=-eq-ok, >>=-eq-err, ◌∙◌, ap, sym,
}
use pads_v.Common.Count.{count, Has, count-append, ==_self}
use pads_v.Common.Table.{put, keys}
use pads_v.Graph.Kahn.{release, release_one, release-append}
use pads_v.Dag.Nodes.{Nodes, GraphError, unknown_dependency, IsKeyed}
use pads_v.Dag.Weights.{weight}
use pads_v.Dag.NodeOrder.{is_node, count_deps, count_nodes, push_sorted, sweep_deps, sweep}

record Counted (nodes : Nodes) (id : String) (deps : List String) (d d' : String → ℕ) : Type 0 where
  counts : (k : String) → d' k ≡ d k + (if id == k then length deps else 0)
  known : (j : String) → Has deps j → is_node nodes j ≡ true

count_deps-Counted :
    (nodes : Nodes) (id : String) (deps : List String) (d : String → ℕ) {d' : String → ℕ}
    → count_deps nodes id deps d ≡ ok d'
    → Counted nodes id deps d d'
unfolding count_deps
count_deps-Counted nodes id [] d {d'} h = record {
  counts = λ k. ground arith;
  known = λ j m. absurd (omega arith);
}
count_deps-Counted nodes id (dep ∷ deps) d {d'} h = elim (Bool-cases (is_node nodes dep)) [
  | inl listed ↦
      let rest = count_deps-Counted nodes id deps (put d id (d id + 1)) {d' = d'} (ground arith) in
      record {
        counts = λ k. ground (arith, rest.counts k, eq_iff id k);
        known = λ j m. ground (arith, eq_iff dep j, λ (q : Has deps j). rest.known j q);
      }
  | inr absent ↦ absurd (ground arith)
]

count_deps-err :
    (nodes : Nodes) (id : String) (deps : List String) (d : String → ℕ) {x : GraphError}
    → count_deps nodes id deps d ≡ err x
    → (j : String) × (x ≡ unknown_dependency j) × Has deps j × (is_node nodes j ≡ false)
unfolding count_deps
count_deps-err nodes id [] d h = absurd (cc)
count_deps-err nodes id (dep ∷ deps) d {x} h = elim (Bool-cases (is_node nodes dep)) [
  | inl listed ↦
      let (j, named, m, absent) =
        count_deps-err nodes id deps (put d id (d id + 1)) {x = x} (ground arith) in
      (j, named, omega arith, absent)
  | inr absent ↦ (dep, ground arith, ground (arith, ==_self dep), absent)
]

pub record IsCounted (nodes part : Nodes) (d d' : String → ℕ) : Type 0 where
  pub counts : (k : String) → d' k ≡ d k + weight length k part
  pub known : (k j : String) → 0 < weight (count j) k part → is_node nodes j ≡ true

pub count_nodes-IsCounted :
    (nodes part : Nodes) (d : String → ℕ) {d' : String → ℕ}
    → IsKeyed part
    → count_nodes nodes part d ≡ ok d'
    → IsCounted nodes part d d'
unfolding count_nodes
count_nodes-IsCounted nodes [] d keyed h = record {
  counts = λ k. ground arith;
  known = λ k j m. absurd (omega arith);
}
count_nodes-IsCounted nodes ((id, n) ∷ part) d {d'} keyed h =
    let (middle, first, then_rest) =
      >>=-eq-ok (count_deps nodes n.id n.dependencies d) (λ x. count_nodes nodes part x) h in
    let one = count_deps-Counted nodes n.id n.dependencies d first in
    let rest = count_nodes-IsCounted nodes part middle keyed.1 then_rest in
    record {
      counts = λ k. ground (arith, one.counts k, rest.counts k, keyed.0);
      known = λ k j m. ground (
        arith,
        λ (q : 0 < weight (count j) k part). rest.known k j q,
        λ (q : Has n.dependencies j). one.known j q,
      );
    }

pub count_nodes-err :
    (nodes part : Nodes) (d : String → ℕ) {x : GraphError}
    → count_nodes nodes part d ≡ err x
    → (k j : String) × (x ≡ unknown_dependency j)
      × Has (keys part) k
      × (0 < weight (count j) k part)
      × (is_node nodes j ≡ false)
unfolding count_nodes
count_nodes-err nodes [] d h = absurd (cc)
count_nodes-err nodes ((id, n) ∷ part) d {x} h =
    elim (>>=-eq-err (count_deps nodes n.id n.dependencies d) (λ a. count_nodes nodes part a) h) [
      | inl first ↦
          let (j, named, m, absent) = count_deps-err nodes n.id n.dependencies d {x = x} first in
          (id, j, named, ground (arith, ==_self id), ground (arith, ==_self id), absent)
      | inr (middle, _, later) ↦
          let (k, j, named, m, q, absent) = count_nodes-err nodes part middle {x = x} later in
          (k, j, named, omega arith, ground arith, absent)
    ]

occurrences : String → String → List String → List String
occurrences current id [] = []
occurrences current id (dep ∷ deps) =
    if dep == current then id ∷ occurrences current id deps else occurrences current id deps

-- The nodes that depend on `current`, each as often as it does, in the order of the sweep.
pub dependents : String → Nodes → List String
unfolding occurrences
dependents current [] = []
dependents current ((k, n) ∷ rest) =
    occurrences current n.id n.dependencies ++ dependents current rest

count-occurrences :
    (current id k : String) (deps : List String)
    → count k (occurrences current id deps) ≡ (if id == k then count current deps else 0)
unfolding occurrences
count-occurrences current id k [] = ground arith
count-occurrences current id k (dep ∷ deps) = ground (arith, count-occurrences current id k deps)

pub count-dependents :
    (current k : String) (part : Nodes)
    → IsKeyed part
    → count k (dependents current part) ≡ weight (count current) k part
unfolding dependents
count-dependents current k [] keyed = refl
count-dependents current k ((id, n) ∷ part) keyed = ground (
  arith,
  keyed.0,
  count-append k (occurrences current n.id n.dependencies) (dependents current part),
  count-occurrences current n.id k n.dependencies,
  count-dependents current k part keyed.1,
)

sweep_deps-eq-release :
    (current id : String) (deps queue : List String) (d : String → ℕ)
    → sweep_deps current id deps (queue, d)
      ≡ release push_sorted (occurrences current id deps) queue d
unfolding sweep_deps occurrences release
sweep_deps-eq-release current id [] queue d = refl
sweep_deps-eq-release current id (dep ∷ deps) queue d = elim (Bool-cases (dep == current)) [
  | inl same ↦
      let (queue', d') = release_one push_sorted id queue d in
      rw same (sweep_deps-eq-release current id deps queue' d')
  | inr other ↦ rw other (sweep_deps-eq-release current id deps queue d)
]

pub sweep-eq-release :
    (current : String) (part : Nodes) (queue : List String) (d : String → ℕ)
    → sweep current part (queue, d) ≡ release push_sorted (dependents current part) queue d
unfolding sweep dependents
sweep-eq-release current [] queue d = unfold release in refl
sweep-eq-release current ((id, n) ∷ part) queue d =
    let (queue', d') = release push_sorted (occurrences current n.id n.dependencies) queue d in
    ap (sweep current part) (sweep_deps-eq-release current n.id n.dependencies queue d)
    ∙ sweep-eq-release current part queue' d'
    ∙ sym (
        release-append push_sorted (occurrences current n.id n.dependencies)
          (dependents current part) queue d)
