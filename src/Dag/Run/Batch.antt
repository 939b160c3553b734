-- ===== src/Dag/Run/Batch.antt =====
-- One round of the executor: a batch leaves the queue, and what depends on it is released.
use pads_v.Common.{
  ℕ, ◌+◌, ◌<◌, String, ◌≡◌, refl, sym, true, false, List, [], ◌∷◌, ◌++◌, inl, inr, arith, eq_iff,
  ◌==◌, if◌then◌else◌, length, ok, err, Bool-cases, >>=-eq-ok, >>=-eq-err, ◌∙◌,
}
use mathlib.Core.List.{append-nil, append_assoc}
use pads_v.Common.Count.{count, Has, count-append, ==_self}
use pads_v.Common.Table.{keys}
use pads_v.Graph.Edges.{Edges, add_edge}
use pads_v.Graph.Kahn.{Waiting, release, release-append}
use pads_v.Graph.Kahn.Steps.{IsOrdered, IsOrdered-snoc, popped_needs, pop-Waiting}
use pads_v.Dag.Nodes.{Nodes, GraphError, unknown_dependency, IsKeyed}
use pads_v.Dag.Weights.{weight}
use pads_v.Dag.NodeOrder.{is_node}
use pads_v.Dag.Run.{edge_deps, edge_nodes, push_last, release_batch}

record Linked (nodes : Nodes) (id : String) (deps : List String) (e e' : Edges) : Type 0 where
  indegree : (k : String) → e'.indegree k ≡ e.indegree k + (if id == k then length deps else 0)
  graph :
      (d k : String)
      → count k (e'.graph d) ≡ count k (e.graph d) + (if id == k then count d deps else 0)
  known : (j : String) → Has deps j → is_node nodes j ≡ true

edge_deps-Linked :
    (nodes : Nodes) (id : String) (deps : List String) (e : Edges) {e' : Edges}
    → edge_deps nodes id deps e ≡ ok e'
    → Linked nodes id deps e e'
unfolding edge_deps
edge_deps-Linked nodes id [] e {e'} h = record {
  indegree = λ k. ground arith;
  graph = λ d k. ground arith;
  known = λ j m. absurd (omega arith);
}
edge_deps-Linked nodes id (dep ∷ deps) e {e'} h = elim (Bool-cases (is_node nodes dep)) [
  | inl listed ↦
      let rest = edge_deps-Linked nodes id deps (add_edge id dep e) {e' = e'} (ground arith) in
      record {
        indegree = λ k. ground (arith, rest.indegree k, eq_iff id k);
        graph = λ d k. ground (
          arith,
          rest.graph d k,
          eq_iff id k,
          eq_iff dep d,
          count-append k (e.graph dep) (id ∷ []),
        );
        known = λ j m. ground (arith, eq_iff dep j, λ (q : Has deps j). rest.known j q);
      }
  | inr absent ↦ absurd (ground arith)
]

edge_deps-err :
    (nodes : Nodes) (id : String) (deps : List String) (e : Edges) {x : GraphError}
    → edge_deps nodes id deps e ≡ err x
    → (j : String) × (x ≡ unknown_dependency j) × Has deps j × (is_node nodes j ≡ false)
unfolding edge_deps
edge_deps-err nodes id [] e h = absurd (cc)
edge_deps-err nodes id (dep ∷ deps) e {x} h = elim (Bool-cases (is_node nodes dep)) [
  | inl listed ↦
      let (j, named, m, absent) =
        edge_deps-err nodes id deps (add_edge id dep e) {x = x} (ground arith) in
      (j, named, omega arith, absent)
  | inr absent ↦ (dep, ground arith, ground (arith, ==_self dep), absent)
]

pub record IsLinked (nodes part : Nodes) (e e' : Edges) : Type 0 where
  pub indegree : (k : String) → e'.indegree k ≡ e.indegree k + weight length k part
  pub graph : (d k : String) → count k (e'.graph d) ≡ count k (e.graph d) + weight (count d) k part
  pub known : (k j : String) → 0 < weight (count j) k part → is_node nodes j ≡ true

pub edge_nodes-IsLinked :
    (nodes part : Nodes) (e : Edges) {e' : Edges}
    → IsKeyed part
    → edge_nodes nodes part e ≡ ok e'
    → IsLinked nodes part e e'
unfolding edge_nodes
edge_nodes-IsLinked nodes [] e keyed h = record {
  indegree = λ k. ground arith;
  graph = λ d k. ground arith;
  known = λ k j m. absurd (omega arith);
}
edge_nodes-IsLinked nodes ((id, n) ∷ part) e {e'} keyed h =
    let (middle, first, then_rest) =
      >>=-eq-ok (edge_deps nodes n.id n.dependencies e) (λ x. edge_nodes nodes part x) h in
    let one = edge_deps-Linked nodes n.id n.dependencies e first in
    let rest = edge_nodes-IsLinked nodes part middle keyed.1 then_rest in
    record {
      indegree = λ k. ground (arith, one.indegree k, rest.indegree k, keyed.0);
      graph = λ d k. ground (arith, one.graph d k, rest.graph d k, keyed.0);
      known = λ k j m. ground (
        arith,
        λ (q : 0 < weight (count j) k part). rest.known k j q,
        λ (q : Has n.dependencies j). one.known j q,
      );
    }

pub edge_nodes-err :
    (nodes part : Nodes) (e : Edges) {x : GraphError}
    → edge_nodes nodes part e ≡ err x
    → (k j : String) × (x ≡ unknown_dependency j)
      × Has (keys part) k
      × (0 < weight (count j) k part)
      × (is_node nodes j ≡ false)
unfolding edge_nodes
edge_nodes-err nodes [] e h = absurd (cc)
edge_nodes-err nodes ((id, n) ∷ part) e {x} h =
    elim (>>=-eq-err (edge_deps nodes n.id n.dependencies e) (λ a. edge_nodes nodes part a) h) [
      | inl first ↦
          let (j, named, m, absent) = edge_deps-err nodes n.id n.dependencies e {x = x} first in
          (id, j, named, ground (arith, ==_self id), ground (arith, ==_self id), absent)
      | inr (middle, _, later) ↦
          let (k, j, named, m, q, absent) = edge_nodes-err nodes part middle {x = x} later in
          (k, j, named, omega arith, ground arith, absent)
    ]

pub batch_dependents : (String → List String) → List String → List String
batch_dependents adj [] = []
batch_dependents adj (id ∷ batch) = adj id ++ batch_dependents adj batch

pub release_batch-eq-release :
    (adj : String → List String) (batch ready : List String) (d : String → ℕ)
    → release_batch adj batch ready d ≡ release push_last (batch_dependents adj batch) ready d
unfolding release_batch batch_dependents
release_batch-eq-release adj [] ready d = unfold release in refl
release_batch-eq-release adj (id ∷ batch) ready d =
    let (ready', d') = release push_last (adj id) ready d in
    release_batch-eq-release adj batch ready' d'
    ∙ sym (release-append push_last (adj id) (batch_dependents adj batch) ready d)

pub Has-batch_dependents :
    (adj : String → List String) (ids : List String)
    → ((c k : String) → Has (adj c) k → Has ids k)
    → (batch : List String) (k : String) → Has (batch_dependents adj batch) k
    → Has ids k
unfolding batch_dependents
Has-batch_dependents adj ids known [] k h = absurd (omega arith)
Has-batch_dependents adj ids known (c ∷ batch) k h = ground (
  arith,
  count-append k (adj c) (batch_dependents adj batch),
  λ (q : Has (adj c) k). known c k q,
  λ (q : Has (batch_dependents adj batch) k). Has-batch_dependents adj ids known batch k q,
)

module _ {needs : String → List String} {ids : List String} (adj : String → List String)
    (counted : (c k : String) → Has ids k → count k (adj c) ≡ count c (needs k)) where
  -- A whole batch moves from the queue to the result.
  pub pop_batch-Waiting :
      (batch ns rest done : List String) {indegree : String → ℕ}
      → Waiting needs ids ns (batch ++ rest) indegree done
      → Waiting needs ids (ns ++ batch_dependents adj batch) rest indegree (done ++ batch)
  unfolding batch_dependents
  pop_batch-Waiting [] ns rest done w = rw (append-nil, append-nil) w
  pop_batch-Waiting (c ∷ batch) ns rest done w =
      let w' =
        pop_batch-Waiting batch (ns ++ adj c) rest (done ++ c ∷ [])
          (pop-Waiting c (adj c) (counted c) w) in
      simp append_assoc at w'

  pub pop_batch-IsOrdered :
      (batch ns rest done : List String) {indegree : String → ℕ}
      → Waiting needs ids ns (batch ++ rest) indegree done
      → IsOrdered needs [] done
      → IsOrdered needs [] (done ++ batch)
  pop_batch-IsOrdered [] ns rest done w o = rw append-nil o
  pop_batch-IsOrdered (c ∷ batch) ns rest done w o =
      let o' =
        pop_batch-IsOrdered batch (ns ++ adj c) rest (done ++ c ∷ [])
          (pop-Waiting c (adj c) (counted c) w)
          (IsOrdered-snoc needs [] done c o (popped_needs c w)) in
      simp append_assoc at o'
