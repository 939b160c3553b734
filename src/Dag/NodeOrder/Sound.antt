-- ===== src/Dag/NodeOrder/Sound.antt =====
-- What `ResolveOrder` of internal/dag/resolver.go returns, and when it fails.
use pads_v.Common.{
  ℕ, zero, suc, ◌+◌, ◌<◌, String, ◌≡◌, refl, sym, true, List, [], ◌∷◌, ◌++◌, ◌⊎◌, inl, inr, Option,
  arith, eqb, if◌then◌else◌, length, length-append, keep, ok, err, Bool-cases, >>=-eq-ok, map,
  Option-cases, Result-cases, ◌∙◌,
}
use pads_v.Common.Count.{
  count, Has, SameItems, IsUnique, count-append, count-keep, length-SameItems,
}
use pads_v.Common.Sorting.{sort, count-sort, length-sort}
use pads_v.Common.Table.{keys, lookup, lookup-Has, Has-lookup, length-keys}
use pads_v.Graph.Kahn.{Waiting, release, release-Waiting}
use pads_v.Graph.Kahn.Steps.{
  Finished, missing-nil, IsOrdered, IsOrdered-snoc, IsRanked, IsClosed, popped_needs, pop-Waiting,
  done_bound, ranked-SameItems, full-SameItems,
}
use pads_v.Dag.Nodes.{Node, Nodes, GraphError, unknown_dependency, cycle_detected, IsKeyed, deps_of}
use pads_v.Dag.Weights.{weight-deps_of, weight-absent}
use pads_v.Dag.NodeOrder.{
  is_node, count_nodes, push_sorted, order_loop, resolve_keys, resolve_order,
}
use pads_v.Dag.NodeOrder.Sweep.{
  IsCounted, count_nodes-IsCounted, count_nodes-err, dependents, count-dependents, sweep-eq-release,
}

pub is_node-Has : (nodes : Nodes) (d : String) → is_node nodes d ≡ true → Has (keys nodes) d
is_node-Has nodes d h = elim (Option-cases (lookup d nodes)) [
  | inl absent ↦ absurd (ground arith)
  | inr (n, found) ↦ Has-lookup d nodes {v = n} found
]

pub Has-is_node : (nodes : Nodes) (d : String) → Has (keys nodes) d → is_node nodes d ≡ true
Has-is_node nodes d h = let (n, found) = lookup-Has d nodes h in rw (found, is_node)

module _ {nodes : Nodes} {indegree : String → ℕ} (unique : IsUnique (keys nodes))
    (keyed : IsKeyed nodes) (counted : IsCounted nodes nodes (λ _. 0) indegree) where
  abbrev ids : List String
  ids = sort (keys nodes)

  ids_once : (k : String) → Has ids k → count k (keys nodes) ≡ 1
  ids_once k h = omega (arith, unique k, count-sort k (keys nodes))

  pub ids-IsUnique : IsUnique ids
  ids-IsUnique k = omega (arith, unique k, count-sort k (keys nodes))

  pub ids-IsClosed : IsClosed (deps_of nodes) ids
  ids-IsClosed k d h m = omega (
    arith,
    is_node-Has nodes d
        (counted.known k d (omega (arith, m, weight-deps_of (count d) k nodes (ids_once k h)))),
    count-sort d (keys nodes),
  )

  pub start-Waiting :
      Waiting (deps_of nodes) ids [] (keep (λ id. eqb (indegree id) 0) ids) indegree []
  start-Waiting = record {
    left = λ k h. omega (
      arith,
      counted.counts k,
      weight-deps_of length k nodes (ids_once k h),
      missing-nil (deps_of nodes k),
    );
    once = λ k. ground (arith, ids-IsUnique k, count-keep (λ id. eqb (indegree id) 0) k ids);
  }

  pub count-dependents_at :
      (c k : String) → Has ids k → count k (dependents c nodes) ≡ count c (deps_of nodes k)
  count-dependents_at c k h =
      count-dependents c k nodes keyed ∙ weight-deps_of (count c) k nodes (ids_once k h)

  pub dependents_known : (c k : String) → Has (dependents c nodes) k → Has ids k
  dependents_known c k h = ground (
    arith,
    count-dependents c k nodes keyed,
    count-sort k (keys nodes),
    weight-absent (count c) k nodes,
  )

  order_loop_total :
      (fuel : ℕ) (ready : List String) (left : String → ℕ) (done : List String)
      → length ids < fuel + length done
      → Waiting (deps_of nodes) ids [] ready left done
      → IsOrdered (deps_of nodes) [] done
      → (result : List String) × (order_loop fuel nodes ready left done ≡ ok result)
        × Finished (deps_of nodes) ids result
  unfolding order_loop
  order_loop_total fuel [] left done enough w o =
      (done, refl, record { counters = left; waiting = w; ordered = o })
  order_loop_total zero (c ∷ ready) left done enough w o =
      absurd (omega (arith, done_bound ids-IsUnique w))
  order_loop_total (suc fuel) (c ∷ ready) left done enough w o =
      let (ready', left') = release push_sorted (dependents c nodes) ready left in
      rw (sweep-eq-release c nodes ready left, order_loop)
        (order_loop_total fuel ready' left' (done ++ c ∷ [])
          (omega (arith, length-append done (c ∷ [])))
          (release-Waiting push_sorted
            (λ k n q. omega (arith, count-sort k (q ++ n ∷ []), count-append k q (n ∷ [])))
            (dependents c nodes) ready left (dependents_known c)
            (pop-Waiting c (dependents c nodes) (count-dependents_at c) w))
          (IsOrdered-snoc (deps_of nodes) [] done c o (popped_needs c w)))

-- Some dependency of some node is no node.
abbrev pub IsDangling : Nodes → String → Type 0
IsDangling nodes d =
    (k : String) × Has (keys nodes) k × Has (deps_of nodes k) d × ¬ Has (keys nodes) d

record Outcome (nodes : Nodes) : Type 0 where
  result : List String
  finished : Finished (deps_of nodes) (sort (keys nodes)) result
  unique : IsUnique (sort (keys nodes))
  closed : IsClosed (deps_of nodes) (sort (keys nodes))
  returned :
      resolve_keys nodes
      ≡ (if eqb (length result) (length nodes) then ok result else err cycle_detected)

length-ids : (nodes : Nodes) → length (sort (keys nodes)) ≡ length nodes
length-ids nodes = length-sort (keys nodes) ∙ length-keys nodes

counted-Outcome :
    (nodes : Nodes) {indegree : String → ℕ}
    → IsUnique (keys nodes)
    → IsKeyed nodes
    → count_nodes nodes nodes (λ _. 0) ≡ ok indegree
    → Outcome nodes
unfolding resolve_keys
counted-Outcome nodes {indegree} unique keyed h =
    let counted = count_nodes-IsCounted nodes nodes (λ _. 0) keyed h in
    let (result, looped, finished) =
      order_loop_total unique keyed counted (suc (length (sort (keys nodes))))
        (keep (λ id. eqb (indegree id) 0) (sort (keys nodes))) indegree [] (omega arith)
        (start-Waiting unique keyed counted) tt in
    record {
      result = result;
      finished = finished;
      unique = ids-IsUnique unique keyed counted;
      closed = ids-IsClosed unique keyed counted;
      returned = rw (h, looped) refl;
    }

count_cases :
    (nodes : Nodes)
    → IsUnique (keys nodes)
    → IsKeyed nodes
    → Outcome nodes
      ⊎ ((d : String) × (resolve_keys nodes ≡ err (unknown_dependency d)) × IsDangling nodes d)
unfolding resolve_keys
count_cases nodes unique keyed = elim (Result-cases (count_nodes nodes nodes (λ _. 0))) [
  | inl (indegree, h) ↦ inl (counted-Outcome nodes unique keyed h)
  | inr (x, h) ↦
      let (k, d, named, known, m, absent) = count_nodes-err nodes nodes (λ _. 0) h in
      inr (
        d,
        rw (h, named) refl,
        (
          k,
          known,
          omega (arith, m, weight-deps_of (count d) k nodes (omega (arith, unique k))),
          λ q. ground (arith, Has-is_node nodes d q),
        ),
      )
]

Outcome-ranked :
    {nodes : Nodes} (out : Outcome nodes) (rank : String → ℕ)
    → IsRanked rank (deps_of nodes) (keys nodes)
    → length out.result ≡ length nodes
Outcome-ranked {nodes} out rank ranked =
    length-SameItems out.result (sort (keys nodes)) (
      ranked-SameItems out.finished.waiting rank out.closed
        (λ k d h m. ranked k d (omega (arith, h, count-sort k (keys nodes))) m) out.unique)
    ∙ length-ids nodes

-- For nodes under distinct keys, each under its own ID, a list that ResolveOrder returns holds the
-- node of every key exactly once, and each behind all that it depends on.
pub resolve_order-IsOrdered :
    (nodes : Nodes) (result : List (Option Node))
    → IsUnique (keys nodes)
    → IsKeyed nodes
    → resolve_order nodes ≡ ok result
    → (order : List String) × (map (λ id. lookup id nodes) order ≡ result)
      × SameItems order (keys nodes)
      × IsOrdered (deps_of nodes) [] order
unfolding resolve_order
resolve_order-IsOrdered nodes result unique keyed h =
    let (order, found, mapped) =
      >>=-eq-ok (resolve_keys nodes) (λ r. ok (map (λ id. lookup id nodes) r)) h in
    elim (count_cases nodes unique keyed) [
      | inl out ↦ elim (Bool-cases (eqb (length out.result) (length nodes))) [
        | inl full ↦
            let same : out.result ≡ order = ground (arith, out.returned, found) in
            let all = full-SameItems out.finished.waiting out.unique (
              let n : length out.result ≡ length nodes = ground arith in
              n ∙ sym (length-ids nodes)) in
            (
              order,
              ground arith,
              λ k. rw (← same) (omega (arith, all k, count-sort k (keys nodes))),
              rw (← same) out.finished.ordered,
            )
        | inr short ↦ absurd (ground (arith, out.returned, found))
      ]
      | inr (d, failed, _) ↦ absurd (ground (arith, failed, found))
    ]

-- For nodes under distinct keys, each under its own ID, that depend only on nodes of the graph, with
-- a rank that puts each below those that depend on it (so there is no cycle), ResolveOrder returns
-- an order: it reports no error and does not run out of fuel.
pub resolve_order_total :
    (nodes : Nodes) (rank : String → ℕ)
    → IsUnique (keys nodes)
    → IsKeyed nodes
    → IsClosed (deps_of nodes) (keys nodes)
    → IsRanked rank (deps_of nodes) (keys nodes)
    → (result : List (Option Node)) × (resolve_order nodes ≡ ok result)
unfolding resolve_order
resolve_order_total nodes rank unique keyed closed ranked = elim (count_cases nodes unique keyed) [
  | inl out ↦
      let full = Outcome-ranked out rank ranked in
      (map (λ id. lookup id nodes) out.result, ground (arith, out.returned))
  | inr (d, failed, (k, known, m, absent)) ↦ absurd (absent (closed k d known m))
]

-- For nodes under distinct keys, each under its own ID, an error of ResolveOrder has its reason: it
-- names an ID that some node depends on and that is no node, or it reports a cycle and no rank puts
-- each node below those that depend on it.
pub resolve_order-err :
    (nodes : Nodes) (e : GraphError)
    → IsUnique (keys nodes)
    → IsKeyed nodes
    → resolve_order nodes ≡ err e
    → ((d : String) × (e ≡ unknown_dependency d) × IsDangling nodes d)
      ⊎ ((e ≡ cycle_detected)
          × ((rank : String → ℕ) → ¬ IsRanked rank (deps_of nodes) (keys nodes)))
unfolding resolve_order
resolve_order-err nodes e unique keyed h = elim (count_cases nodes unique keyed) [
  | inl out ↦ elim (Bool-cases (eqb (length out.result) (length nodes))) [
    | inl full ↦ absurd (ground (arith, out.returned))
    | inr short ↦ inr (
      ground (arith, out.returned),
      λ rank ranked. let full = Outcome-ranked out rank ranked in ground arith,
    )
  ]
  | inr (d, failed, why) ↦ inl (d, ground (arith, failed), why)
]
