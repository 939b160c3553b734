-- ===== src/Dag/Run/Sound.antt =====
-- What a run executes, in which order, and what it leaves out without an error.
use pads_v.Common.{
  ℕ, suc, ◌-◌, ◌≤◌, String, ◌≡◌, refl, sym, subst, List, [], inl, inr, ◌⊎◌, arith, length, ok, err,
  Result-cases,
}
use pads_v.Common.Count.{count, Has, IsUnique, SameItems}
use pads_v.Common.Sorting.{sort}
use pads_v.Common.Table.{keys, length-keys}
use pads_v.Graph.Edges.{no_edges}
use pads_v.Graph.Kahn.Steps.{
  Finished, IsOrdered, IsClosed, IsRanked, ranked-SameItems, count-IsOrdered_self,
}
use pads_v.Dag.Nodes.{Nodes, CanonicalEvent, unknown_dependency, IsKeyed, deps_of}
use pads_v.Dag.Weights.{weight-deps_of}
use pads_v.Dag.NodeOrder.Sound.{IsDangling, Has-is_node}
use pads_v.Dag.Run.{Shell, events_of, edge_nodes, run, run_loop, initial, parallel}
use pads_v.Dag.Run.Batch.{edge_nodes-IsLinked, edge_nodes-err}
use pads_v.Dag.Run.Loop.{keys-IsClosed, start-Waiting, run_loop_total}

record Outcome (shell : Shell) (nodes : Nodes) (max_parallel : ℕ) : Type 0 where
  order : List String
  finished : Finished (deps_of nodes) (keys nodes) order
  closed : IsClosed (deps_of nodes) (keys nodes)
  returned : run shell nodes max_parallel ≡ ok (events_of shell nodes order)

module _ (shell : Shell) (nodes : Nodes) (max_parallel : ℕ) (unique : IsUnique (keys nodes))
    (keyed : IsKeyed nodes) where
  run_cases :
      Outcome shell nodes max_parallel
      ⊎ ((d : String) × (run shell nodes max_parallel ≡ err (unknown_dependency d))
          × IsDangling nodes d)
  unfolding run events_of
  run_cases = elim (Result-cases (edge_nodes nodes nodes no_edges)) [
    | inl (edges, h) ↦
        let linked = edge_nodes-IsLinked nodes nodes no_edges keyed h in
        let bound : parallel max_parallel ≡ suc (parallel max_parallel - 1) = ground arith in
        let (order, looped, finished) =
          run_loop_total unique keyed linked shell (parallel max_parallel - 1) (suc (length nodes))
            (sort (initial nodes edges.indegree)) edges.indegree [] [] refl
            (omega (arith, length-keys nodes)) (start-Waiting unique keyed linked) tt in
        inl (record {
          order = order;
          finished = finished;
          closed = keys-IsClosed unique keyed linked;
          returned = rw h (
              subst
                (λ width.
                  run_loop (suc (length nodes)) shell nodes width (λ id. sort (edges.graph id))
                    (sort (initial nodes edges.indegree)) edges.indegree []
                  ≡ ok (events_of shell nodes order))
                (sym bound) looped);
        })
    | inr (x, h) ↦
        let (k, d, named, known, m, absent) = edge_nodes-err nodes nodes no_edges h in
        inr (
          d,
          rw (h, named) refl,
          (
            k,
            known,
            omega (arith, m, weight-deps_of (count d) k nodes (omega (arith, unique k))),
            λ q. ground (arith, Has-is_node nodes d q),
          ),
        )
  ]

  -- For nodes under distinct keys, each under its own ID, and whatever the commands do, a run that
  -- returns events has executed nodes in an order, each key at most once and behind all that it
  -- depends on, and the events are theirs in that order.
  pub run-IsOrdered :
      (events : List CanonicalEvent)
      → run shell nodes max_parallel ≡ ok events
      → (order : List String) × (events ≡ events_of shell nodes order)
        × ((k : String) → count k order ≤ count k (keys nodes))
        × IsOrdered (deps_of nodes) [] order
  run-IsOrdered events h = elim run_cases [
    | inl out ↦ (
      out.order,
      ground (arith, out.returned),
      λ k. ground (arith, out.finished.waiting.once k, unique k),
      out.finished.ordered,
    )
    | inr (d, failed, _) ↦ absurd (ground (arith, failed))
  ]

  -- For nodes under distinct keys, each under its own ID, that depend only on nodes of the graph,
  -- with a rank that puts each below those that depend on it (so there is no cycle), a run returns
  -- the events of an order that holds every node exactly once and behind all that it depends on.
  pub run_complete :
      (rank : String → ℕ)
      → IsClosed (deps_of nodes) (keys nodes)
      → IsRanked rank (deps_of nodes) (keys nodes)
      → (order : List String) × (run shell nodes max_parallel ≡ ok (events_of shell nodes order))
        × SameItems order (keys nodes)
        × IsOrdered (deps_of nodes) [] order
  run_complete rank closed ranked = elim run_cases [
    | inl out ↦ (
      out.order,
      out.returned,
      ranked-SameItems out.finished.waiting rank closed ranked unique,
      out.finished.ordered,
    )
    | inr (d, _, (k, known, m, absent)) ↦ absurd (absent (closed k d known m))
  ]

  -- For nodes under distinct keys, each under its own ID, that depend only on nodes of the graph, a
  -- run returns events with no error also where a node depends on itself, and that node is not
  -- executed.
  pub run-drops_self_dependent :
      (k : String)
      → IsClosed (deps_of nodes) (keys nodes)
      → Has (deps_of nodes k) k
      → (order : List String) × (run shell nodes max_parallel ≡ ok (events_of shell nodes order))
        × (count k order ≡ 0)
  run-drops_self_dependent k closed m = elim run_cases [
    | inl out ↦ (
      out.order,
      out.returned,
      count-IsOrdered_self (deps_of nodes) k [] out.order m out.finished.ordered refl,
    )
    | inr (d, _, (j, known, n, absent)) ↦ absurd (absent (closed j d known n))
  ]
