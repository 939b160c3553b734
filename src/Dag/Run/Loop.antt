-- ===== src/Dag/Run/Loop.antt =====
-- The scheduler's loop of internal/dag/executor.go, round after round.
use mathlib.Core.List.{append_assoc}
use pads_v.Common.{
  ℕ, zero, suc, ◌+◌, ◌<◌, String, ◌≡◌, refl, sym, List, [], ◌∷◌, ◌++◌, arith, eq_iff, eqb,
  if◌then◌else◌, length, length-append, take, drop, take-append-drop, ok, ◌∙◌, ap,
}
use pads_v.Common.Count.{count, Has, IsUnique, count-append}
use pads_v.Common.Sorting.{sort, count-sort}
use pads_v.Common.Table.{keys}
use pads_v.Graph.Edges.{Edges, no_edges}
use pads_v.Graph.Kahn.{Waiting, release-Waiting}
use pads_v.Graph.Kahn.Steps.{Finished, IsOrdered, IsClosed, missing-nil, done_bound}
use pads_v.Dag.Nodes.{Nodes, CanonicalEvent, IsKeyed, deps_of}
use pads_v.Dag.Weights.{weight-deps_of, weight-absent}
use pads_v.Dag.NodeOrder.Sound.{is_node-Has}
use pads_v.Dag.Run.{Shell, events_of, push_last, release_batch, run_loop, initial}
use pads_v.Dag.Run.Batch.{
  IsLinked, batch_dependents, release_batch-eq-release, Has-batch_dependents, pop_batch-Waiting,
  pop_batch-IsOrdered,
}

pub events_of-append :
    (shell : Shell) (nodes : Nodes) (xs ys : List String)
    → events_of shell nodes (xs ++ ys) ≡ events_of shell nodes xs ++ events_of shell nodes ys
unfolding events_of
events_of-append shell nodes [] ys = refl
events_of-append shell nodes (x ∷ xs) ys = simp (events_of-append shell nodes xs ys, append_assoc)

-- A queue in another order.
sort-Waiting :
    {needs : String → List String} {ids queue done : List String} {indegree : String → ℕ}
    → Waiting needs ids [] queue indegree done
    → Waiting needs ids [] (sort queue) indegree done
sort-Waiting {queue = queue} w = record {
  left = w.left;
  once = λ k. omega (arith, w.once k, count-sort k queue);
}

count-initial :
    (k : String) (part : Nodes) (d : String → ℕ)
    → IsKeyed part
    → count k (initial part d) ≡ (if eqb (d k) 0 then count k (keys part) else 0)
count-initial k [] d keyed = ground arith
count-initial k ((id, n) ∷ part) d keyed =
    ground (arith, keyed.0, eq_iff id k, eq_iff n.id k, count-initial k part d keyed.1)

module _ {nodes : Nodes} {edges : Edges} (unique : IsUnique (keys nodes)) (keyed : IsKeyed nodes)
    (linked : IsLinked nodes nodes no_edges edges) where
  abbrev adj : String → List String
  adj id = sort (edges.graph id)

  key_once : (k : String) → Has (keys nodes) k → count k (keys nodes) ≡ 1
  key_once k h = omega (arith, unique k)

  pub keys-IsClosed : IsClosed (deps_of nodes) (keys nodes)
  keys-IsClosed k d h m =
      is_node-Has nodes d
        (linked.known k d (omega (arith, m, weight-deps_of (count d) k nodes (key_once k h))))

  pub start-Waiting :
      Waiting
        (deps_of nodes)
        (keys nodes)
        []
        (sort (initial nodes edges.indegree))
        edges.indegree
        []
  start-Waiting = record {
    left = λ k h. omega (
      arith,
      linked.indegree k,
      weight-deps_of length k nodes (key_once k h),
      missing-nil (deps_of nodes k),
    );
    once = λ k. ground (
      arith,
      unique k,
      count-sort k (initial nodes edges.indegree),
      count-initial k nodes edges.indegree keyed,
    );
  }

  count-adj : (c k : String) → Has (keys nodes) k → count k (adj c) ≡ count c (deps_of nodes k)
  count-adj c k h = omega (
    arith,
    linked.graph c k,
    count-sort k (edges.graph c),
    weight-deps_of (count c) k nodes (key_once k h),
  )

  adj_known : (c k : String) → Has (adj c) k → Has (keys nodes) k
  adj_known c k h =
      ground
        (arith, linked.graph c k, count-sort k (edges.graph c), weight-absent (count c) k nodes)

  -- One round keeps what holds between rounds.
  round-Waiting :
      (batch rest done : List String) (d : String → ℕ)
      → Waiting (deps_of nodes) (keys nodes) [] (batch ++ rest) d done
      → let (ready', d') = release_batch adj batch rest d in
        Waiting (deps_of nodes) (keys nodes) [] (sort ready') d' (done ++ batch)
  round-Waiting batch rest done d w = rw (release_batch-eq-release adj batch rest d) (
      sort-Waiting (
        release-Waiting push_last (λ k n q. ground (arith, count-append k q (n ∷ [])))
          (batch_dependents adj batch) rest d
          (λ k. Has-batch_dependents adj (keys nodes) adj_known batch k)
          (pop_batch-Waiting adj count-adj batch [] rest done w)))

  module _ (shell : Shell) (bound : ℕ) where
    pub run_loop_total :
        (fuel : ℕ) (ready : List String) (d : String → ℕ) (done : List String)
        (all_events : List CanonicalEvent)
        → all_events ≡ events_of shell nodes done
        → length (keys nodes) < fuel + length done
        → Waiting (deps_of nodes) (keys nodes) [] ready d done
        → IsOrdered (deps_of nodes) [] done
        → (order : List String) × (run_loop fuel shell nodes (suc bound) adj ready d all_events
            ≡ ok (events_of shell nodes order))
          × Finished (deps_of nodes) (keys nodes) order
    unfolding run_loop
    run_loop_total fuel [] d done all_events same enough w o =
        (done, ap ok same, record { counters = d; waiting = w; ordered = o })
    run_loop_total zero (c ∷ ready) d done all_events same enough w o =
        absurd (omega (arith, done_bound unique w))
    run_loop_total (suc fuel) (c ∷ ready) d done all_events same enough w o =
        let batch = c ∷ take bound ready in
        let rest = drop bound ready in
        let (ready', d') = release_batch adj batch rest d in
        let split : Waiting (deps_of nodes) (keys nodes) [] (batch ++ rest) d done =
          rw (take-append-drop bound ready) w in
        run_loop_total fuel (sort ready') d' (done ++ batch)
          (all_events ++ events_of shell nodes batch)
          (ap (λ l. l ++ events_of shell nodes batch) same
            ∙ sym (events_of-append shell nodes done batch))
          (omega (arith, length-append done batch)) (round-Waiting batch rest done d split)
          (pop_batch-IsOrdered adj count-adj batch [] rest done split o)
