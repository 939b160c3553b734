-- ===== src/Graph/Kahn/Steps.antt =====
-- What a step of the loop takes from the queue, and what the loop has done when it is empty.
use pads_v.Common.{
  Bool-cases, inl, inr, ◌==◌, ℕ, zero, suc, ◌+◌, ◌≤◌, ◌<◌, String, ◌≡◌, refl, List, [], ◌∷◌, ◌++◌,
  arith, eq_iff, length, length-append,
}
use pads_v.Common.Count.{count, Has, SameItems, count-append, ==_self, length-le, SameItems-length}
use pads_v.Graph.Kahn.{missing, missing-snoc, missing_zero, Has-of_missing, Waiting}

-- Each key stands behind all that it needs.
abbrev pub IsOrdered : (String → List String) → List String → List String → Type 0
IsOrdered needs seen [] = Unit
IsOrdered needs seen (k ∷ ks) =
    ((d : String) → Has (needs k) d → Has seen d) × IsOrdered needs (seen ++ k ∷ []) ks

pub IsOrdered-snoc :
    (needs : String → List String) (seen l : List String) (c : String)
    → IsOrdered needs seen l
    → ((d : String) → Has (needs c) d → Has (seen ++ l) d)
    → IsOrdered needs seen (l ++ c ∷ [])
IsOrdered-snoc needs seen [] c o h = (λ d m. omega (arith, h d m, count-append d seen []), tt)
IsOrdered-snoc needs seen (k ∷ ks) c o h = (
  o.0,
  IsOrdered-snoc needs (seen ++ k ∷ []) ks c o.1 (λ d m. omega (
    arith,
    h d m,
    count-append d seen (k ∷ ks),
    count-append d (seen ++ k ∷ []) ks,
    count-append d seen (k ∷ []),
  )),
)

-- Dependencies that all lie below, by some measure: the graph has no cycle.
abbrev pub IsRanked : (String → ℕ) → (String → List String) → List String → Type 0
IsRanked rank needs ids = (k d : String) → Has ids k → Has (needs k) d → rank d < rank k

abbrev pub IsClosed : (String → List String) → List String → Type 0
IsClosed needs ids = (k d : String) → Has ids k → Has (needs k) d → Has ids d

module _ {needs : String → List String} {ids done ns queue : List String}
    {indegree : String → ℕ} where
  pub popped_known : (c : String) → Waiting needs ids ns (c ∷ queue) indegree done → Has ids c
  popped_known c w = ground (arith, w.once c, ==_self c)

  popped_ready : (c : String) → Waiting needs ids ns (c ∷ queue) indegree done → indegree c ≡ 0
  popped_ready c w = ground (arith, w.once c, ==_self c)

  popped_fresh : (c : String) → Waiting needs ids ns (c ∷ queue) indegree done → count c done ≡ 0
  popped_fresh c w = ground (arith, w.once c, ==_self c)

  -- What is taken from the queue needs only what is done.
  pub popped_needs :
      (c : String)
      → Waiting needs ids ns (c ∷ queue) indegree done
      → (d : String) → Has (needs c) d
      → Has done d
  popped_needs c w =
      Has-of_missing done (needs c) (omega (arith, w.left c (popped_known c w), popped_ready c w))

  -- The key moves to the result, and the nodes that need it are to be released.
  pub pop-Waiting :
      (c : String) (dependents : List String)
      → ((k : String) → Has ids k → count k dependents ≡ count c (needs k))
      → Waiting needs ids ns (c ∷ queue) indegree done
      → Waiting needs ids (ns ++ dependents) queue indegree (done ++ c ∷ [])
  pop-Waiting c dependents counted w = record {
    left = λ k h. omega (
      arith,
      w.left k h,
      missing-snoc c done (needs k) (popped_fresh c w),
      count-append k ns dependents,
      counted k h,
    );
    once = λ k. omega (arith, w.once k, count-append k done (c ∷ []));
  }

  -- No key stands in the result and the queue more often than in the graph.
  pub done_bound :
      ((k : String) → count k ids ≤ 1)
      → Waiting needs ids ns queue indegree done
      → length queue + length done ≤ length ids
  done_bound unique w =
      let bound =
        length-le (queue ++ done) ids
          (λ k. ground (arith, w.once k, unique k, count-append k queue done)) in
      omega (arith, bound, length-append queue done)

module _ {needs : String → List String} {ids done : List String} {indegree : String → ℕ}
    (w : Waiting needs ids [] [] indegree done) where
  -- With an empty queue, a graph with no cycle is done: by induction on the rank.
  below_done :
      (rank : String → ℕ)
      → IsClosed needs ids
      → IsRanked rank needs ids
      → (n : ℕ) (k : String) → rank k < n
      → Has ids k
      → Has done k
  below_done rank closed ranked zero k lt h = absurd (omega arith)
  below_done rank closed ranked (suc n) k lt h =
      let none_left = missing_zero done (needs k) (λ d m.
        below_done rank closed ranked n d (omega (arith, ranked k d h m)) (closed k d h m)) in
      ground (arith, w.once k, w.left k h)

  pub ranked-SameItems :
      (rank : String → ℕ)
      → IsClosed needs ids
      → IsRanked rank needs ids
      → ((k : String) → count k ids ≤ 1)
      → SameItems done ids
  ranked-SameItems rank closed ranked unique k = ground (
    arith,
    w.once k,
    unique k,
    λ (h : Has ids k). below_done rank closed ranked (suc (rank k)) k (omega arith) h,
  )

  -- A result as long as the graph holds each key as often as the graph.
  pub full-SameItems :
      ((k : String) → count k ids ≤ 1) → length done ≡ length ids → SameItems done ids
  full-SameItems unique full =
      SameItems-length done ids (λ k. ground (arith, w.once k, unique k)) full

pub missing-nil : (l : List String) → missing [] l ≡ length l
missing-nil [] = refl
missing-nil (x ∷ xs) = omega (arith, missing-nil xs)

-- What the loop has reached.
pub record Finished (needs : String → List String) (ids result : List String) : Type 0 where
  pub counters : String → ℕ
  pub waiting : Waiting needs ids [] [] counters result
  pub ordered : IsOrdered needs [] result

-- A key that needs itself is never in an order.
pub count-IsOrdered_self :
    (needs : String → List String) (k : String) (seen l : List String)
    → Has (needs k) k
    → IsOrdered needs seen l
    → count k seen ≡ 0
    → count k l ≡ 0
count-IsOrdered_self needs k seen [] m o h = refl
count-IsOrdered_self needs k seen (x ∷ xs) m o h = elim (Bool-cases (x == k)) [
  | inl same ↦ absurd (omega (arith, o.0 k (rw ((eq_iff x k).0 same) m)))
  | inr other ↦
      let rest =
        count-IsOrdered_self needs k (seen ++ x ∷ []) xs m o.1
          (ground (arith, count-append k seen (x ∷ []))) in
      ground arith
]
