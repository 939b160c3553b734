-- ===== src/Graph/Kahn.antt =====
-- The counters of a topological sort, shared by the three loops of the program.
pub mod Steps
use pads_v.Common.{
  ℕ, zero, suc, ◌+◌, ◌-◌, ◌≤◌, ◌<◌, String, ◌≡◌, refl, sym, Bool, true, false, List, [], ◌∷◌, ◌++◌,
  inl, inr, arith, ◌==◌, eq_iff, eqb, bit, if◌then◌else◌, Bool-cases,
}
use pads_v.Common.Count.{count, Has, count-append, ==_self}
use pads_v.Common.Table.{put}

-- How many of the listed texts are not in `done`, with their multiplicity.
abbrev pub missing : List String → List String → ℕ
missing done [] = 0
missing done (x ∷ xs) = bit (eqb (count x done) 0) + missing done xs

pub missing-snoc :
    (c : String) (done l : List String)
    → count c done ≡ 0
    → missing done l ≡ missing (done ++ c ∷ []) l + count c l
missing-snoc c done [] h = refl
missing-snoc c done (x ∷ xs) h =
    ground (arith, eq_iff c x, eq_iff x c, count-append x done (c ∷ []), missing-snoc c done xs)

pub missing_zero :
    (done l : List String) → ((k : String) → Has l k → Has done k) → missing done l ≡ 0
missing_zero done [] h = refl
missing_zero done (x ∷ xs) h =
    let here : Has done x = h x (ground (arith, ==_self x)) in
    let rest = missing_zero done xs (λ k m. h k (omega arith)) in ground arith

pub Has-of_missing :
    (done l : List String) → missing done l ≡ 0 → (k : String) → Has l k → Has done k
Has-of_missing done [] e k h = absurd (omega arith)
Has-of_missing done (x ∷ xs) e k h =
    ground
      (arith, eq_iff x k, λ (p : missing done xs ≡ 0) (q : Has xs k). Has-of_missing done xs p k q)

-- The loop over the nodes that wait for a finished one: each counter goes down, and a node whose
-- counter gets to zero is pushed. The counter is positive there (`Waiting`), so `-` is exact.
abbrev pub release_one :
    (List String → String → List String)
    → String
    → List String
    → (String → ℕ)
    → List String × (String → ℕ)
release_one push n queue indegree =
    let left = indegree n - 1 in (if eqb left 0 then push queue n else queue, put indegree n left)

unfoldable pub release :
    (List String → String → List String)
    → List String
    → List String
    → (String → ℕ)
    → List String × (String → ℕ)
release push [] queue indegree = (queue, indegree)
release push (n ∷ ns) queue indegree =
    let (queue', indegree') = release_one push n queue indegree in release push ns queue' indegree'

-- How often a text is to stand in the queue and the result: once, if it is a node with no
-- dependency left to wait for.
abbrev pub due : ℕ → ℕ → ℕ
due known left = if eqb known 0 then 0 else bit (eqb left 0)

-- What holds between two steps of the loop, `ns` being the nodes still to be released.
pub record Waiting (needs : String → List String) (ids ns queue : List String)
    (indegree : String → ℕ) (done : List String) : Type 0 where
  pub left : (k : String) → Has ids k → indegree k ≡ missing done (needs k) + count k ns
  pub once : (k : String) → count k queue + count k done ≡ due (count k ids) (indegree k)

module _ {needs : String → List String} {ids done : List String}
    (push : List String → String → List String)
    (push_count : (k n : String) (q : List String)
      → count k (push q n) ≡ count k q + bit (n == k)) where
  release_one-Waiting :
      {queue : List String} {indegree : String → ℕ} (n : String) (ns : List String)
      → Has ids n
      → Waiting needs ids (n ∷ ns) queue indegree done
      → let (queue', indegree') = release_one push n queue indegree in
        Waiting needs ids ns queue' indegree' done
  release_one-Waiting {queue} {indegree} n ns known w = record {
    left = λ k h. ground (arith, eq_iff n k, w.left k h, w.left n known);
    once = λ k.
        ground
          (arith, eq_iff n k, ==_self n, w.left n known, w.once k, w.once n, push_count k n queue);
  }

  -- The whole loop, over nodes of the graph.
  pub release-Waiting :
      (ns queue : List String) (indegree : String → ℕ)
      → ((k : String) → Has ns k → Has ids k)
      → Waiting needs ids ns queue indegree done
      → let (queue', indegree') = release push ns queue indegree in
        Waiting needs ids [] queue' indegree' done
  unfolding release
  release-Waiting [] queue indegree known w = w
  release-Waiting (n ∷ ns) queue indegree known w =
      let (queue', indegree') = release_one push n queue indegree in
      release-Waiting ns queue' indegree' (λ k h. known k (omega arith))
        (release_one-Waiting n ns (known n (ground (arith, ==_self n))) w)

-- A release in two parts.
pub release-append :
    (push : List String → String → List String) (xs ys queue : List String) (indegree : String → ℕ)
    → release push (xs ++ ys) queue indegree ≡ (
        let (queue', indegree') = release push xs queue indegree in
        release push ys queue' indegree')
unfolding release
release-append push [] ys queue indegree = refl
release-append push (x ∷ xs) ys queue indegree =
    let (queue', indegree') = release_one push x queue indegree in
    release-append push xs ys queue' indegree'
