-- ===== src/Ci/Plan/Ended.antt =====
-- What the node that ends a job waits for.
use Prim.Native.String.{◌++◌ as str_append}
use Prim.Native.String.{compare}
use text.Mathlib.Text.{is_lt}
use pads_v.Common.{
  ◌≡◌, ◌≢◌, refl, sym, subst, String, true, List, [], ◌∷◌, arith, eq_iff, Bool-cases, inl, inr, All,
}
use pads_v.Common.Count.{Has, bit_self}
use pads_v.Common.Table.{Table, insert, lookup}
use pads_v.Ci.Jobs.{Job, Step}
use pads_v.Ci.Plan.{
  add_node, add_steps, add_matrix, cache_node, run_node, end_node, end_dependencies, insert_step,
  sort_steps, is_there, step_id,
}
use pads_v.Dag.Nodes.{Node, Nodes}

abbrev pub run_id : Job → Step → String
run_id job step = str_append (step_id job step) ":run"

abbrev IsThere : Nodes → Job → Step → Type 0
IsThere nodes job step = is_there (lookup (run_id job step) nodes) ≡ true

there-insert :
    (k : String) (n : Node) (nodes : Nodes) (j : String)
    → is_there (lookup j nodes) ≡ true
    → is_there (lookup j (insert k n nodes)) ≡ true
unfolding lookup insert
there-insert k n [] j h = absurd (ground arith)
there-insert k n ((i, w) ∷ nodes) j h =
    ground (arith, eq_iff i k, eq_iff i j, eq_iff k j, there-insert k n nodes j)

there-insert_self : (n : Node) (nodes : Nodes) → is_there (lookup n.id (add_node n nodes)) ≡ true
unfolding lookup insert
there-insert_self n [] = ground (arith, eq_iff n.id n.id)
there-insert_self n ((i, w) ∷ nodes) = ground (arith, eq_iff i n.id, there-insert_self n nodes)

add_steps-keeps :
    (job : Job) (steps : List Step) (nodes : Nodes) (j : String)
    → is_there (lookup j nodes) ≡ true
    → is_there (lookup j (add_steps job steps nodes)) ≡ true
unfolding add_steps
add_steps-keeps job [] nodes j h = h
add_steps-keeps job (step ∷ steps) nodes j h =
    let cached = add_node (cache_node job step) nodes in
    let one = there-insert (cache_node job step).id (cache_node job step) nodes j h in
    add_steps-keeps job steps _ j
      (there-insert (run_node job step).id (run_node job step) cached j one)

add_steps-There :
    (job : Job) (steps : List Step) (nodes : Nodes)
    → All (IsThere (add_steps job steps nodes) job) steps
unfolding add_steps
add_steps-There job [] nodes = tt
add_steps-There job (step ∷ steps) nodes =
    let cached = add_node (cache_node job step) nodes in
    (
      add_steps-keeps job steps _ (run_id job step) (there-insert_self (run_node job step) cached),
      add_steps-There job steps _,
    )

module _ (P : Step → Type 0) where
  All-insert_step : (s : Step) (steps : List Step) → All P (insert_step s steps) → P s × All P steps
  unfolding insert_step
  All-insert_step s [] h = h
  All-insert_step s (t ∷ steps) h = elim (Bool-cases (is_lt (compare t.id s.id))) [
    | inl less ↦
        let (first, rest) = rw (less, insert_step) at h in
        let (new, old) = All-insert_step s steps rest in (new, (first, old))
    | inr more ↦ rw (more, insert_step) at h
  ]

  All-sort_steps : (steps : List Step) → All P (sort_steps steps) → All P steps
  unfolding sort_steps
  All-sort_steps [] h = tt
  All-sort_steps (s ∷ steps) h =
      let (first, rest) = All-insert_step s (sort_steps steps) h in
      (first, All-sort_steps steps rest)

add_matrix-keeps :
    (job : Job) (matrix : List (Table String)) (nodes : Nodes) (j : String)
    → is_there (lookup j nodes) ≡ true
    → is_there (lookup j (add_matrix job matrix nodes)) ≡ true
unfolding add_matrix
add_matrix-keeps job [] nodes j h = h
add_matrix-keeps job (m ∷ matrix) nodes j h =
    add_matrix-keeps job matrix _ j (add_steps-keeps job (sort_steps job.steps) nodes j h)

All-keeps :
    (job : Job) (matrix : List (Table String)) (nodes : Nodes) (steps : List Step)
    → All (IsThere nodes job) steps
    → All (IsThere (add_matrix job matrix nodes) job) steps
All-keeps job matrix nodes [] h = tt
All-keeps job matrix nodes (s ∷ steps) (first, rest) =
    (add_matrix-keeps job matrix nodes (run_id job s) first, All-keeps job matrix nodes steps rest)

add_matrix-There :
    (job : Job) (matrix : List (Table String)) (nodes : Nodes)
    → matrix ≢ []
    → All (IsThere (add_matrix job matrix nodes) job) job.steps
unfolding add_matrix
add_matrix-There job [] nodes some_one = absurd (some_one refl)
add_matrix-There job (m ∷ matrix) nodes some_one =
    let filled = add_steps job (sort_steps job.steps) nodes in
    All-keeps job matrix filled job.steps (
      All-sort_steps (IsThere filled job) job.steps
        (add_steps-There job (sort_steps job.steps) nodes))

abbrev pub Waits : List String → Job → Step → Type 0
Waits ids job step = Has ids (run_id job step)

All-Waits :
    (id : String) (ids : List String) (job : Job) (steps : List Step)
    → All (Waits ids job) steps
    → All (Waits (id ∷ ids) job) steps
All-Waits id ids job [] h = tt
All-Waits id ids job (s ∷ steps) (first, rest) =
    (omega (arith, first), All-Waits id ids job steps rest)

end_dependencies-Waits :
    (job : Job) (steps : List Step) (nodes : Nodes)
    → All (IsThere nodes job) steps
    → All (Waits (end_dependencies job steps nodes) job) steps
unfolding end_dependencies
end_dependencies-Waits job [] nodes h = tt
end_dependencies-Waits job (s ∷ steps) nodes (first, rest) =
    let later = end_dependencies-Waits job steps nodes rest in
    let grown : end_dependencies job (s ∷ steps) nodes
        ≡ run_id job s ∷ end_dependencies job steps nodes =
      rw (first, end_dependencies) refl in
    subst (λ ids. All (Waits ids job) (s ∷ steps)) (sym grown)
      (
        omega (arith, bit_self (run_id job s)),
        All-Waits (run_id job s) (end_dependencies job steps nodes) job steps later,
      )

-- The node that ends a job depends on the runs of all its steps, where its matrix has a combination.
pub end_node-Waits :
    (job : Job) (matrix : List (Table String)) (nodes : Nodes)
    → matrix ≢ []
    → All (Waits (end_node job (add_matrix job matrix nodes)).dependencies job) job.steps
unfolding end_node
end_node-Waits job matrix nodes some_one =
    end_dependencies-Waits job job.steps (add_matrix job matrix nodes)
      (add_matrix-There job matrix nodes some_one)
