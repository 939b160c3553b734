-- ===== src/Ci/Plan/Planned.antt =====
-- What holds of the nodes of the jobs' graph.
use Prim.Native.String.{◌++◌ as str_append}
use pads_v.Common.{
  ◌≢◌, ◌⊎◌, All, some, subst, ◌≤◌, ◌≡◌, refl, String, List, [], ◌∷◌, arith, if◌then◌else◌, ◌==◌,
  eq_iff, ltb, Bool-cases, inl, inr,
}
use pads_v.Common.Count.{count, IsUnique}
use pads_v.Common.Table.{Table, insert, keys, lookup}
use pads_v.Ci.Jobs.{Job, Step}
use pads_v.Ci.Expansion.{expand}
use pads_v.Ci.Plan.Ended.{Waits, end_node-Waits}
use pads_v.Ci.Plan.{
  add_node, add_steps, add_matrix, add_job, add_jobs, cache_node, run_node, start_node, end_node,
  sort_steps,
}
use pads_v.Dag.Nodes.{Node, Nodes, step_run, job_end, IsKeyed}

count-insert :
    {V : Type 0} (j k : String) (v : V) (m : Table V)
    → count j (keys (insert k v m)) ≤ (
        if k == j
        then (if ltb 0 (count j (keys m)) then count j (keys m) else 1)
        else count j (keys m))
unfolding insert
count-insert j k v [] = ground (arith, eq_iff k j)
count-insert j k v ((i, w) ∷ m) =
    ground (arith, eq_iff k j, eq_iff i k, eq_iff i j, count-insert j k v m)

abbrev pub job_start_id : String → String
job_start_id job = str_append job ":job_start"

abbrev pub cache_id : (job step : String) → String
cache_id job step = str_append (str_append job (str_append ":" step)) ":cache"

abbrev pub Among : Job → List Job → Type 0
Among job [] = ⊥
Among job (j ∷ jobs) = (j ≡ job) ⊎ Among job jobs

pub all_jobs : (jobs : List Job) → All (λ j. Among j jobs) jobs
all_jobs [] = tt
all_jobs (j ∷ jobs) = (inl refl, widened jobs (all_jobs jobs))
  where
    widened :
        (some_jobs : List Job)
        → All (λ k. Among k jobs) some_jobs
        → All (λ k. Among k (j ∷ jobs)) some_jobs
    widened [] h = tt
    widened (k ∷ ks) (first, rest) = (inr first, widened ks rest)

-- A node that runs a step depends on the start of its job and on the cache of its step. A node that
-- ends a job depends on the runs of the steps of a job with its identifier, where the matrix of that
-- has a combination.
abbrev pub IsPlanned : List Job → Node → Type 0
IsPlanned jobs n =
    (n.type ≡ step_run → n.dependencies ≡ job_start_id n.job_id ∷ cache_id n.job_id n.step_id ∷ [])
    × (n.type ≡ job_end
        → (job : Job) × Among job jobs
          × (n.job_id ≡ job.id)
          × (expand job.matrix ≢ [] → All (Waits n.dependencies job) job.steps))

pub record IsGraph (jobs : List Job) (nodes : Nodes) : Type 0 where
  pub unique : IsUnique (keys nodes)
  pub keyed : IsKeyed nodes
  pub planned : All (λ entry. IsPlanned jobs entry.1) nodes

insert-IsKeyed : (n : Node) (nodes : Nodes) → IsKeyed nodes → IsKeyed (insert n.id n nodes)
unfolding insert
insert-IsKeyed n [] h = (refl, tt)
insert-IsKeyed n ((i, w) ∷ nodes) (first, rest) = elim (Bool-cases (i == n.id)) [
  | inl e ↦ rw (e, insert) (refl, rest)
  | inr e ↦ rw (e, insert) (first, insert-IsKeyed n nodes rest)
]

insert-IsPlanned :
    (jobs : List Job) (n : Node) (nodes : Nodes)
    → IsPlanned jobs n
    → All (λ entry. IsPlanned jobs entry.1) nodes
    → All (λ entry. IsPlanned jobs entry.1) (insert n.id n nodes)
unfolding insert
insert-IsPlanned jobs n [] p h = (p, tt)
insert-IsPlanned jobs n ((i, w) ∷ nodes) p (first, rest) = elim (Bool-cases (i == n.id)) [
  | inl e ↦ rw (e, insert) (p, rest)
  | inr e ↦ rw (e, insert) (first, insert-IsPlanned jobs n nodes p rest)
]

pub lookup-IsPlanned :
    (jobs : List Job) (k : String) (nodes : Nodes) (n : Node)
    → All (λ entry. IsPlanned jobs entry.1) nodes
    → lookup k nodes ≡ some n
    → IsPlanned jobs n
unfolding lookup
lookup-IsPlanned jobs k [] n h found = absurd (cc)
lookup-IsPlanned jobs k ((i, w) ∷ nodes) n (first, rest) found = elim (Bool-cases (i == k)) [
  | inl e ↦ let same : w ≡ n = ground (arith, e) in subst (IsPlanned jobs) same first
  | inr e ↦ lookup-IsPlanned jobs k nodes n rest (ground (arith, e))
]

module _ (jobs : List Job) where
  add_node-IsGraph :
      (n : Node) (nodes : Nodes)
      → IsPlanned jobs n
      → IsGraph jobs nodes
      → IsGraph jobs (add_node n nodes)
  add_node-IsGraph n nodes p g = record {
    planned = insert-IsPlanned jobs n nodes p g.planned;
    unique = λ j. ground (arith, count-insert j n.id n nodes, g.unique j);
    keyed = insert-IsKeyed n nodes g.keyed;
  }

  add_steps-IsGraph :
      (job : Job) (steps : List Step) (nodes : Nodes)
      → IsGraph jobs nodes
      → IsGraph jobs (add_steps job steps nodes)
  unfolding add_steps
  add_steps-IsGraph job [] nodes g = g
  add_steps-IsGraph job (step ∷ steps) nodes g = add_steps-IsGraph job steps _ (
      add_node-IsGraph (run_node job step) (add_node (cache_node job step) nodes)
        (λ t. refl, λ t. absurd (cc))
        (add_node-IsGraph (cache_node job step) nodes (λ t. absurd (cc), λ t. absurd (cc)) g))

  add_matrix-IsGraph :
      (job : Job) (matrix : List (Table String)) (nodes : Nodes)
      → IsGraph jobs nodes
      → IsGraph jobs (add_matrix job matrix nodes)
  unfolding add_matrix
  add_matrix-IsGraph job [] nodes g = g
  add_matrix-IsGraph job (m ∷ matrix) nodes g =
      add_matrix-IsGraph job matrix _ (add_steps-IsGraph job (sort_steps job.steps) nodes g)

  end_node-IsPlanned :
      (job : Job) (nodes : Nodes)
      → Among job jobs
      → IsPlanned jobs (end_node job (add_matrix job (expand job.matrix) nodes))
  unfolding end_node
  end_node-IsPlanned job nodes known = (
    λ t. absurd (cc),
    λ t. (job, known, refl, λ some_one. end_node-Waits job (expand job.matrix) nodes some_one),
  )

  add_job-IsGraph :
      (job : Job) (nodes : Nodes)
      → Among job jobs
      → IsGraph jobs nodes
      → IsGraph jobs (add_job job nodes)
  unfolding add_job end_node
  add_job-IsGraph job nodes known g =
      let started = add_node (start_node job) nodes in
      let filled = add_matrix job (expand job.matrix) started in
      add_node-IsGraph (end_node job filled) filled (end_node-IsPlanned job started known) (
        add_matrix-IsGraph job (expand job.matrix) _
          (add_node-IsGraph (start_node job) nodes (λ t. absurd (cc), λ t. absurd (cc)) g))

  pub add_jobs-IsGraph :
      (some_jobs : List Job) (nodes : Nodes)
      → All (λ j. Among j jobs) some_jobs
      → IsGraph jobs nodes
      → IsGraph jobs (add_jobs some_jobs nodes)
  unfolding add_jobs
  add_jobs-IsGraph [] nodes known g = g
  add_jobs-IsGraph (job ∷ some_jobs) nodes (first, rest) g =
      add_jobs-IsGraph some_jobs _ rest (add_job-IsGraph job nodes first g)
