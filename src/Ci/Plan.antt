-- ===== src/Ci/Plan.antt =====
-- internal/ci/plan.go and cache.go: the graph of the jobs, with the decisions of the cache. `sha` is
-- the hexadecimal SHA-256 of a text, and `hit` says whether the cache has a file for a key.
pub mod Keyed
pub mod Ended
pub mod Planned
pub mod Samples
use Prim.Native.String.{◌++◌ as str_append, compare}
use text.Mathlib.Text.{is_lt}
use pads_v.Common.{
  ℕ, String, Bool, true, false, Option, none, some, List, [], ◌∷◌, ◌++◌, map, if◌then◌else◌, ◌==◌,
  Result, ok, err,
}
use pads_v.Common.Table.{Table, lookup, insert, keys}
use pads_v.Common.Sorting.{sort}
use pads_v.Ci.Jobs.{Job, Jobs, Step}
use pads_v.Ci.JobOrder.{resolve_job_order}
use pads_v.Ci.Expansion.{expand}
use pads_v.Dag.Nodes.{Node, Nodes, NodeType, ActionSpec, job_start, job_end, step_run, cache}

-- The cache's frozen view.
abbrev pub CacheSnapshot : Type 0
CacheSnapshot = Table Bool

abbrev value_of : Option String → String
value_of none = ""
value_of (some v) = v

unfoldable pub flatten_keys : Table String → List String → String
flatten_keys vars [] = ""
flatten_keys vars (k ∷ names) = str_append k (
    str_append "="
      (str_append (value_of (lookup k vars)) (str_append ";" (flatten_keys vars names))))

-- flatten
unfoldable pub flatten : Table String → String
unfolding flatten_keys
flatten vars = flatten_keys vars (sort (keys vars))

-- Cache.Key
unfoldable pub cache_key : (String → String) → String → Step → String → String → String
cache_key sha job_id step input matrix_hash =
    sha
      (str_append job_id (str_append step.id (str_append step.run (str_append matrix_hash input))))

-- Cache.TakeSnapshot
unfoldable pub take_snapshot : (String → Bool) → CacheSnapshot → List String → CacheSnapshot
take_snapshot hit snap [] = snap
take_snapshot hit snap (key ∷ all_keys) = take_snapshot hit (insert key (hit key) snap) all_keys

-- sort.Slice by ID
unfoldable pub insert_step : Step → List Step → List Step
insert_step s [] = s ∷ []
insert_step s (t ∷ steps) =
    if is_lt (compare t.id s.id) then t ∷ insert_step s steps else s ∷ t ∷ steps

unfoldable pub sort_steps : List Step → List Step
unfolding insert_step
sort_steps [] = []
sort_steps (s ∷ steps) = insert_step s (sort_steps steps)

-- The keys of one combination, and of all of a job.
unfoldable pub step_keys : (String → String) → String → Table String → List Step → List String
unfolding flatten cache_key
step_keys sha job_id vars [] = []
step_keys sha job_id vars (step ∷ steps) =
    cache_key sha job_id step (flatten vars) (flatten vars) ∷ step_keys sha job_id vars steps

unfoldable pub matrix_keys : (String → String) → Job → List (Table String) → List String
unfolding step_keys sort_steps
matrix_keys sha job [] = []
matrix_keys sha job (m ∷ matrix) =
    step_keys sha job.id m (sort_steps job.steps) ++ matrix_keys sha job matrix

unfoldable pub job_keys : (String → String) → List Job → List String
unfolding matrix_keys
job_keys sha [] = []
job_keys sha (job ∷ jobs) = matrix_keys sha job (expand job.matrix) ++ job_keys sha jobs

abbrev no_action : ActionSpec
no_action = record { command = ""; working_dir = "" }

abbrev pub start_id : Job → String
start_id job = str_append job.id ":job_start"

abbrev pub step_id : Job → Step → String
step_id job step = str_append job.id (str_append ":" step.id)

-- graph.Nodes[n.ID] = n
abbrev pub add_node : Node → Nodes → Nodes
add_node n nodes = insert n.id n nodes

abbrev pub cache_node : Job → Step → Node
cache_node job step = record {
  id = str_append (step_id job step) ":cache";
  type = cache;
  job_id = job.id;
  step_id = step.id;
  action = no_action;
  dependencies = [];
}

abbrev pub run_node : Job → Step → Node
run_node job step = record {
  id = str_append (step_id job step) ":run";
  type = step_run;
  job_id = job.id;
  step_id = step.id;
  action = record { command = step.run; working_dir = step.working_dir };
  dependencies = start_id job ∷ str_append (step_id job step) ":cache" ∷ [];
}

-- The loop over the steps of one combination.
unfoldable pub add_steps : Job → List Step → Nodes → Nodes
add_steps job [] nodes = nodes
add_steps job (step ∷ steps) nodes =
    add_steps job steps (add_node (run_node job step) (add_node (cache_node job step) nodes))

-- ... and over the combinations, which the nodes do not name.
unfoldable pub add_matrix : Job → List (Table String) → Nodes → Nodes
unfolding add_steps sort_steps
add_matrix job [] nodes = nodes
add_matrix job (m ∷ matrix) nodes =
    add_matrix job matrix (add_steps job (sort_steps job.steps) nodes)

abbrev pub is_there : Option Node → Bool
is_there none = false
is_there (some _) = true

unfoldable pub end_dependencies : Job → List Step → Nodes → List String
end_dependencies job [] nodes = []
end_dependencies job (step ∷ steps) nodes =
    let run_id = str_append (step_id job step) ":run" in
    let rest = end_dependencies job steps nodes in
    if is_there (lookup run_id nodes) then run_id ∷ rest else rest

abbrev pub start_node : Job → Node
start_node job = record {
  id = start_id job;
  type = job_start;
  job_id = job.id;
  step_id = "";
  action = no_action;
  dependencies = [];
}

unfoldable pub end_node : Job → Nodes → Node
unfolding end_dependencies
end_node job nodes = record {
  id = str_append job.id ":job_end";
  type = job_end;
  job_id = job.id;
  step_id = "";
  action = no_action;
  dependencies = end_dependencies job job.steps nodes;
}

unfoldable pub add_job : Job → Nodes → Nodes
unfolding add_matrix end_node
add_job job nodes =
    let filled = add_matrix job (expand job.matrix) (add_node (start_node job) nodes) in
    insert (str_append job.id ":job_end") (end_node job filled) filled

unfoldable pub add_jobs : List Job → Nodes → Nodes
unfolding add_job
add_jobs [] nodes = nodes
add_jobs (job ∷ jobs) nodes = add_jobs jobs (add_job job nodes)

-- The order of the jobs, whose error is dropped.
abbrev pub order_of : {E : Type 0} → Result E (List Job) → List Job
order_of (ok order) = order
order_of (err _) = []

-- BuildDAG
unfoldable pub build_dag : (String → String) → (String → Bool) → Jobs → Nodes × CacheSnapshot
unfolding job_keys take_snapshot add_jobs
build_dag sha hit jobs =
    let order = order_of (resolve_job_order jobs) in
    (add_jobs order [], take_snapshot hit [] (job_keys sha order))
