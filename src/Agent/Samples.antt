-- ===== src/Agent/Samples.antt =====
-- Two results of a pool, a plan of one step on a project that is a list of texts, and a suggestion.
use pads_v.Common.{
  ℕ, ◌≡◌, ◌⊎◌, refl, String, true, false, Option, none, some, List, [], ◌∷◌, All, ok, err, arith,
  if◌then◌else◌,
}
use pads_v.Common.Int.{ℤ, pos, ◌+ℤ◌, ◌-ℤ◌, ◌*ℤ◌}
use pads_v.Evolution.Loop.{rollback_triggered, evolve}
use pads_v.Evolution.Detector.{new_detector, add, is_stable, is_oscillating}
use pads_v.Evolution.Gate.{new_gate, orchestrate}
use pads_v.Evolution.Samples.Decisions.{calm}
use pads_v.Evolution.Bandit.{new_ucb_selector, add_arm}
use pads_v.Evolution.AgentLoop.{AgentResult, AgentLoop, no_cycle, failed}
use pads_v.Evolution.Samples.{whole, digest, calm_world, entries, events}
use pads_v.Agent.Plans.{Task, Plan, task_fix_broken, action_write_file, digits_of}
use pads_v.Agent.Plans.Digits.{read_digits, read_digits-digits_of}
use pads_v.Agent.Score.{SandboxResult}
use pads_v.Agent.Pool.{PooledAgent, is_better, valid_results, suggest_from_pool, no_result}
use pads_v.Agent.Pool.Best.{Among, suggest_from_pool-best}
use pads_v.Agent.Sandbox.{Paths, System, CommandResult, dry_run_with_sandbox}
use pads_v.Agent.Connector.{
  Connector, Answers, Suggestion, suggested, new_connector, suggest_and_evaluate,
}
use pads_v.Agent.Connector.Reset.{current_score-suggest_and_evaluate}

read_digits-digits_of_example :
    (digits : List ℕ) × (digits_of (pos 1234) ≡ some digits) × (read_digits 0 digits ≡ 1234)
read_digits-digits_of_example = read_digits-digits_of 1234 (ground arith)

abbrev result : ℕ → List String → AgentResult ℤ
result score reasons = record {
  candidate_id = "c";
  score = pos score;
  accepted = true;
  cycle_result = no_cycle whole;
  stability_score = pos score;
  reason = failed rollback_triggered;
  ucb_arm = "greedy";
  reward = pos 0;
  semantic_risk = pos 0;
  semantic_reasons = reasons;
}

abbrev task : Task
task = record { kind = task_fix_broken; target = "a.go"; goal = "repair" }

abbrev results : List (Option (AgentResult ℤ))
results = some (result 3 ("risky" ∷ [])) ∷ none ∷ some (result 3 []) ∷ []

abbrev agents : List (PooledAgent ℤ)
agents = []

suggest_from_pool-best_example :
    ((valid_results results ≡ []) × ((suggest_from_pool task results agents).0 ≡ err no_result))
    ⊎ ((best : AgentResult ℤ) × ((suggest_from_pool task results agents).0 ≡ ok best)
        × Among best (valid_results results)
        × All (λ r. is_better r best ≡ false) (valid_results results))
suggest_from_pool-best_example = suggest_from_pool-best task results agents refl

abbrev quiet : CommandResult
quiet = record { output = ""; error = none }

-- The project and the sandbox are the names of the files that were written.
abbrev disk : System (List String) (List String)
disk = record {
  copy_project = λ files. ok files;
  make_dirs = λ dir files. ok files;
  write_copy = λ path content files. ok (path ∷ files);
  -- the tests leave a file in the project
  run = λ words files project. (files, project, quiet);
  go_build = λ files project. (files, project, quiet);
  go_test = λ files project. (files, "coverage.out" ∷ project, quiet);
  trimmed_lines = λ text. "ok a" ∷ [];
  fields = λ text. [];
  write_project = λ path content files. (path ∷ files, none);
}

abbrev paths : Paths
paths = record {
  rel = λ base path. some path;
  clean = λ path. path;
  is_abs = λ path. false;
  join = λ dir path. "/tmp/box/a.go";
  abs = λ path. some path;
  dir = λ path. "/tmp/box";
}

abbrev plan : Plan
plan = record { kind = action_write_file; target = "a.go"; patch = "package a"; command = [] } ∷ []

dry_run_passes : (dry_run_with_sandbox paths disk "/tmp/box" "/src" plan []).0.passed ≡ true
unfolding dry_run_with_sandbox
dry_run_passes = refl

abbrev agent_loop : AgentLoop ℤ
agent_loop = record {
  loop = record calm { store = none };
  selector = add_arm whole "greedy" (new_ucb_selector whole);
}

-- A whole number stands for each float, so the confidence is 1.
abbrev connector : Connector ℤ
connector = record (new_connector whole entries events digest agent_loop) { min_confidence = pos 1 }

abbrev tested : SandboxResult
tested = (dry_run_with_sandbox paths disk "/tmp/box" "/src" plan []).0

abbrev answers : Answers ℤ
answers = record {
  id = "c1";
  now = 7;
  plan = ok plan;
  sandbox = λ p. (dry_run_with_sandbox paths disk "/tmp/box" "/src" p []).0;
  semantics = λ p. record { risk = pos 0; reasons = []; mod_impact = pos 0 };
  choose = λ n. 0;
  choose_again = λ n. 0;
  io = calm_world;
}

abbrev suggestion : Suggestion ℤ
suggestion = suggest_and_evaluate whole entries events digest answers connector task

abbrev suggested_result : Suggestion ℤ → AgentResult ℤ
suggested_result (suggested r c) = r
suggested_result other = result 0 []

abbrev suggested_connector : Suggestion ℤ → Connector ℤ
suggested_connector (suggested r c) = c
suggested_connector other = connector

is_suggested : suggestion ≡ suggested (suggested_result suggestion) (suggested_connector suggestion)
unfolding suggest_and_evaluate dry_run_with_sandbox new_connector evolve is_stable add new_detector
    is_oscillating ◌+ℤ◌ orchestrate ◌*ℤ◌ new_gate ◌-ℤ◌
is_suggested = refl

is_accepted : (suggested_result suggestion).accepted ≡ true
unfolding suggest_and_evaluate dry_run_with_sandbox new_connector evolve is_stable add new_detector
    is_oscillating ◌+ℤ◌ orchestrate ◌*ℤ◌ new_gate ◌-ℤ◌
is_accepted = refl

current_score-suggest_and_evaluate_example :
    (suggested_connector suggestion).current_score
    ≡ (if (suggested_result suggestion).accepted then pos 0 else connector.current_score)
current_score-suggest_and_evaluate_example =
    current_score-suggest_and_evaluate whole entries events digest answers connector task
      (suggested_result suggestion) (suggested_connector suggestion) is_suggested
