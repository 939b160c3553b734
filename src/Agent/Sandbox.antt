-- ===== src/Agent/Sandbox.antt =====
-- internal/agent/sandbox.go: a plan is tried on a copy of the project, and applied to the project only
-- where its tests pass. What os, path/filepath and os/exec do is a parameter.
pub mod Applied
use text.Mathlib.Text.{starts_with}
use Prim.Native.String.{◌++◌ as str_append}
use pads_v.Common.{
  ℕ, suc, ◌+◌, ◌≡◌, refl, String, Bool, true, false, not, ◌&&◌, ◌||◌, Option, none, some, List, [],
  ◌∷◌, if◌then◌else◌, eqb, ◌==◌,
}
use pads_v.Common.{Result, ok, err, ◌>>=◌}
use pads_v.Agent.Plans.{Action, Plan, action_write_file, action_run_command}
use pads_v.Agent.Score.{SandboxResult}

-- path/filepath: Rel and Abs may fail.
pub record Paths : Type 0 where
  pub rel : String → String → Option String
  pub clean : String → String
  pub is_abs : String → Bool
  pub join : String → String → String
  pub abs : String → Option String
  pub dir : String → String

-- What a command comes to: its output, and the text of its error.
pub record CommandResult : Type 0 where
  pub output : String
  pub error : Option String

-- The files of the sandbox (`B`) and all others, those of the project among them (`R`), and what the
-- system does with them. A command is started in the sandbox, and may change both.
pub record System (B R : Type 0) : Type 0 where
  -- MkdirTemp and copyDir
  pub copy_project : R → Result String B
  pub make_dirs : String → B → Result String B
  pub write_copy : String → String → B → Result String B
  pub run : List String → B → R → B × R × CommandResult
  pub go_build : B → R → B × R × CommandResult
  pub go_test : B → R → B × R × CommandResult
  -- strings.Split at newlines, and strings.TrimSpace on each
  pub trimmed_lines : String → List String
  -- strings.Fields
  pub fields : String → List String
  -- os.WriteFile on the project: what it leaves, and whether it fails
  pub write_project : String → String → R → R × Option String

-- What a plan fails with.
pub data SandboxError : Type 0 where
  create_failed change_failed command_failed build_failed project_failed : SandboxError

-- `..`, or a path that begins with it
abbrev goes_up : String → Bool
goes_up path = (path == "..") || starts_with path "../"

abbrev is_bad_relative : Option String → Bool
is_bad_relative none = true
is_bad_relative (some path) = goes_up path

-- resolveSandboxTarget
unfoldable pub resolve_sandbox_target :
    Paths → (work_dir project_root target : String) → Option String
resolve_sandbox_target paths work_dir project_root target = elim (paths.rel project_root target) [
  | none ↦ none
  | some relative ↦
      let clean_rel = paths.clean relative in
      let sandbox_path = paths.clean (paths.join work_dir clean_rel) in
      elim (paths.abs sandbox_path) [
        | none ↦ none
        | some abs_sandbox ↦ elim (paths.abs work_dir) [
          | none ↦ none
          | some abs_root ↦
              if goes_up clean_rel || paths.is_abs clean_rel
              then none
              else if not (abs_sandbox == abs_root)
                  && not (starts_with abs_sandbox (str_append abs_root "/"))
              then none
              else if is_bad_relative (paths.rel abs_root abs_sandbox)
              then none
              else some abs_sandbox
        ]
      ]
]

-- RunTests: the counts of the lines of `go test -v`.
unfoldable pub count_lines : String → List String → ℕ
count_lines prefix [] = 0
count_lines prefix (line ∷ lines) =
    let rest = count_lines prefix lines in if starts_with line prefix then suc rest else rest

-- A line is counted as failed only where it is not counted as passed.
unfoldable pub count_failed : List String → ℕ
count_failed [] = 0
count_failed (line ∷ lines) =
    let rest = count_failed lines in
    if starts_with line "ok " then rest else if starts_with line "FAIL " then suc rest else rest

-- countChangedFiles
abbrev pub count_changed_files : List String → ℕ
count_changed_files lines = count_lines "patching file " lines

abbrev is_none : Option String → Bool
is_none none = true
is_none (some _) = false

abbrev pub no_result : SandboxResult
no_result = record {
  passed = false;
  tests_passed = 0;
  tests_failed = 0;
  build_output = "";
  test_output = "";
  error = none;
  sandbox_path = "";
}

-- The text of an error, of which only the kind is kept.
abbrev error_text : SandboxError → String
error_text create_failed = "create sandbox"
error_text change_failed = "apply change"
error_text command_failed = "execute command"
error_text build_failed = "build failed"
error_text project_failed = "apply to real fs"

abbrev pub failed_result : SandboxError → SandboxResult
failed_result e = record no_result { error = some (error_text e) }

module _ {B R : Type 0} (paths : Paths) (system : System B R) (work_dir project_root : String) where
  -- ApplyChange
  unfoldable pub apply_change : String → String → B → Result String B
  unfolding resolve_sandbox_target
  apply_change target content files =
      elim (resolve_sandbox_target paths work_dir project_root target) [
        | none ↦ err "escapes sandbox"
        | some path ↦
            system.make_dirs (paths.dir path) files >>= λ made. system.write_copy path content made
      ]

  -- The command of an action: its words, or those of its target.
  unfoldable pub command_of : Action → Option (List String)
  command_of action = elim action.command [
    | word ∷ words ↦ some (word ∷ words)
    | [] ↦
        if action.target == ""
        then none
        else elim (system.fields action.target) [ [] ↦ none | word ∷ words ↦ some (word ∷ words) ]
  ]

  abbrev ran : B × R × CommandResult → Result String B × R
  ran (files, project, result) = ((elim result.error [ none ↦ ok files | some e ↦ err e ]), project)

  -- executeCommandInSandbox, with what the command leaves outside of the sandbox
  unfoldable pub execute_command : Action → B → R → Result String B × R
  unfolding command_of
  execute_command action files project = elim (command_of action) [
    | none ↦ (err "no command", project)
    | some words ↦ ran (system.run words files project)
  ]

  abbrev tagged : SandboxError → Result String B → Result SandboxError B
  tagged e (ok files) = ok files
  tagged e (err _) = err e

  unfoldable pub try_action : Action → B → R → Result SandboxError B × R
  unfolding apply_change execute_command
  try_action action files project =
      let changed = tagged change_failed (apply_change action.target action.patch files) in
      let (result, project') = execute_command action files project in
      if action.kind == action_write_file
      then (changed, project)
      else if action.kind == action_run_command
      then (tagged command_failed result, project')
      else (ok files, project)

  -- The loop over the steps, in the sandbox.
  unfoldable pub try_plan : Plan → B → R → Result SandboxError B × R
  unfolding try_action
  try_plan [] files project = (ok files, project)
  try_plan (action ∷ plan) files project =
      let (result, project') = try_action action files project in
      elim result [ err e ↦ (err e, project') | ok files' ↦ try_plan plan files' project' ]

  -- RunTests
  unfoldable pub run_tests : B → R → SandboxResult × R
  unfolding count_lines count_failed
  run_tests files project =
      let (built, after_build, build) = system.go_build files project in
      let (tested, after_test, test) = system.go_test built after_build in
      let lines = system.trimmed_lines test.output in
      let failed = count_failed lines in
      let result : SandboxResult = record no_result {
        build_output = build.output;
        sandbox_path = work_dir;
      } in
      if is_none build.error
      then (
        record result {
          test_output = test.output;
          tests_passed = count_lines "ok " lines;
          tests_failed = if is_none test.error then failed else if eqb failed 0 then 1 else failed;
          passed = is_none test.error && eqb failed 0;
        },
        after_test,
      )
      else (record result { error = some (error_text build_failed) }, after_build)

  -- The last loop: the files of the plan are written to the project, up to an error.
  unfoldable pub write_plan : Plan → R → R × Bool
  write_plan [] project = (project, true)
  write_plan (action ∷ plan) project =
      let skipped = write_plan plan project in
      let (project', failed) = system.write_project action.target action.patch project in
      let rest = write_plan plan project' in
      let written : R × Bool = if is_none failed then rest else (project', false) in
      if action.kind == action_write_file then written else skipped

  -- What follows the tests.
  unfoldable pub apply_tested : Plan → SandboxResult → R → SandboxResult × R
  unfolding write_plan
  apply_tested plan result project =
      let (project', complete) = write_plan plan project in
      if result.passed
      then (
        (if complete
            then result
            else record result { error = some (error_text project_failed); passed = false }),
        project',
      )
      else (result, project)

  -- ExecuteWithSandbox. Removing the sandbox changes nothing that is modelled.
  unfoldable pub execute_with_sandbox : Plan → R → SandboxResult × R
  unfolding try_plan run_tests apply_tested
  execute_with_sandbox plan project = elim (system.copy_project project) [
    | err _ ↦ (failed_result create_failed, project)
    | ok files ↦
        let (tried, project') = try_plan plan files project in
        elim tried [
          | err e ↦ (failed_result e, project')
          | ok files' ↦
              let (result, project'') = run_tests files' project' in
              apply_tested plan result project''
        ]
  ]

  -- DryRunWithSandbox
  unfoldable pub dry_run_with_sandbox : Plan → R → SandboxResult × R
  unfolding try_plan run_tests
  dry_run_with_sandbox plan project = elim (system.copy_project project) [
    | err _ ↦ (failed_result create_failed, project)
    | ok files ↦
        let (tried, project') = try_plan plan files project in
        elim tried [ err e ↦ (failed_result e, project') | ok files' ↦ run_tests files' project' ]
  ]
