-- ===== src/Agent/Execution.antt =====
-- internal/agent/executor.go: the actions of a plan, one after the other, on the system itself.
use Prim.Native.String.{◌++◌ as str_append, len}
use pads_v.Common.{
  ℕ, String, Bool, true, false, not, ◌&&◌, ◌||◌, Option, none, some, List, [], ◌∷◌, if◌then◌else◌,
  ◌==◌,
}
use pads_v.Common.{Result, ok, err}
use pads_v.Common.Int.{ℤ, pos}
use pads_v.Agent.Plans.{
  Action, Plan, action_write_file, action_run_command, action_log, is_valid_action_kind,
}

pub record ExecutionResult : Type 0 where
  pub action : Action
  pub output : String
  pub exit_code : ℤ
  pub applied : Bool
  pub error : String

-- What os and os/exec do, on the state `S` of the system, and fmt's notation.
pub record Host (S : Type 0) : Type 0 where
  pub make_dirs : String → S → Result String S
  pub put_file : String → String → S → Result String S
  -- a command's state, output, exit code, and error
  pub run : List String → List String → S → S × String × ℤ × Option String
  pub environment : List String
  -- strings.Fields, strings.SplitN at the first "=", filepath.Dir
  pub fields : String → List String
  pub split_variable : String → Option (String × String)
  pub dir : String → String
  pub decimal : ℕ → String
  pub list : List String → String

-- A result with its action and nothing else.
abbrev pub of_action : Action → ExecutionResult
of_action action = record {
  action = action;
  output = "";
  exit_code = pos 0;
  applied = false;
  error = "";
}

abbrev failing : Action → String → ExecutionResult
failing action e = record (of_action action) { error = e }

abbrev is_dangerous : String → Bool
is_dangerous name =
    (name == "LD_PRELOAD")
    || (name == "LD_LIBRARY_PATH")
    || (name == "DYLD_INSERT_LIBRARIES")
    || (name == "DYLD_LIBRARY_PATH")

abbrev is_bad_variable : Option (String × String) → Bool
is_bad_variable none = false
is_bad_variable (some (name, value)) = is_dangerous name

module _ {S : Type 0} (host : Host S) where
  -- filterEnv
  unfoldable pub filter_env : List String → List String
  filter_env [] = []
  filter_env (v ∷ env) =
      let rest = filter_env env in
      if is_bad_variable (host.split_variable v) then rest else v ∷ rest

  unfoldable pub write_file : (dry_run : Bool) → Action → S → ExecutionResult × S
  write_file dry_run action s =
      let bytes = host.decimal (len action.patch) in
      let done : ExecutionResult × S = elim (host.make_dirs (host.dir action.target) s) [
        | err e ↦ (failing action (str_append "mkdirAll: " e), s)
        | ok made ↦ elim (host.put_file action.target action.patch made) [
          | err e ↦ (failing action (str_append "writefile: " e), made)
          | ok written ↦ (
            record (of_action action) {
              applied = true;
              output =
                  str_append "wrote " (str_append bytes (str_append " bytes to " action.target));
            },
            written,
          )
        ]
      ] in
      if action.target == ""
      then (failing action "write_file: missing target", s)
      else if dry_run
      then (
        record (of_action action) {
          output =
              str_append "[dry-run] would write "
                (str_append bytes (str_append " bytes to " action.target));
        },
        s,
      )
      else done

  abbrev answer_of : Action → S × String × ℤ × Option String → ExecutionResult × S
  answer_of action (s, output, code, none) =
      (record (of_action action) { applied = true; output = output }, s)
  answer_of action (s, output, code, some e) = (
    record (of_action action) {
      output = output;
      exit_code = code;
      error = str_append "command failed: " e;
    },
    s,
  )

  -- The rest of runCommand, for a command and its arguments.
  unfoldable pub run_words :
      (dry_run : Bool) → Action → String → List String → S → ExecutionResult × S
  unfolding filter_env
  run_words dry_run action word args s =
      let ran = answer_of action (host.run (word ∷ args) (filter_env host.environment) s) in
      if dry_run
      then (
        record (of_action action) {
          output =
              str_append "[dry-run] would run: "
                (str_append word (str_append " " (host.list args)));
        },
        s,
      )
      else ran

  unfoldable pub run_command : (dry_run : Bool) → Action → S → ExecutionResult × S
  unfolding run_words
  run_command dry_run action s = elim action.command [
    | word ∷ args ↦ run_words dry_run action word args s
    | [] ↦
        if action.target == ""
        then (failing action "run_command: no command specified", s)
        else elim (host.fields action.target) [
          | [] ↦ (failing action "run_command: empty target", s)
          | word ∷ args ↦ run_words dry_run action word args s
        ]
  ]

  unfoldable pub execute : (dry_run : Bool) → Action → S → ExecutionResult × S
  unfolding write_file run_command is_valid_action_kind
  execute dry_run action s =
      let written = write_file dry_run action s in
      let ran = run_command dry_run action s in
      if not (is_valid_action_kind action.kind)
      then (failing action (str_append "invalid action kind: " action.kind), s)
      else if action.kind == action_write_file
      then written
      else if action.kind == action_run_command
      then ran
      else if action.kind == action_log
      then (record (of_action action) { applied = true; output = "log action" }, s)
      else (failing action "unhandled action kind", s)

  unfoldable pub execute_plan :
      (dry_run continue_on_error : Bool) → Plan → S → List ExecutionResult × S
  unfolding execute
  execute_plan dry_run continue_on_error [] s = ([], s)
  execute_plan dry_run continue_on_error (step ∷ plan) s =
      let (res, s') = execute dry_run step s in
      let (results, last) = execute_plan dry_run continue_on_error plan s' in
      if not (res.error == "") && not continue_on_error
      then (res ∷ [], s')
      else (res ∷ results, last)
