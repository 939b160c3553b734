-- ===== src/Agent/Coder.antt =====
-- internal/agent/code_agent.go: the agent that asks a language model for a patch. A text is split into
-- its lines and joined again by the caller.
use Prim.Native.Char.{Char, code}
use Prim.Native.String.{◌++◌ as str_append, slice, len}
use text.Mathlib.Text.{starts_with}
use pads_v.Common.{
  ℕ, String, Bool, true, false, not, ◌&&◌, ◌||◌, Option, none, some, List, [], ◌∷◌, if◌then◌else◌,
  ltb, leb, eqb, ◌==◌,
}
use pads_v.Common.{Result, ok, err, ◌>>=◌}
use pads_v.Common.Float.{Float}
use pads_v.Agent.Plans.{Action, Plan, Task, action_write_file, action_run_command, task_fix_broken}
use pads_v.Agent.Score.{contains}

pub data DiffState : Type 0 where
  text_hunk diff_header hunk_meta hunk_body : DiffState

unfoldable pub diff_header_prefix : String → Bool
diff_header_prefix line =
    starts_with line "--- "
    || starts_with line "+++ "
    || starts_with line "diff "
    || starts_with line "index "

unfoldable pub is_hunk_meta : String → Bool
is_hunk_meta line = starts_with line "@@" && contains line "@@"

unfoldable pub is_diff_meta_line : String → Bool
is_diff_meta_line line =
    starts_with line "new file mode "
    || starts_with line "deleted file mode "
    || starts_with line "old mode "
    || starts_with line "new mode "
    || starts_with line "similarity index "
    || starts_with line "rename from "
    || starts_with line "rename to "
    || starts_with line "copy from "
    || starts_with line "copy to "
    || starts_with line "Binary files "

abbrev pub is_header : String → Bool
is_header line = diff_header_prefix line || is_diff_meta_line line

-- The state after a line, and whether the line is kept.
unfoldable pub strip_step : DiffState → String → DiffState × Bool
strip_step text_hunk line =
    if is_header line
    then (diff_header, false)
    else if is_hunk_meta line
    then (hunk_meta, false)
    else (text_hunk, true)
strip_step diff_header line =
    if is_hunk_meta line
    then (hunk_meta, false)
    else if is_header line
    then (diff_header, false)
    else (text_hunk, true)
strip_step hunk line =
    if is_header line
    then (diff_header, false)
    else if is_hunk_meta line
    then (hunk_meta, false)
    else if starts_with line "-"
    then (hunk_body, false)
    else if starts_with line " "
    then (hunk_body, true)
    else if starts_with line "+"
    then (hunk_body, true)
    else if line == ""
    then (hunk_body, true)
    else (text_hunk, true)

unfoldable pub strip_lines : DiffState → List String → List String
unfolding strip_step
strip_lines state [] = []
strip_lines state (line ∷ lines) =
    let (state', kept) = strip_step state line in
    let rest = strip_lines state' lines in if kept then line ∷ rest else rest

-- stripDiffMarkers, from the lines of the patch to those of the result
unfoldable pub strip_diff_markers : List String → List String
unfolding strip_lines
strip_diff_markers lines = strip_lines text_hunk lines

-- Strings of package strings that the agent uses on whole texts.
pub record Texts : Type 0 where
  pub split_lines : String → List String
  pub join_lines : List String → String
  pub trim_suffix : String → String → String
  pub has_suffix : String → String → Bool
  -- the text with its first letter in upper case
  pub capitalise : String → String
  -- strings.LastIndex, in bytes
  pub last_index : String → String → Option ℕ
  -- path/filepath
  pub clean : String → String
  pub is_abs : String → Bool
  pub newline : String
  pub quote : String → String

unfoldable pub is_allowed : Char → Bool
is_allowed c =
    let n = code c in
    eqb n 47
    || eqb n 46
    || eqb n 95
    || eqb n 45
    || (leb 97 n && leb n 122)
    || (leb 65 n && leb n 90)
    || (leb 48 n && leb n 57)

unfoldable pub all_allowed : String → Bool
unfolding is_allowed
all_allowed String.[] = true
all_allowed (String.◌∷◌ c path) = is_allowed c && all_allowed path

pub data PathFault : Type 0 where
  empty_path flag_like disallowed escapes_root : PathFault

module _ (texts : Texts) where
  unfoldable pub is_diff : String → Bool
  is_diff patch =
      starts_with patch "---"
      || starts_with patch "diff "
      || starts_with patch "+++"
      || contains patch (str_append texts.newline "--- ")
      || contains patch (str_append texts.newline "diff ")
      || contains patch (str_append texts.newline "+++ ")

  unfoldable pub dir_for_file : String → String
  dir_for_file path = elim (texts.last_index path "/") [ none ↦ "." | some i ↦ slice path 0 i ]

  unfoldable pub safe_dir_for_file : String → Result PathFault String
  unfolding all_allowed dir_for_file
  safe_dir_for_file path =
      let cleaned = texts.clean path in
      if path == ""
      then err empty_path
      else if starts_with path "-"
      then err flag_like
      else if not (all_allowed path)
      then err disallowed
      else if (cleaned == "..") || starts_with cleaned "../" || texts.is_abs cleaned
      then err escapes_root
      else ok (dir_for_file cleaned)

  unfoldable pub test_name_for_file : String → String
  test_name_for_file path =
      let base = texts.trim_suffix (texts.trim_suffix path ".go") ".py" in
      if ltb 0 (len base) then str_append "Test" (texts.capitalise base) else str_append "Test" base

  unfoldable pub detect_language : String → String
  detect_language path =
      if texts.has_suffix path ".go"
      then "go"
      else if texts.has_suffix path ".py"
      then "python"
      else if texts.has_suffix path ".js"
      then "javascript"
      else if texts.has_suffix path ".ts"
      then "typescript"
      else "unknown"

  abbrev pub write_action : String → String → Action
  write_action target patch = record {
    kind = action_write_file;
    target = target;
    patch = patch;
    command = [];
  }

  abbrev pub test_action : String → Action
  test_action test = record {
    kind = action_run_command;
    target = str_append "go test -run " (str_append test " ./...");
    patch = "";
    command = "go" ∷ "test" ∷ "-run" ∷ test ∷ "./..." ∷ [];
  }

  abbrev pub stripped_patch : String → String
  stripped_patch patch = texts.join_lines (strip_diff_markers (texts.split_lines patch))

  unfoldable pub build_plan : Task → String → Result PathFault Plan
  unfolding is_diff strip_diff_markers safe_dir_for_file test_name_for_file
  build_plan task patch =
      let content = if is_diff patch then stripped_patch patch else patch in
      safe_dir_for_file task.target >>= λ dir.
      ok (write_action task.target content ∷ test_action (test_name_for_file task.target) ∷ [])

pub record CodeResponse (F : Type 0) : Type 0 where
  pub patch : String
  pub explanation : String
  pub confidence : F
  pub warnings : List String

pub data SolveError : Type 0 where
  other_kind : String → SolveError
  llm_error : String → SolveError
  low_confidence : SolveError
  bad_target : PathFault → SolveError

abbrev target_checked : Result PathFault Plan → Result SolveError Plan
target_checked (ok plan) = ok plan
target_checked (err fault) = err (bad_target fault)

-- Solve, given what the model answers to the prompt.
unfoldable pub solve :
    (fl : Float)
    → Texts
    → (min_confidence : Float.F fl) → Task
    → Result String (CodeResponse (Float.F fl))
    → Result SolveError Plan
unfolding build_plan
solve fl texts min_confidence task answer =
    let planned : Result SolveError Plan = elim answer [
      | err e ↦ err (llm_error e)
      | ok resp ↦
          if fl.lt resp.confidence min_confidence
          then err low_confidence
          else target_checked (build_plan texts task resp.patch)
    ] in
    if task.kind == task_fix_broken then planned else err (other_kind task.kind)
